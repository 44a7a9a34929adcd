-- ===== src/Attendance/Counts.antt =====
-- The counts of an attendance detail.
use ding_ding_schedule.Prelude.{
  ◌-◌, Bool, true, false, ◌≡◌, refl, sym, subst, ◌∙◌, inl, inr, Option, none, some, List, [],
  Bool-cases, if_true, if_false, length, get_elem?, if◌then◌else◌,
}
use ding_ding_schedule.Attendance.{
  Time, User, AttendanceUserBasic, AttendanceUserCheck, AttendanceUserLeave,
  AttendanceDetailResponse, AttendanceDetailRequest, AttendanceWindow, SlotTimeInfo,
  user_id_bool_set, filter_model_users, to_basic_list, to_rest_day_basic_list,
  new_attendance_detail_response,
}
use ding_ding_schedule.Attendance.Sources.{Sources}
use ding_ding_schedule.Attendance.Detail.{
  answer, get_leave_users, get_on_time_users, get_attendance_candidates_with_course_users,
}
use ding_ding_schedule.Attendance.Build.{
  Groups, group_users, assemble, nobody, carry, attended, finish, on_rest_day, slot_of,
  is_none_attending, build_attendance_detail, enrich_attendance_detail_users, fill_lists, with_late,
}
use ding_ding_schedule.Attendance.Membership.{length-map-kept}
use ding_ding_schedule.Attendance.Within.{user_id, leave_id, check_id, answer-injective, >>=-answer}
use ding_ding_schedule.Attendance.Split.{basic_id}
use ding_ding_schedule.Attendance.Forced.{Counted}

length-named : (users : List User) → length (to_rest_day_basic_list users) ≡ length users
unfolding to_rest_day_basic_list
length-named users = length-map-kept user_id _ users

length-basic : (users : List User) → length (to_basic_list users) ≡ length users
unfolding to_basic_list
length-basic users = length-map-kept user_id _ users

enrich-Counted :
    (s : Sources) (users : List User) (resp : AttendanceDetailResponse)
    → Counted resp
    → Counted (enrich_attendance_detail_users s users resp)
unfolding enrich_attendance_detail_users fill_lists
enrich-Counted s users resp c = record {
  should_attend = c.should_attend ∙ sym (length-map-kept basic_id _ resp.users.should_attend);
  on_time = c.on_time ∙ sym (length-map-kept check_id _ resp.users.on_time);
  late = c.late ∙ sym (length-map-kept check_id _ resp.users.late);
  leave = c.leave ∙ sym (length-map-kept leave_id _ resp.users.leave);
  not_arrived = c.not_arrived ∙ sym (length-map-kept basic_id _ resp.users.not_arrived);
  rest_day = c.rest_day ∙ sym (length-map-kept basic_id _ resp.users.rest_day);
  has_course = c.has_course ∙ sym (length-map-kept basic_id _ resp.users.has_course);
}

new-Counted :
    (req : AttendanceDetailRequest) (slot : SlotTimeInfo) (should : List User)
    (on_time : List AttendanceUserCheck) (leave : List AttendanceUserLeave)
    (not_arrived rest_day has_course : List AttendanceUserBasic)
    → Counted (
        new_attendance_detail_response req slot should on_time leave not_arrived rest_day
          has_course)
unfolding new_attendance_detail_response
new-Counted req slot should on_time leave not_arrived rest_day has_course = record {
  should_attend = sym (length-named should);
  on_time = refl;
  late = refl;
  leave = refl;
  not_arrived = refl;
  rest_day = refl;
  has_course = refl;
}

with_late-Counted :
    (split_late : Bool) (late : List AttendanceUserCheck) (resp : AttendanceDetailResponse)
    → Counted resp
    → Counted (with_late split_late late resp)
with_late-Counted false late resp c = c
with_late-Counted true late resp c = record {
  should_attend = c.should_attend;
  on_time = c.on_time;
  late = refl;
  leave = c.leave;
  not_arrived = c.not_arrived;
  rest_day = c.rest_day;
  has_course = c.has_course;
}

finish-Counted :
    (s : Sources) (req : AttendanceDetailRequest) (window : AttendanceWindow) (until : Time)
    (split_late : Bool) (active : List User) (g : Groups) (a : AttendanceDetailResponse × List User)
    → finish s req window until split_late active g ≡ answer a
    → Counted a.0
unfolding assemble nobody
finish-Counted s req window until split_late active g a made =
    let (slot, _, rest) =
      >>=-answer (slot_of (get_elem? window.periods (req.section - 1)))
        (λ slot.
          if is_none_attending g.should_attend
          then answer (nobody s req slot active g)
          else attended s req window until split_late slot active g)
        made in
    elim (Bool-cases (is_none_attending g.should_attend)) [
      | inl none_here ↦
          subst (λ b. Counted b.0) (answer-injective (sym (if_true _ _ _ none_here) ∙ rest))
            (enrich-Counted s active _ (
              new-Counted req slot [] [] [] [] (to_rest_day_basic_list g.rest)
                (to_basic_list g.course)))
      | inr some_here ↦
          let (c, _, given) =
            >>=-answer
              (get_on_time_users s g.should_attend window.date req.section window.late_deadline
                until)
              (λ c. answer (assemble s req slot split_late active g (carry s req window g c)))
              (sym (if_false _ _ _ some_here) ∙ rest) in
          subst (λ b. Counted b.0) (answer-injective given)
            (enrich-Counted s active _ (
              with_late-Counted split_late _ _
                (new-Counted req slot g.should_attend _ g.leave _ _ _)))
    ]

-- Every count of an answered detail is the length of the list that it stands for.
pub detail_counts_lists :
    (s : Sources) (req : AttendanceDetailRequest) (window : Option AttendanceWindow) (until : Time)
    (split_late : Bool) (a : AttendanceDetailResponse × List User)
    → build_attendance_detail s req window until split_late ≡ answer a
    → Counted a.0
unfolding build_attendance_detail
detail_counts_lists s req none until split_late a made = cc
detail_counts_lists s req (some window) until split_late a made =
    let ((active, with_course), listed, rest) =
      >>=-answer (get_attendance_candidates_with_course_users s window.date req.week req.section) _
        made in
    let (leave, read, last) =
      >>=-answer
        (get_leave_users s
          (filter_model_users active (user_id_bool_set (on_rest_day s window active)))
          window.slot_start window.slot_end)
        _ rest in
    finish-Counted s req window until split_late active
      (group_users active with_course (on_rest_day s window active) leave) a last
