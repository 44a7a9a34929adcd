-- ===== src/Attendance/Partition.antt =====
-- The attendance detail parts the candidates.
use ding_ding_schedule.Prelude.{
  ℕ, ◌-◌, Bool, true, false, not, ◌&&◌, ◌||◌, ◌≡◌, refl, sym, subst, ◌∙◌, ap, inl, inr, Option,
  none, some, List, [], ◌∷◌, arith, Bool-cases, eq_of_some, if_true, if_false, get_elem?,
  if◌then◌else◌,
}
use ding_ding_schedule.Attendance.{
  Time, User, AttendanceUserBasic, AttendanceUserCheck, AttendanceDetailResponse,
  AttendanceDetailRequest, AttendanceWindow, AttendanceUserLists, SlotTimeInfo, user_id_bool_set,
  filter_model_users, to_basic_list, to_rest_day_basic_list, new_attendance_detail_response,
}
use ding_ding_schedule.Attendance.Sources.{Sources}
use ding_ding_schedule.Attendance.Detail.{
  answer, ids, Checks, get_leave_users, get_on_time_users,
  get_attendance_candidates_with_course_users, weekday_mon1_sun7,
}
use ding_ding_schedule.Attendance.Build.{
  Groups, group_users, counted, assemble, nobody, carry, attended, finish, on_rest_day, slot_of,
  is_none_attending, build_attendance_detail, calculate_not_arrived, enrich_attendance_detail_users,
  names_or_none,
}
use ding_ding_schedule.Attendance.Membership.{holds, holds-map}
use ding_ding_schedule.Attendance.Within.{
  user_id, leave_id, check_id, answer-injective, >>=-answer, get_leave_users-within,
  get_on_time_users-within, apply_carry_forward-within, filter_rest_day_users-within,
  candidates-within,
}
use ding_ding_schedule.Attendance.Split.{
  basic_id, Parts, Grouped, group_users-Grouped, holds-counted,
  holds-calculate_not_arrived_with_late, fill_lists-Parts,
}

holds-named :
    (users : List User) (i : ℕ)
    → holds basic_id (to_rest_day_basic_list users) i ≡ holds user_id users i
unfolding to_rest_day_basic_list
holds-named users i = holds-map user_id basic_id _ (λ u. refl) users i

holds-to_basic_list :
    (users : List User) (i : ℕ) → holds basic_id (to_basic_list users) i ≡ holds user_id users i
unfolding to_basic_list
holds-to_basic_list users i = holds-map user_id basic_id _ (λ u. refl) users i

-- the lists before the names are filled in
abbrev raw_lists :
    Groups
    → List AttendanceUserCheck
    → List AttendanceUserCheck
    → List AttendanceUserBasic
    → AttendanceUserLists
raw_lists g on_time late not_arrived = record {
  should_attend = to_rest_day_basic_list g.should_attend;
  on_time = on_time;
  late = late;
  leave = g.leave;
  not_arrived = not_arrived;
  rest_day = to_rest_day_basic_list g.rest;
  has_course = to_basic_list g.course;
}

raw_lists-Parts :
    (candidate : Bool) (g : Groups) (on_time late : List AttendanceUserCheck)
    (not_arrived : List AttendanceUserBasic) (i : ℕ)
    → Grouped candidate g i
    → ((holds check_id on_time i || holds check_id late i) ≡ true
        → (holds user_id g.should_attend i && not (holds leave_id g.leave i)) ≡ true)
    → holds basic_id not_arrived i ≡ (
        holds user_id g.should_attend i
        && not (holds check_id on_time i || holds check_id late i || holds leave_id g.leave i))
    → Parts candidate (raw_lists g on_time late not_arrived) i
raw_lists-Parts candidate g on_time late not_arrived i p checked missing =
    let should = holds-named g.should_attend i in
    let rest = holds-named g.rest i in
    let course = holds-to_basic_list g.course i in
    let resting = p.resting in
    let in_course = p.in_course in
    let attending = p.attending in
    let on_leave = p.on_leave in
    record {
      resting = λ h. ground (arith, h);
      in_course = λ h. ground (arith, h);
      attending = ground arith;
      on_leave = λ h. ground (arith, h);
      checked = λ h. ground (arith, h);
      missing = ground arith;
    }

assemble-Parts :
    (s : Sources) (req : AttendanceDetailRequest) (slot : SlotTimeInfo) (split_late : Bool)
    (active : List User) (candidate : Bool) (g : Groups) (c : Checks) (i : ℕ)
    → Grouped candidate g i
    → ((holds check_id c.0 i || holds check_id c.1 i) ≡ true
        → holds user_id g.should_attend i ≡ true)
    → Parts candidate (assemble s req slot split_late active g c).0.users i
unfolding assemble enrich_attendance_detail_users new_attendance_detail_response
    calculate_not_arrived
assemble-Parts s req slot true active candidate g (carried, late) i p within =
    let on = holds-counted g carried i in
    let of_late = holds-counted g late i in
    fill_lists-Parts active (names_or_none (s.department_names (ids active))) _ candidate i (
      raw_lists-Parts candidate g (counted g carried) (counted g late) _ i p
        (λ h. ground (arith, h))
        (holds-calculate_not_arrived_with_late g.should_attend (counted g carried) (counted g late)
          g.leave i))
assemble-Parts s req slot false active candidate g (carried, late) i p within =
    let on = holds-counted g carried i in
    fill_lists-Parts active (names_or_none (s.department_names (ids active))) _ candidate i (
      raw_lists-Parts candidate g (counted g carried) [] _ i p (λ h. ground (arith, h))
        (holds-calculate_not_arrived_with_late g.should_attend (counted g carried) [] g.leave i))

none_attending : (users : List User) → is_none_attending users ≡ true → users ≡ []
none_attending [] h = refl
none_attending (u ∷ us) h = cc

nobody-Parts :
    (s : Sources) (req : AttendanceDetailRequest) (slot : SlotTimeInfo) (active : List User)
    (candidate : Bool) (g : Groups) (i : ℕ)
    → Grouped candidate g i
    → g.should_attend ≡ []
    → Parts candidate (nobody s req slot active g).0.users i
unfolding nobody enrich_attendance_detail_users new_attendance_detail_response
    to_rest_day_basic_list
nobody-Parts s req slot active candidate g i p empty =
    let rest = holds-named g.rest i in
    let course = holds-to_basic_list g.course i in
    let absent = ap (λ us. holds user_id us i) empty in
    let resting = p.resting in
    let in_course = p.in_course in
    let attending = p.attending in
    fill_lists-Parts active (names_or_none (s.department_names (ids active)))
      (new_attendance_detail_response req slot [] [] [] [] (to_rest_day_basic_list g.rest)
        (to_basic_list g.course)).users
      candidate i
      (record {
        resting = λ h. ground (arith, h);
        in_course = λ h. ground (arith, h);
        attending = ground arith;
        on_leave = λ h. absurd (ground (arith, h));
        checked = λ h. absurd (ground (arith, h));
        missing = refl;
      })

carry-within :
    (s : Sources) (req : AttendanceDetailRequest) (window : AttendanceWindow) (g : Groups)
    (until : Time) (c : Checks) (i : ℕ)
    → get_on_time_users s g.should_attend window.date req.section window.late_deadline until
      ≡ answer c
    → (holds check_id (carry s req window g c).0 i || holds check_id (carry s req window g c).1 i)
      ≡ true
    → holds user_id g.should_attend i ≡ true
carry-within s req window g until (on_time, late) i made h =
    let direct =
      get_on_time_users-within s g.should_attend window.date req.section window.late_deadline until
        (on_time, late) i made in
    let carried =
      apply_carry_forward-within s window.date req.section window.periods g.should_attend on_time
        i in
    ground arith

finish-Parts :
    (s : Sources) (req : AttendanceDetailRequest) (window : AttendanceWindow) (until : Time)
    (split_late : Bool) (active : List User) (candidate : Bool) (g : Groups) (i : ℕ)
    (a : AttendanceDetailResponse × List User)
    → Grouped candidate g i
    → finish s req window until split_late active g ≡ answer a
    → Parts candidate a.0.users i
finish-Parts s req window until split_late active candidate g i a p made =
    let (slot, _, rest) =
      >>=-answer (slot_of (get_elem? window.periods (req.section - 1)))
        (λ slot.
          if is_none_attending g.should_attend
          then answer (nobody s req slot active g)
          else attended s req window until split_late slot active g)
        made in
    elim (Bool-cases (is_none_attending g.should_attend)) [
      | inl none_here ↦
          subst (λ b. Parts candidate b.0.users i)
            (answer-injective (sym (if_true _ _ _ none_here) ∙ rest))
            (nobody-Parts s req slot active candidate g i p
              (none_attending g.should_attend none_here))
      | inr some_here ↦
          let (c, checked, given) =
            >>=-answer
              (get_on_time_users s g.should_attend window.date req.section window.late_deadline
                until)
              (λ c. answer (assemble s req slot split_late active g (carry s req window g c)))
              (sym (if_false _ _ _ some_here) ∙ rest) in
          subst (λ b. Parts candidate b.0.users i) (answer-injective given)
            (assemble-Parts s req slot split_late active candidate g (carry s req window g c) i p
              (carry-within s req window g until c i checked))
    ]

-- Whenever a detail is answered, with late checks apart or not: of the candidates that the repository
-- gives, those on a rest day and those with a course are apart, and the others should attend, who
-- include all that are on leave; a check on time or late belongs to one who should attend and is not on
-- leave; and those that have not arrived are the ones who should attend without a check or a leave.
pub candidates_divided :
    (s : Sources) (req : AttendanceDetailRequest) (window : Option AttendanceWindow) (until : Time)
    (split_late : Bool) (a : AttendanceDetailResponse × List User) (candidates : List User) (i : ℕ)
    → build_attendance_detail s req window until split_late ≡ answer a
    → s.attendance_candidates ≡ some candidates
    → Parts (holds user_id candidates i) a.0.users i
unfolding build_attendance_detail
candidates_divided s req none until split_late a candidates i made given = cc
candidates_divided s req (some window) until split_late a candidates i made given =
    let ((active, with_course), listed, rest) =
      >>=-answer (get_attendance_candidates_with_course_users s window.date req.week req.section) _
        made in
    let (leave, read, last) =
      >>=-answer
        (get_leave_users s
          (filter_model_users active (user_id_bool_set (on_rest_day s window active)))
          window.slot_start window.slot_end)
        _ rest in
    let (candidates_read, courses) =
      candidates-within s window.date req.week req.section active with_course i listed in
    subst (λ us. Parts (holds user_id us i) a.0.users i) (eq_of_some (sym candidates_read ∙ given))
      (finish-Parts s req window until split_late active (holds user_id active i)
        (group_users active with_course (on_rest_day s window active) leave) i a
        (group_users-Grouped active with_course (on_rest_day s window active) leave i courses
          (filter_rest_day_users-within s active (weekday_mon1_sun7 s window.date) i)
          (get_leave_users-within s _ window.slot_start window.slot_end leave i read))
        last)
