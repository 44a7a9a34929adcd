-- ===== src/Attendance/Split.antt =====
-- How the lists of an attendance detail part the candidates.
use ding_ding_schedule.Prelude.{
  ℕ, Bool, true, not, ◌&&◌, ◌||◌, ◌≡◌, refl, String, Option, none, some, List, [], ◌∷◌, ◌++◌, map,
  ◌==◌, any-append, keep_if, arith,
}
use ding_ding_schedule.Attendance.{
  User, AttendanceUserBasic, AttendanceUserCheck, AttendanceUserLeave, AttendanceUserLists, IdSet,
  has, user_id_bool_set, attendance_leave_id_bool_set, merge_bool_sets, filter_model_users,
  filter_attendance_checks,
}
use ding_ding_schedule.Attendance.Build.{
  Groups, group_users, counted, calculate_not_arrived_with_late, fill_lists, fill_basic, fill_check,
  fill_leave, first_user, check_ids, leave_ids,
}
use ding_ding_schedule.Attendance.Membership.{
  holds, has-map, holds-keep_if, holds-filtered, holds-map,
}
use ding_ding_schedule.Attendance.Within.{user_id, leave_id, check_id}

abbrev pub basic_id : AttendanceUserBasic → ℕ
basic_id u = u.id

-- What the lists say of one id, given whether it is a candidate's.
pub record Parts (candidate : Bool) (lists : AttendanceUserLists) (i : ℕ) : Type 0 where
  pub resting : holds basic_id lists.rest_day i ≡ true → candidate ≡ true
  pub in_course :
      holds basic_id lists.has_course i ≡ true
      → (candidate && not (holds basic_id lists.rest_day i)) ≡ true
  pub attending : holds basic_id lists.should_attend i ≡ (
      candidate && not (holds basic_id lists.rest_day i) && not (holds basic_id lists.has_course i))
  pub on_leave : holds leave_id lists.leave i ≡ true → holds basic_id lists.should_attend i ≡ true
  pub checked :
      (holds check_id lists.on_time i || holds check_id lists.late i) ≡ true
      → (holds basic_id lists.should_attend i && not (holds leave_id lists.leave i)) ≡ true
  pub missing : holds basic_id lists.not_arrived i ≡ (
      holds basic_id lists.should_attend i
      && not (
          holds check_id lists.on_time i
          || holds check_id lists.late i
          || holds leave_id lists.leave i))

-- The same of the groups that the answer is made from.
pub record Grouped (candidate : Bool) (g : Groups) (i : ℕ) : Type 0 where
  pub resting : holds user_id g.rest i ≡ true → candidate ≡ true
  pub in_course :
      holds user_id g.course i ≡ true → (candidate && not (holds user_id g.rest i)) ≡ true
  pub attending :
      holds user_id g.should_attend i
      ≡ (candidate && not (holds user_id g.rest i) && not (holds user_id g.course i))
  pub on_leave : holds leave_id g.leave i ≡ true → holds user_id g.should_attend i ≡ true

pub has-user_id_bool_set :
    (users : List User) (i : ℕ) → has (user_id_bool_set users) i ≡ holds user_id users i
unfolding user_id_bool_set
has-user_id_bool_set users i = has-map user_id users i

pub has-attendance_leave_id_bool_set :
    (users : List AttendanceUserLeave) (i : ℕ)
    → has (attendance_leave_id_bool_set users) i ≡ holds leave_id users i
unfolding attendance_leave_id_bool_set
has-attendance_leave_id_bool_set users i = has-map leave_id users i

has-merge_bool_sets :
    (a b : IdSet) (i : ℕ) → has (merge_bool_sets (a ∷ b ∷ [])) i ≡ (has a i || has b i)
unfolding merge_bool_sets
has-merge_bool_sets a b i =
    let outer = any-append (λ j. j == i) a (b ++ []) in
    let inner = any-append (λ j. j == i) b [] in ground arith

holds-filter_model_users :
    (users : List User) (set : IdSet) (i : ℕ)
    → holds user_id (filter_model_users users set) i ≡ (holds user_id users i && not (has set i))
unfolding filter_model_users
holds-filter_model_users users set i = holds-filtered user_id users set i

pub group_users-Grouped :
    (active with_course rest : List User) (leave : List AttendanceUserLeave) (i : ℕ)
    → (holds user_id with_course i ≡ true → holds user_id active i ≡ true)
    → (holds user_id rest i ≡ true → holds user_id active i ≡ true)
    → (holds leave_id leave i ≡ true
        → holds user_id (filter_model_users active (user_id_bool_set rest)) i ≡ true)
    → Grouped (holds user_id active i) (group_users active with_course rest leave) i
unfolding group_users
group_users-Grouped active with_course rest leave i courses rests leaves =
    let rest_set = user_id_bool_set rest in
    let leave_set = attendance_leave_id_bool_set leave in
    let off = merge_bool_sets (rest_set ∷ leave_set ∷ []) in
    let course = filter_model_users with_course off in
    let of_rest = has-user_id_bool_set rest i in
    let of_leave = has-attendance_leave_id_bool_set leave i in
    let of_off = has-merge_bool_sets rest_set leave_set i in
    let of_course = holds-filter_model_users with_course off i in
    let of_course_set = has-user_id_bool_set course i in
    let of_busy = has-merge_bool_sets rest_set (user_id_bool_set course) i in
    let of_should =
      holds-filter_model_users active (merge_bool_sets (rest_set ∷ user_id_bool_set course ∷ []))
        i in
    let of_not_resting = holds-filter_model_users active rest_set i in
    record {
      resting = rests;
      in_course = λ h. ground (arith, h);
      attending = ground arith;
      on_leave = λ h. ground (arith, h);
    }

pub holds-counted :
    (g : Groups) (checks : List AttendanceUserCheck) (i : ℕ)
    → holds check_id (counted g checks) i
      ≡ (holds check_id checks i && not (holds leave_id g.leave i || holds user_id g.rest i))
unfolding counted filter_attendance_checks
holds-counted g checks i =
    let leave_set = attendance_leave_id_bool_set g.leave in
    let rest_set = user_id_bool_set g.rest in
    let of_leave = has-attendance_leave_id_bool_set g.leave i in
    let of_rest = has-user_id_bool_set g.rest i in
    let of_both = has-merge_bool_sets leave_set rest_set i in
    let kept = holds-filtered check_id checks (merge_bool_sets (leave_set ∷ rest_set ∷ [])) i in
    ground arith

pub holds-calculate_not_arrived_with_late :
    (should : List User) (on_time late : List AttendanceUserCheck)
    (leave : List AttendanceUserLeave) (i : ℕ)
    → holds basic_id (calculate_not_arrived_with_late should on_time late leave) i ≡ (
        holds user_id should i
        && not (holds check_id on_time i || holds check_id late i || holds leave_id leave i))
unfolding calculate_not_arrived_with_late
holds-calculate_not_arrived_with_late should on_time late leave i =
    let processed = check_ids on_time ++ check_ids late ++ leave_ids leave in
    let outer = any-append (λ j. j == i) (check_ids on_time ++ check_ids late) (leave_ids leave) in
    let inner = any-append (λ j. j == i) (check_ids on_time) (check_ids late) in
    let of_on_time = has-map check_id on_time i in
    let of_late = has-map check_id late i in
    let of_leave = has-map leave_id leave i in
    let kept = holds-keep_if user_id processed should i in
    let named =
      holds-map user_id basic_id
        (λ u. record { id = u.id; name = u.name; avatar = ""; dept_name = "" }) (λ u. refl)
        (keep_if (λ u. not (has processed u.id)) should) i in
    ground arith

-- names and departments do not change who is in a list
fill_basic-id :
    (o : Option User) (depts : ℕ → String) (b : AttendanceUserBasic)
    → basic_id (fill_basic o depts b) ≡ basic_id b
fill_basic-id none depts b = refl
fill_basic-id (some u) depts b = refl

fill_check-id :
    (o : Option User) (depts : ℕ → String) (c : AttendanceUserCheck)
    → check_id (fill_check o depts c) ≡ check_id c
fill_check-id none depts c = refl
fill_check-id (some u) depts c = refl

fill_leave-id :
    (o : Option User) (depts : ℕ → String) (l : AttendanceUserLeave)
    → leave_id (fill_leave o depts l) ≡ leave_id l
fill_leave-id none depts l = refl
fill_leave-id (some u) depts l = refl

module _ (users : List User) (depts : ℕ → String) (lists : AttendanceUserLists) where
  basics :
      (bs : List AttendanceUserBasic) (i : ℕ)
      → holds basic_id (map (λ b. fill_basic (first_user users b.id) depts b) bs) i
        ≡ holds basic_id bs i
  basics bs i =
      holds-map basic_id basic_id _ (λ b. fill_basic-id (first_user users b.id) depts b) bs i

  checks :
      (cs : List AttendanceUserCheck) (i : ℕ)
      → holds check_id (map (λ c. fill_check (first_user users c.id) depts c) cs) i
        ≡ holds check_id cs i
  checks cs i =
      holds-map check_id check_id _ (λ c. fill_check-id (first_user users c.id) depts c) cs i

  leaves :
      (ls : List AttendanceUserLeave) (i : ℕ)
      → holds leave_id (map (λ l. fill_leave (first_user users l.id) depts l) ls) i
        ≡ holds leave_id ls i
  leaves ls i =
      holds-map leave_id leave_id _ (λ l. fill_leave-id (first_user users l.id) depts l) ls i

  pub fill_lists-Parts :
      (candidate : Bool) (i : ℕ)
      → Parts candidate lists i
      → Parts candidate (fill_lists users depts lists) i
  unfolding fill_lists
  fill_lists-Parts candidate i p =
      let should = basics lists.should_attend i in
      let on_time = checks lists.on_time i in
      let late = checks lists.late i in
      let leave = leaves lists.leave i in
      let not_arrived = basics lists.not_arrived i in
      let rest = basics lists.rest_day i in
      let course = basics lists.has_course i in
      let resting = p.resting in
      let in_course = p.in_course in
      let attending = p.attending in
      let on_leave = p.on_leave in
      let checked = p.checked in
      let missing = p.missing in
      record {
        resting = λ h. ground (arith, h);
        in_course = λ h. ground (arith, h);
        attending = ground arith;
        on_leave = λ h. ground (arith, h);
        checked = λ h. ground (arith, h);
        missing = ground arith;
      }
