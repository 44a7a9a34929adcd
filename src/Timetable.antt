-- ===== src/Timetable.antt =====
-- pkg/weekutil and pkg/scheduleparse: the weeks of a course.
pub mod WeekList
pub mod Weeks
