-- ===== src/Schedule.antt =====
-- The scheduling rules of pkg/jobdb: schedule_trigger.go (when a trigger fires) and the failure
-- policy of schedule.go (when a schedule is stopped).
pub mod Text
pub mod Calendar
pub mod Cron
pub mod Trigger
pub mod Failure
