-- ===== src/Toy/Calls.antt =====
-- Eight calls of the toy runtime as one data type, and the engine that each leaves behind. The check
-- of a schedule's runs that follows a grant, submissions and the calls on schedules are left out.
pub mod Exclusive
pub mod Kept
pub mod Durability
pub mod Storing
pub mod Appends
use swf_go.Prelude.{ℕ, String, List, Option, ◌≢◌}
use swf_go.Runtime.{JobKey}
use swf_go.Sqlite.Acquire.{LeaseRequest}
use swf_go.Sqlite.Lease.{CompleteTaskRequest, RescheduleRequest}
use swf_go.Sqlite.{TaskWait}
use swf_go.Toy.{Chapter, Engine}
use swf_go.Toy.Chapters.{Services, put_chapter}
use swf_go.Toy.Leases.{
  poll_work, get_toy_lease, cancel_toy_job, keep_alive_toy, complete_lease, reschedule_lease,
  complete_task_if_waiting,
}

pub data Call : Type 0 where
  polls : LeaseRequest → (ids : ℕ → String) → ((n : ℕ) → ids n ≢ "") → ℕ → ℕ → List JobKey → Call
  leases : List String → (id : String) → id ≢ "" → ℕ → ℕ → JobKey → Call
  cancels : JobKey → ℕ → Call
  renews : JobKey → String → ℕ → ℕ → Call
  puts : JobKey → String → ℕ → Chapter → Call
  completes : JobKey → String → String → String → Chapter → ℕ → Call
  reschedules : JobKey → String → RescheduleRequest → ℕ → Call
  finishes_task : (TaskWait → String → Chapter) → JobKey → CompleteTaskRequest → Call

-- The engine after a call, also after one that failed.
unfoldable pub run : Services → (String → String) → Call → Engine → Engine
run s types (polls req ids fresh limit now keys) engine =
    (poll_work req ids limit now keys engine).0
run s types (leases caps id fresh duration now key) engine =
    (get_toy_lease caps id duration now key engine).0
run s types (cancels key now) engine = (cancel_toy_job key now engine).0
run s types (renews key id duration now) engine = (keep_alive_toy key id duration now engine).0
run s types (puts key id ordinal chapter) engine = (put_chapter s key id ordinal chapter engine).0
run s types (completes key id status detail chapter now) engine =
    (complete_lease s key id status detail chapter now engine).0
run s types (reschedules key id req now) engine = (reschedule_lease types key id req now engine).0
run s types (finishes_task make key req) engine =
    (complete_task_if_waiting s types make key req engine).0
