-- ===== src/Workflow/Await.antt =====
-- The world around a run of worker_runner.go of pkg/workflow, and its waits: awaitUntil and
-- checkPrerequisites. A time is in nanoseconds; a deadline that is the zero time is none. Each
-- question to the world is asked at a tick of its own, and the answers are arbitrary functions of it.
pub mod Prerequisites
use swf_go.Prelude.{
  ℕ, suc, ◌+◌, ◌-◌, ◌*◌, Bool, true, false, not, ◌&&◌, String, Option, none, some, List, [], ◌∷◌,
  ltb, leb, ◌==◌, if◌then◌else◌,
}
use swf_go.Workflow.Errors.{TimeoutPayload, AppErrorPayload, Link, app_error, other_link, Chain}

-- The answer of the lease's Reschedule.
pub data Rescheduled : Type 0 where
  accepted lease_lost : Rescheduled
  refused : String → Rescheduled

-- What the goroutine of an attempt sends: the worker's error (a panic is one); the data of its
-- output; or an output whose data or artifacts cannot be read. A worker that returns neither an
-- output nor an error, at which DoTask panics, is left out.
pub data Attempt : Type 0 where
  failed : Chain → Attempt
  produced unreadable : String → Attempt

-- What arrives at the select: a result, or the closing of exitCh.
pub data Arrival : Type 0 where
  finished : Attempt → Arrival
  exited : Arrival

-- What GetJob says of a prerequisite: an error; or the job's state, with the error of its data if
-- that is exposed.
pub data JobAnswer : Type 0 where
  unknown_job : Chain → JobAnswer
  known_job : (completed : Bool) (exposed : Option (Option Chain)) → JobAnswer

pub record Host : Type 0 where
  pub now : ℕ → ℕ
  pub replay : Bool
  pub has_lease : Bool
  pub await_threshold : ℕ
  pub reschedule : ℕ → Rescheduled
  pub is_done : ℕ → Bool
  pub has_worker : Bool
  pub timer_first : ℕ → Bool
  pub arrival : ℕ → Arrival
  pub read_error : ℕ → Option String
  pub put_error : ℕ → Option String
  pub job : ℕ → String → JobAnswer
  pub timeout_text : String → String → ℕ → String

-- NewTimeoutError; its message is the host's text.
abbrev pub new_timeout : Host → String → ℕ → String → String → Bool → TimeoutPayload
new_timeout host kind after scope code retryable = record {
  scope = scope;
  after = after;
  retryable = retryable;
  kind = kind;
  component = "runner";
  code = code;
  message = host.timeout_text kind scope after;
}

abbrev pub total_timeout_error : Host → String → ℕ → TimeoutPayload
total_timeout_error host kind limit = new_timeout host kind limit "total" "timeout_total" false

abbrev pub invocation_timeout_error : Host → String → ℕ → TimeoutPayload
invocation_timeout_error host kind limit =
    new_timeout host kind limit "invocation" "timeout_invocation" true

-- `!deadline.IsZero() && now.After(deadline)`
abbrev pub past : ℕ → Option ℕ → Bool
past now none = false
past now (some deadline) = ltb deadline now

-- `now.After(deadline) || now.Equal(deadline)`
abbrev pub reached : ℕ → Option ℕ → Bool
reached now none = false
reached now (some deadline) = leb deadline now

-- `if !deadline.IsZero() && wakeAt.After(deadline) { wakeAt = deadline }`
abbrev pub no_later : ℕ → Option ℕ → ℕ
no_later wake none = wake
no_later wake (some deadline) = if ltb deadline wake then deadline else wake

abbrev threshold : Host → ℕ
threshold host = if host.await_threshold == 0 then 300000000000 else host.await_threshold

-- The parameters of awaitUntil, less the references that only its errors show.
pub record Wait : Type 0 where
  pub wake : ℕ
  pub kind : String
  pub invocation_deadline : Option ℕ
  pub total_deadline : Option ℕ
  pub invocation_limit : ℕ
  pub total_limit : ℕ

-- How a wait ends; `leaves` is prematureCloseOut, which ends the goroutine.
pub data Awaited : Type 0 where
  ready : Awaited
  expired : TimeoutPayload → Awaited
  not_ready : Awaited
  reschedule_refused : String → Awaited
  done : Awaited
  leaves : Awaited

abbrev pub handed_over : Rescheduled → Awaited
handed_over accepted = leaves
handed_over lease_lost = leaves
handed_over (refused message) = reschedule_refused message

-- The two tests after the timer.
abbrev woken : Host → Wait → ℕ → Awaited
woken host w now =
    if reached now w.total_deadline
    then expired (total_timeout_error host w.kind w.total_limit)
    else if reached now w.invocation_deadline
    then expired (invocation_timeout_error host w.kind w.invocation_limit)
    else ready

-- From the test of wakeAt on.
abbrev sleep : Host → Wait → ℕ → ℕ → ℕ → Awaited
sleep host w tick now wake =
    if not (ltb now wake)
    then ready
    else if host.replay
    then not_ready
    else if host.has_lease && ltb (threshold host) (wake - host.now (tick + 1))
    then handed_over (host.reschedule (tick + 2))
    else if host.is_done (tick + 3)
    then done
    else woken host w (host.now (tick + 4))

-- awaitUntil, with the readings and calls at the ticks from `tick` to `tick + 4`.
unfoldable pub await_until : Host → Wait → ℕ → Awaited
await_until host w tick =
    let now : ℕ = host.now tick in
    if past now w.total_deadline
    then expired (total_timeout_error host w.kind w.total_limit)
    else if past now w.invocation_deadline
    then expired (invocation_timeout_error host w.kind w.invocation_limit)
    else sleep host w tick now (no_later (no_later w.wake w.total_deadline) w.invocation_deadline)

-- A job's prerequisite; `of_success` is the condition JobPrereqSuccess.
pub record Prerequisite : Type 0 where
  pub job_id : String
  pub of_success : Bool

abbrev plain_app_error : String → Link
plain_app_error text =
    app_error (record { message = text; level = "error"; attrs = []; mark = none })

-- newPrereqFailedError; its text is taken less the job's id and the text of the job's own error.
abbrev pub prerequisite_failed : String → Chain
prerequisite_failed text =
    other_link (record {
      name = "prereqFailedError";
      full_name = "workflow.prereqFailedError";
      message = text;
      non_retryable = some true;
      is_job_failed = false;
      is_cancelled = false;
    })
    ∷ plain_app_error text
    ∷ []

abbrev pub exposed_error : Option (Option Chain) → Option Chain
exposed_error none = some (prerequisite_failed "did not expose result data")
exposed_error (some none) = none
exposed_error (some (some err)) = some (prerequisite_failed "did not succeed")

-- The error of one prerequisite in the loop of checkPrerequisites.
abbrev pub prerequisite_error : JobAnswer → Option Chain
prerequisite_error (unknown_job err) = some err
prerequisite_error (known_job completed exposed) =
    if not completed then some (prerequisite_failed "not completed") else exposed_error exposed

abbrev pub or_error : Option Chain → Option Chain → Option Chain
or_error none rest = rest
or_error (some err) rest = some err

-- checkPrerequisites
unfoldable pub check_prerequisites : (String → JobAnswer) → List Prerequisite → Option Chain
check_prerequisites job [] = none
check_prerequisites job (p ∷ ps) =
    let rest : Option Chain = check_prerequisites job ps in
    if not p.of_success then rest else or_error (prerequisite_error (job p.job_id)) rest
