-- ===== src/Workflow/Errors.antt =====
-- The errors of task and job attempts: errors.go, timeout.go and job_failed_error.go of pkg/jobdb,
-- and how worker_envelope.go of pkg/workflow stores them in a chapter. A Go error is the list of the
-- links that errors.Unwrap gives, the outermost first; errors.Join is left out. The input reference,
-- which storing overwrites, and stack traces are left out, and so are a user's attributes that have
-- a key of the marker itself.
pub mod Stored
use Prim.Native.String
use swf_go.Prelude.{
  ℕ, Bool, true, false, not, ◌&&◌, ◌||◌, String, Option, none, some, List, [], ◌∷◌, str_eq,
  if◌then◌else◌,
}

-- TimeoutPayload; `after` is in nanoseconds.
pub record TimeoutPayload : Type 0 where
  pub scope : String
  pub after : ℕ
  pub retryable : Bool
  pub kind : String
  pub component : String
  pub code : String
  pub message : String

pub record SystemErrorPayload : Type 0 where
  pub message : String
  pub component : String
  pub code : String
  pub retryable : Bool

-- The entries under the keys jobFailed...AttrKey of a payload's attributes: none, or of this kind.
pub data JobFailedMark : Type 0 where
  timeout_mark : TimeoutPayload → JobFailedMark
  system_mark : SystemErrorPayload → JobFailedMark
  app_mark plain_mark : JobFailedMark

pub record AppErrorPayload : Type 0 where
  pub message : String
  pub level : String
  pub attrs : List (String × String)
  pub mark : Option JobFailedMark

-- Any other error type: its two names by package reflect, its text, the answer of its method
-- NonRetryable if it has one, and whether it is ErrJobFailed, or a cancellation.
pub record OtherError : Type 0 where
  pub name : String
  pub full_name : String
  pub message : String
  pub non_retryable : Option Bool
  pub is_job_failed : Bool
  pub is_cancelled : Bool

pub data Link : Type 0 where
  timeout_error : TimeoutPayload → Link
  system_error : SystemErrorPayload → Link
  app_error : AppErrorPayload → Link
  job_failed_error : Link
  other_link : OtherError → Link

abbrev pub Chain : Type 0
Chain = List Link

-- errors.As for the types TimeoutError, SystemError and AppError
unfoldable pub as_timeout : Chain → Option TimeoutPayload
as_timeout [] = none
as_timeout (timeout_error t ∷ links) = some t
as_timeout (system_error s ∷ links) = as_timeout links
as_timeout (app_error a ∷ links) = as_timeout links
as_timeout (job_failed_error ∷ links) = as_timeout links
as_timeout (other_link o ∷ links) = as_timeout links

unfoldable pub as_system : Chain → Option SystemErrorPayload
as_system [] = none
as_system (timeout_error t ∷ links) = as_system links
as_system (system_error s ∷ links) = some s
as_system (app_error a ∷ links) = as_system links
as_system (job_failed_error ∷ links) = as_system links
as_system (other_link o ∷ links) = as_system links

unfoldable pub as_app : Chain → Option AppErrorPayload
as_app [] = none
as_app (timeout_error t ∷ links) = as_app links
as_app (system_error s ∷ links) = as_app links
as_app (app_error a ∷ links) = some a
as_app (job_failed_error ∷ links) = as_app links
as_app (other_link o ∷ links) = as_app links

-- errors.As for the type *JobFailedError: its cause.
unfoldable pub as_job_failed : Chain → Option Chain
as_job_failed [] = none
as_job_failed (timeout_error t ∷ links) = as_job_failed links
as_job_failed (system_error s ∷ links) = as_job_failed links
as_job_failed (app_error a ∷ links) = as_job_failed links
as_job_failed (job_failed_error ∷ links) = some links
as_job_failed (other_link o ∷ links) = as_job_failed links

abbrev pub marks_job_failed : Link → Bool
marks_job_failed (timeout_error t) = false
marks_job_failed (system_error s) = false
marks_job_failed (app_error a) = false
marks_job_failed job_failed_error = true
marks_job_failed (other_link o) = o.is_job_failed

-- errors.Is(err, ErrJobFailed)
unfoldable pub is_job_failed : Chain → Bool
is_job_failed [] = false
is_job_failed (link ∷ links) = marks_job_failed link || is_job_failed links

-- TimeoutError.Error
abbrev timeout_text : TimeoutPayload → String
timeout_text t = if str_eq t.message "" then "timeout exceeded" else t.message

abbrev has_job_failed : Chain → Bool
has_job_failed links = elim (as_job_failed links) [ none ↦ false | some cause ↦ true ]

abbrev job_failed_text : Chain → String → String
job_failed_text [] text = "job failed"
job_failed_text (link ∷ links) text =
    if has_job_failed (link ∷ links) then text else String.◌++◌ "job failed: " text

-- err.Error()
unfoldable pub error_text : Chain → String
error_text [] = ""
error_text (timeout_error t ∷ links) = timeout_text t
error_text (system_error s ∷ links) = s.message
error_text (app_error a ∷ links) = a.message
error_text (job_failed_error ∷ links) = job_failed_text links (error_text links)
error_text (other_link o ∷ links) = o.message

-- strings.TrimPrefix
unfoldable pub trim_prefix : String → String → String → String
trim_prefix whole String.[] text = text
trim_prefix whole (String.◌∷◌ p prefix) String.[] = whole
trim_prefix whole (String.◌∷◌ p prefix) (String.◌∷◌ c text) =
    let rest : String = trim_prefix whole prefix text in
    if str_eq (String.◌∷◌ p String.[]) (String.◌∷◌ c String.[]) then rest else whole

-- A payload as it is stored, with its kind.
pub data StoredError : Type 0 where
  stored_timeout : TimeoutPayload → StoredError
  stored_system : SystemErrorPayload → StoredError
  stored_app : AppErrorPayload → StoredError

abbrev marked : String → String → List (String × String) → JobFailedMark → AppErrorPayload
marked message level attrs mark = record {
  message = message;
  level = level;
  attrs = attrs;
  mark = some mark;
}

abbrev app_cause : Chain → Option AppErrorPayload → AppErrorPayload
app_cause cause (some a) = marked a.message a.level a.attrs app_mark
app_cause cause none = marked (error_text cause) "error" [] plain_mark

abbrev system_cause : Chain → Option SystemErrorPayload → AppErrorPayload
system_cause cause (some s) = marked s.message "error" [] (system_mark s)
system_cause cause none = app_cause cause (as_app cause)

abbrev timeout_cause : Chain → Option TimeoutPayload → AppErrorPayload
timeout_cause cause (some t) = marked t.message "error" [] (timeout_mark t)
timeout_cause cause none = system_cause cause (as_system cause)

-- encodeJobFailedCause
unfoldable pub encode_job_failed_cause : Chain → AppErrorPayload
encode_job_failed_cause cause = timeout_cause cause (as_timeout cause)

abbrev pub encode_job_failed : Chain → Option Chain → AppErrorPayload
encode_job_failed err (some (link ∷ links)) = encode_job_failed_cause (link ∷ links)
encode_job_failed err (some []) =
    marked (trim_prefix (error_text err) "job failed: " (error_text err)) "error" [] plain_mark
encode_job_failed err none =
    marked (trim_prefix (error_text err) "job failed: " (error_text err)) "error" [] plain_mark

abbrev pub encode_app : Chain → Option AppErrorPayload → StoredError
encode_app err (some a) = stored_app a
encode_app err none =
    stored_app (record { message = error_text err; level = "error"; attrs = []; mark = none })

abbrev pub encode_system : Chain → Option SystemErrorPayload → StoredError
encode_system err (some s) = stored_system s
encode_system err none = encode_app err (as_app err)

abbrev pub encode_timeout : Chain → Option TimeoutPayload → StoredError
encode_timeout err (some t) = stored_timeout t
encode_timeout err none = encode_system err (as_system err)

-- errorPayloadFromError
unfoldable pub error_payload : Chain → StoredError
error_payload err =
    if is_job_failed err
    then stored_app (encode_job_failed err (as_job_failed err))
    else encode_timeout err (as_timeout err)

abbrev plain_app : AppErrorPayload → Link
plain_app a = app_error (record a { mark = none })

-- decodeJobFailedAppError
unfoldable pub decode_app : AppErrorPayload → Option JobFailedMark → Chain
decode_app a none = app_error a ∷ []
decode_app a (some (timeout_mark t)) =
    job_failed_error ∷ timeout_error (record t { message = a.message; kind = "" }) ∷ []
decode_app a (some (system_mark s)) =
    job_failed_error ∷ system_error (record s { message = a.message }) ∷ []
decode_app a (some app_mark) = job_failed_error ∷ plain_app a ∷ []
decode_app a (some plain_mark) = job_failed_error ∷ plain_app a ∷ []

-- The error that chapterToTaskData gives for a stored one.
unfoldable pub stored_error : StoredError → Chain
stored_error (stored_timeout t) = timeout_error t ∷ []
stored_error (stored_system s) = system_error s ∷ []
stored_error (stored_app a) = decode_app a a.mark

-- t.Name() == typeName || t.String() == typeName
abbrev pub is_named : String → Link → Bool
is_named name (timeout_error t) = str_eq "TimeoutError" name || str_eq "jobdb.TimeoutError" name
is_named name (system_error s) = str_eq "SystemError" name || str_eq "jobdb.SystemError" name
is_named name (app_error a) = str_eq "AppError" name || str_eq "jobdb.AppError" name
is_named name job_failed_error = str_eq "JobFailedError" name || str_eq "jobdb.JobFailedError" name
is_named name (other_link o) = str_eq o.name name || str_eq o.full_name name

-- errorMatchesTypeName
unfoldable pub error_matches_type_name : Chain → String → Bool
error_matches_type_name [] name = false
error_matches_type_name (link ∷ links) name =
    if is_named name link then true else error_matches_type_name links name

unfoldable pub matches_any_name : Chain → List String → Bool
matches_any_name err [] = false
matches_any_name err (name ∷ names) =
    if error_matches_type_name err name then true else matches_any_name err names

abbrev method_or : Option Bool → Bool → Bool
method_or none rest = rest
method_or (some answer) rest = answer

-- `errors.As(err, &nr) && nr.NonRetryable()`
unfoldable pub non_retryable : Chain → Bool
non_retryable [] = false
non_retryable (timeout_error t ∷ links) = non_retryable links
non_retryable (system_error s ∷ links) = non_retryable links
non_retryable (app_error a ∷ links) = non_retryable links
non_retryable (job_failed_error ∷ links) = non_retryable links
non_retryable (other_link o ∷ links) = method_or o.non_retryable (non_retryable links)

abbrev pub retryable_or : Option TimeoutPayload → Bool → Bool
retryable_or (some t) rest = t.retryable
retryable_or none rest = rest

-- isRetryable of an error that is there
unfoldable pub is_retryable : List String → Chain → Bool
is_retryable names err =
    retryable_or (as_timeout err) (not (non_retryable err) && not (matches_any_name err names))

abbrev pub cancels : Link → Bool
cancels (other_link o) = o.is_cancelled
cancels _ = false

unfoldable pub is_cancelled : Chain → Bool
is_cancelled [] = false
is_cancelled (link ∷ links) = cancels link || is_cancelled links

abbrev app_status : Option AppErrorPayload → String
app_status (some a) = "failed_app"
app_status none = "failed_system"

abbrev timeout_status : Option TimeoutPayload → Option AppErrorPayload → String
timeout_status (some t) app = "failed_timeout"
timeout_status none app = app_status app

-- The status of completionStatusAndDetail; no error is a success.
unfoldable pub completion_status : Option Chain → String
completion_status none = "success"
completion_status (some err) =
    if is_cancelled err then "cancelled" else timeout_status (as_timeout err) (as_app err)
