-- ===== src/Lib.antt =====
-- A model of the core of swf-go, a durable job runtime, with the properties that make it correct.
--
-- A client submits jobs to a runtime; workers poll the runtime for a job whose need they can serve,
-- get a lease on it, and complete or reschedule the job under that lease. Schedules submit jobs at
-- the times that their trigger gives. Stored chapters are read page by page.
--
-- The parts, and the code that they follow (paths from the root of the repository):
--   Prelude     shared notation, Boolean tests, results of fallible code, lists over native numbers.
--   Runtime     pkg/jobdb/types.go, jobs.go, errors.go: keys, statuses and errors.
--   Sqlite      pkg/jobdb/runtime/sqlite, the default backend. The job table is a list of rows,
--               and each transaction a function on it: scheduler.go in Sqlite (jobRow,
--               loadJobRowTx, statusFromRow, dependenciesReady, effectiveNextNeed) and
--               validateLeaseRow; the grants of runtime.go in Sqlite/Acquire (acquireOneLease,
--               GetJobLease); lease.go and the rest of runtime.go in Sqlite/Lease
--               (KeepAliveLeaseByIDWithExpiry, CompleteJobWithLeaseByID,
--               RescheduleJobWithLeaseByID, CancelJob, CompleteTaskIfWaiting); ListJobs and
--               listStoreSelection in Sqlite/Listing; SubmitJob in Sqlite/Submit, with
--               reconcileExistingSubmitJob and ensureSubmittedJobRecord; schedule.go in
--               Sqlite/Schedules (UpsertSchedule, mutateScheduleState, TriggerSchedule) and
--               schedule_preflight.go in Sqlite/Preflight, with the answer of the submission of the
--               next run as an argument. Sqlite/Lease/Step has the calls as the
--               steps of a relation, in any order and by any workers.
--   Toy         pkg/jobdb/runtime/toy/internal/toyimpl, the in-memory runtime: records and
--               advanceRecordStateLocked in Toy, PutChapter, storeRuntimeChapter and
--               ensureCompletionChapter in Toy/Chapters, the lease calls of runtime.go and
--               lease_transport.go in Toy/Leases (PollWork, GetJobLease, CancelJob, completeLease,
--               rescheduleLease, CompleteTaskIfWaiting). A call gives back the engine with its
--               result, since some calls fail after a change; Toy/Calls has eight of them as one
--               type. The check of a schedule's runs that follows a grant there is left out.
--   Workflow    pkg/workflow, the engine that runs a job's code over its stored chapters. Errors:
--               the errors of attempts, and how worker_envelope.go and pkg/jobdb/job_failed_error.go
--               store them and read them back; Policy: worker_retry.go; Await: awaitUntil and
--               checkPrerequisites of worker_runner.go; Task: DoTask, with a recorded attempt in
--               Task, and an attempt that runs, and the loop, in Task/Live. Task/Round has what a
--               round of the loop does as a relation, Task/Replay what a story records. Job: DoJob,
--               with checkCachedJobResult and the completion of the lease in Job, a round of its
--               loop in Job/Turns and what comes before the loop in Job/Start. A job's worker is a
--               program: what it returns, or a call of DoTask and how it goes on with the result.
--   Claims      pkg/jobdb/internal/leaseauth: the claims of a validated lease token.
--   Pagination  pkg/jobdb/internal/chapterstore/pagination/iterator.go: the whole iterator.
--   Schedule    pkg/jobdb/schedule_trigger.go in Schedule/Cron and Schedule/Trigger (parseCronSpec,
--               parseCronField, cronRange, NextScheduleFire, InitialScheduleFire), over what it
--               uses of Go's strings and strconv (Schedule/Text) and time (Schedule/Calendar); the
--               failure policy of pkg/jobdb/schedule.go in Schedule/Failure.
--   Tests       runs on concrete inputs, and an example for each theorem with hypotheses.
--
-- Conventions. Times are nanoseconds; a lease's expiry, the time from which a job is available and
-- that of its alternate need are stored wrapped to an int64, a negative one as a time that has passed.
-- Other clock readings that are stored are before the year 2262, where an int64 holds them. A clock reading, a fresh lease id and the answer of a
-- callback are arguments; in Workflow they are the fields of one record, Host, asked at numbered
-- ticks. Errors are values, without their texts. A NULL column or a nil pointer is `none`. A failed
-- commit or a failed statement of the database leaves the table as it was, and is left out.
--
-- Bounds and fuel. Next of the iterator calls itself after an empty page: ten rounds are enough,
-- since the tenth empty page in a row is an error. A range of a cron field is listed in at most 128
-- rounds, with the loop variable a 64-bit word that wraps around. The search for a fire time makes
-- the 366*24*60*5 rounds of the source. DoTask needs a round for each chapter that is there, one
-- for each attempt of its policy, and one more. A job's worker has fuel for a number of calls of DoTask, and
-- the loop of DoJob for a number of rounds; without enough of it there is no result.
--
-- Not modelled: what a worker still does after a timer has ended the wait for it, and a task's worker
-- that returns neither data nor an error, at which DoTask panics; the codecs and the SQL text, the SQL chapter stores and artifacts, restarts
-- of jobs, the direct and remote runtimes, the workflow engine's polling, and
-- the command line tools. Of DoTask and DoJob, what observers are told, start and end times, artifacts
-- and the computation of the input's hash.
mod Prelude
pub mod Pagination
pub mod Schedule
pub mod Runtime
pub mod Claims
pub mod Sqlite
pub mod Toy
pub mod Workflow
mod Tests
