-- ===== src/Tests.antt =====
-- Tests of the models on concrete inputs, and an example for each theorem that has hypotheses.
mod Jobs
mod Listings
mod Submits
mod Records
mod Pages
mod Schedules
mod Runs
mod JobRuns
mod Errors
mod Stored
