-- ===== src/Jobs/Worker.antt =====
-- app/jobs/worker.py: a worker's round. What happens around it is an argument: the clock, the rows that
-- are locked, what an adapter yields and the jitter. A heartbeat is before the run's first statement:
-- later ones wait for the row that the run has updated, until the job is no longer running.
pub mod Alone
pub mod Atomic
pub mod Held
pub mod Round
use lead_pipe.Prelude.{
  ℕ, ◌+◌, ◌-◌, Bool, true, false, Option, none, some, List, [], ◌∷◌, ◌++◌, ltb, if◌then◌else◌,
}
use lead_pipe.Prelude.Unicode.{Unicode}
use lead_pipe.Prelude.Decimal.{str}
use lead_pipe.Prelude.Ratios.{Ratio}
use lead_pipe.Prelude.Texts.{Text, codes}
use lead_pipe.Libraries.{Phones, Emails, Urls, Formats}
use lead_pipe.Config.{AppConfig}
use lead_pipe.Db.{Db, CollectionJob}
use lead_pipe.Db.Platform.{Platform}
use lead_pipe.Pipeline.Run.{
  Collection, Ending, unknown_source, job_not_found, collection_failed, collection_crashed,
  collection_completed, run_collection,
}
use lead_pipe.Jobs.Queue.{ClaimedJob, claim, heartbeat, fail, recover_stale}

-- what a round meets
pub record Visit : Type 0 where
  pub locked : ℕ → Bool
  pub claimed_at : ℕ
  pub beats : List ℕ
  pub collection : ClaimedJob → Collection
  pub ran_at : ℕ
  pub failed_at : ℕ
  pub jitter : Ratio

abbrev pub with_jobs : Db → List CollectionJob → Db
with_jobs db rows = record db { jobs = record db.jobs { rows = rows } }

-- `_heartbeat`, so many times
unfoldable pub heartbeats : List ℕ → ℕ → List CollectionJob → List CollectionJob
heartbeats [] id jobs = jobs
heartbeats (now ∷ beats) id jobs = heartbeats beats id (heartbeat now id jobs)

-- f"{type(exc).__name__}: {exc}" of what the run raised, if it raised
unfoldable pub raised_by : ⦃f : Formats⦄ → ClaimedJob → Ending → Option Text
raised_by ⦃f⦄ job unknown_source =
    some (codes "KeyError: " ++ f.repr (codes "unknown source: " ++ job.source_name))
raised_by job job_not_found = some (codes "SourceError: job " ++ (str job.id ++ codes " not found"))
raised_by job (collection_failed error stats db) = some (codes "SourceError: " ++ error)
raised_by job (collection_crashed error stats db) = some error
raised_by job (collection_completed stats db) = none

-- the database that `_process` commits; a session that is not committed leaves no trace
abbrev pub committed : Db → Ending → Db
committed before (collection_completed stats db) = db
committed before _ = before

module _ ⦃u : Unicode⦄ ⦃p : Phones⦄ ⦃e : Emails⦄ ⦃w : Urls⦄ ⦃g : Platform⦄ ⦃f : Formats⦄
    (config : AppConfig) where
  unfoldable pub process : ClaimedJob → Visit → Db → Ending
  process job v db =
      run_collection config job.source_name (some job.id) (v.collection job) v.ran_at db

  -- `_fail`, if there is something to report
  abbrev pub report : ClaimedJob → Visit → Option Text → Db → Db
  report job v none db = db
  report job v (some error) db = with_jobs db (fail v.failed_at v.jitter job error db.jobs.rows).1

  -- the round after its claim
  unfoldable pub work_on : ClaimedJob → Visit → Db → Db
  work_on job v db =
      let beaten = with_jobs db (heartbeats v.beats job.id db.jobs.rows) in
      let ending = process job v beaten in
      report job v (raised_by job ending) (committed beaten ending)

  -- whether there was a job, and the database
  unfoldable pub run_once : Text → Visit → Db → Bool × Db
  run_once name v db =
      let (job, rows) = claim db.sources.rows v.locked v.claimed_at name db.jobs.rows in
      elim job [
        | none ↦ (false, with_jobs db rows)
        | some c ↦ (true, work_on c v (with_jobs db rows))
      ]

-- `_maybe_recover`: the time of the last recovery by the loop's clock, and the database
unfoldable pub maybe_recover : ℕ → ℕ → ℕ → ℕ → ℕ → Db → ℕ × Db
maybe_recover recover_every stale_after loop_now now last db =
    if ltb (loop_now - last) recover_every
    then (last, db)
    else (loop_now, with_jobs db (recover_stale now stale_after db.jobs.rows).1)
