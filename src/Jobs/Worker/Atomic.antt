-- ===== src/Jobs/Worker/Atomic.antt =====
-- `_process` of app/jobs/worker.py: one transaction, which a raised exception rolls back.
use lead_pipe.Prelude.{◌≡◌, refl, some, not_some}
use lead_pipe.Prelude.Unicode.{Unicode}
use lead_pipe.Prelude.Texts.{Text}
use lead_pipe.Libraries.{Phones, Emails, Urls, Formats}
use lead_pipe.Config.{AppConfig}
use lead_pipe.Db.{Db}
use lead_pipe.Db.Platform.{Platform}
use lead_pipe.Pipeline.Run.{
  Ending, unknown_source, job_not_found, collection_failed, collection_crashed,
  collection_completed,
}
use lead_pipe.Jobs.Queue.{ClaimedJob, claim, fail}
use lead_pipe.Jobs.Worker.{
  Visit, with_jobs, heartbeats, raised_by, committed, process, work_on, run_once,
}

-- what is in the database besides the jobs is the same
pub record IsSameData (db after : Db) : Type 0 where
  pub sources : after.sources ≡ db.sources
  pub results : after.results ≡ db.results
  pub records : after.records ≡ db.records
  pub leads : after.leads ≡ db.leads
  pub merges : after.merges ≡ db.merges
  pub suppressions : after.suppressions ≡ db.suppressions

module _ ⦃u : Unicode⦄ ⦃p : Phones⦄ ⦃e : Emails⦄ ⦃w : Urls⦄ ⦃g : Platform⦄ ⦃f : Formats⦄
    (config : AppConfig) where
  -- the database that a round works on, once it has claimed its job
  abbrev pub beaten : ClaimedJob → Text → Visit → Db → Db
  beaten c name v db =
      with_jobs db
        (heartbeats v.beats c.id (claim db.sources.rows v.locked v.claimed_at name db.jobs.rows).1)

  committed-before :
      (c : ClaimedJob) (before : Db) (ending : Ending) {error : Text}
      → raised_by c ending ≡ some error
      → committed before ending ≡ before
  unfolding raised_by
  committed-before c before unknown_source h = refl
  committed-before c before job_not_found h = refl
  committed-before c before (collection_failed error s db) h = refl
  committed-before c before (collection_crashed error s db) h = refl
  committed-before c before (collection_completed s db) h = absurd (not_some h)

  abbrev FailedAt : ClaimedJob → Visit → Text → Db → Db → Type 0
  FailedAt c v error db after =
      (after.jobs.rows ≡ (fail v.failed_at v.jitter c error db.jobs.rows).1) × IsSameData db after

  work_on-rollback :
      (c : ClaimedJob) (v : Visit) (db : Db) (error : Text)
      → raised_by c (process config c v (with_jobs db (heartbeats v.beats c.id db.jobs.rows)))
        ≡ some error
      → FailedAt c v error
          (with_jobs db (heartbeats v.beats c.id db.jobs.rows))
          (work_on config c v db)
  unfolding work_on
  work_on-rollback c v db error raises =
      rw (raises, committed-before c _ _ raises)
        (
          refl,
          record {
            sources = refl;
            results = refl;
            records = refl;
            leads = refl;
            merges = refl;
            suppressions = refl;
          },
        )

  -- When the run of the claimed job raises an error, whatever it had done before: the round ends with
  -- the failure of the job as the only change after the claim and its heartbeats, and all that is
  -- collected is as it was before the round.
  pub run_once-rollback :
      (name : Text) (v : Visit) (db : Db) (c : ClaimedJob) (error : Text)
      → (claim db.sources.rows v.locked v.claimed_at name db.jobs.rows).0 ≡ some c
      → raised_by c (process config c v (beaten c name v db)) ≡ some error
      → ((run_once config name v db).1.jobs.rows
          ≡ (fail v.failed_at v.jitter c error (beaten c name v db).jobs.rows).1)
        × IsSameData db (run_once config name v db).1
  unfolding run_once
  run_once-rollback name v db c error claims raises =
      let rows = (claim db.sources.rows v.locked v.claimed_at name db.jobs.rows).1 in
      let done = work_on-rollback c v (with_jobs db rows) error raises in
      rw (claims, run_once)
        (
          done.0,
          record {
            sources = done.1.sources;
            results = done.1.results;
            records = done.1.records;
            leads = done.1.leads;
            merges = done.1.merges;
            suppressions = done.1.suppressions;
          },
        )
