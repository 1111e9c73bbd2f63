-- ===== src/Pipeline/Run.antt =====
-- `run_collection` of app/pipeline/runner.py
pub mod Accounts
pub mod Frame
pub mod Completed
pub mod Counted
use lead_pipe.Prelude.{ℕ, ◌≡◌, Bool, true, false, Option, none, some, List, [], ◌∷◌, if◌then◌else◌}
use lead_pipe.Prelude.Unicode.{Unicode}
use lead_pipe.Prelude.Texts.{Text, codes}
use lead_pipe.Domain.{RawRecord}
use lead_pipe.Libraries.{Phones, Emails, Urls}
use lead_pipe.Config.{AppConfig, SourceConfig, source_of}
use lead_pipe.Db.{Db, CollectionJob, JobStatus}
use lead_pipe.Db.Platform.{Platform}
use lead_pipe.Repositories.Jobs.{get, create, mark_running, mark_finished, save_results}
use lead_pipe.Repositories.Suppressions.{SuppressionList, load}
use lead_pipe.Jobs.Service.{upsert_config}
use lead_pipe.Pipeline.Stats.{RunStats, no_stats, add_error, persisted}
use lead_pipe.Pipeline.Ingest.{Context, Outcome, ingest}

-- `CollectedItem` of app/sources/base.py: a record, or why there is none
pub data Item : Type 0 where
  collected : RawRecord → Item
  rejected : Text → Item

-- the error that ends an adapter: a `SourceError`, or any other exception
pub data Failure : Type 0 where
  source_error : Text → Failure
  crashed : Text → Failure

-- what an adapter yields, and the error that ends it, if one does
pub record Collection : Type 0 where
  pub items : List Item
  pub failure : Option Failure

pub data Ending : Type 0 where
  unknown_source : Ending
  job_not_found : Ending
  collection_failed : Text → RunStats → Db → Ending
  collection_crashed : Text → RunStats → Db → Ending
  collection_completed : RunStats → Db → Ending

module _ ⦃u : Unicode⦄ ⦃p : Phones⦄ ⦃e : Emails⦄ ⦃w : Urls⦄ ⦃g : Platform⦄ where
  -- one bad record must not end the run
  unfoldable pub ingest_item : Context → SuppressionList → Item → RunStats → Db → RunStats × Db
  ingest_item c suppressions (rejected message) stats db = (add_error stats, db)
  ingest_item c suppressions (collected raw) stats db =
      let o = ingest c suppressions raw stats db in
      (if o.raised then add_error o.stats else o.stats, o.db)

  unfoldable pub ingest_all : Context → SuppressionList → List Item → RunStats → Db → RunStats × Db
  ingest_all c suppressions [] stats db = (stats, db)
  ingest_all c suppressions (i ∷ is) stats db =
      let (stats', db') = ingest_item c suppressions i stats db in
      ingest_all c suppressions is stats' db'

  abbrev finish : ℕ → ℕ → Option Failure → RunStats × Db → Ending
  finish job_id now none (stats, db) =
      collection_completed stats (
        mark_finished job_id JobStatus.completed none now
          (save_results job_id (persisted stats) db))
  finish job_id now (some (crashed error)) (stats, db) = collection_crashed error stats db
  finish job_id now (some (source_error error)) (stats, db) = collection_failed error stats (
      mark_finished job_id JobStatus.failed (some error) now
        (save_results job_id (persisted stats) db))

  abbrev run_job : SourceConfig → Option Text → ℕ → Collection → ℕ → ℕ → Db → Ending
  run_job config region source_id collection now job_id db =
      let running = mark_running job_id now db in
      finish job_id now collection.failure (
        ingest_all
          (record {
            source_id = source_id;
            priority = config.priority;
            region = region;
            job_id = job_id;
            now = now;
          })
          (load running) collection.items no_stats running)

  -- `source_config.region or config.defaults.region`
  abbrev or_region : Option Text → Option Text → Option Text
  or_region none d = d
  or_region (some []) d = d
  or_region (some (c ∷ r)) d = some (c ∷ r)

  unfoldable pub run_collection : AppConfig → Text → Option ℕ → Collection → ℕ → Db → Ending
  run_collection config name job_id collection now db = elim (source_of config name) [
    | none ↦ unknown_source
    | some c ↦
        let (source, db') = upsert_config c db in
        let region = or_region c.region config.region in
        elim job_id [
          | none ↦
              let (job, db'') = create source.id now db' in
              run_job c region source.id collection now job.id db''
          | some id ↦ elim (get id db') [
            | none ↦ job_not_found
            | some job ↦ run_job c region source.id collection now job.id db'
          ]
        ]
  ]
