-- ===== src/Pipeline/Run/Completed.antt =====
-- The table of jobs after `run_collection` of app/pipeline/runner.py has completed.
use mathlib.Core.Path.{subst}
use lead_pipe.Prelude.{
  ℕ, ◌≡◌, ◌∙◌, refl, sym, ap, Option, none, some, arith, inl, inr, Option-cases, ◌==◌, some_eq,
  not_some,
}
use lead_pipe.Prelude.Unicode.{Unicode}
use lead_pipe.Prelude.Tables.{find, find_sound}
use lead_pipe.Prelude.Texts.{Text}
use lead_pipe.Libraries.{Phones, Emails, Urls}
use lead_pipe.Config.{AppConfig, SourceConfig, source_of}
use lead_pipe.Db.{Db, CollectionJob, completed}
use lead_pipe.Db.Tables.{Table, update_rows}
use lead_pipe.Db.Platform.{Platform}
use lead_pipe.Repositories.Jobs.{
  get, marked, finished, mark_running, mark_finished, save_results, Results,
}
use lead_pipe.Pipeline.Stats.{RunStats, no_stats, persisted}
use lead_pipe.Pipeline.Run.{
  Collection, Ending, collection_completed, run_collection, run_job, finish, Failure, source_error,
  crashed,
}
use lead_pipe.Pipeline.Run.Frame.{jobs-ingest_all}
use lead_pipe.Jobs.Service.{upsert_config}
use lead_pipe.Jobs.Service.OneActive.{jobs-upsert_config}

-- the job of a run that completed is marked running and then finished; no other job changes
abbrev pub run_of : ℕ → ℕ → Table CollectionJob → Table CollectionJob
run_of id now t =
    update_rows (λ j. j.id == id) (finished completed none now)
      (update_rows (λ j. j.id == id) (marked now) t)

-- the database of a run that completed
abbrev pub completed_db : Ending → Option Db
completed_db (collection_completed s db) = some db
completed_db _ = none

jobs-save_results : (id : ℕ) (r : Results) (db : Db) → (save_results id r db).jobs ≡ db.jobs
jobs-save_results id r db = elim (Option-cases (find (λ x. x.job_id == id) db.results.rows)) [
  | inl e ↦ unfold save_results in rw (e, save_results) refl
  | inr (old, e) ↦ unfold save_results in rw (e, save_results) refl
]

abbrev ended : ℕ → ℕ → Table CollectionJob → Table CollectionJob
ended id now t = update_rows (λ j. j.id == id) (finished completed none now) t

module _ ⦃u : Unicode⦄ ⦃p : Phones⦄ ⦃e : Emails⦄ ⦃w : Urls⦄ ⦃g : Platform⦄ where
  jobs-finish :
      (id now : ℕ) (failure : Option Failure) (s : RunStats) (db after : Db)
      → completed_db (finish id now failure (s, db)) ≡ some after
      → after.jobs ≡ ended id now db.jobs
  unfolding mark_finished
  jobs-finish id now none s db after h =
      ap (λ (d : Db). d.jobs) (sym (some_eq h))
      ∙ ap (ended id now) (jobs-save_results id (persisted s) db)
  jobs-finish id now (some (crashed e)) s db after h = absurd (not_some h)
  jobs-finish id now (some (source_error e)) s db after h = absurd (not_some h)

  jobs-run_job :
      (c : SourceConfig) (region : Option Text) (source_id : ℕ) (collection : Collection)
      (now id : ℕ) (db after : Db)
      → completed_db (run_job c region source_id collection now id db) ≡ some after
      → after.jobs ≡ run_of id now db.jobs
  unfolding mark_running
  jobs-run_job c region source_id collection now id db after h =
      jobs-finish id now collection.failure _ _ after h
      ∙ ap (ended id now) (jobs-ingest_all _ _ collection.items no_stats (mark_running id now db))

  pub jobs-run_collection :
      (config : AppConfig) (name : Text) (id : ℕ) (collection : Collection) (now : ℕ)
      (db after : Db)
      → completed_db (run_collection config name (some id) collection now db) ≡ some after
      → after.jobs ≡ run_of id now db.jobs
  unfolding run_collection
  jobs-run_collection config name id collection now db after h =
      elim (Option-cases (source_of config name)) [
        | inl x ↦ absurd (not_some (rw (x, run_collection) at h))
        | inr (c, x) ↦ elim (Option-cases (get id (upsert_config c db).1)) [
          | inl y ↦ absurd (not_some (rw (x, run_collection, y) at h))
          | inr (j, y) ↦
              let same : j.id ≡ id =
                unfold get in
                (let (m, q) = find_sound (λ k. k.id == id) (upsert_config c db).1.jobs.rows j y in
                  ground arith) in
              subst (λ k. after.jobs ≡ run_of k now db.jobs) same
                (jobs-run_job c _ _ collection now j.id (upsert_config c db).1 after
                    (rw (x, run_collection, y) at h)
                  ∙ ap (run_of j.id now) (jobs-upsert_config c db))
        ]
      ]
