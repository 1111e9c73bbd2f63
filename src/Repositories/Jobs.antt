-- ===== src/Repositories/Jobs.antt =====
-- app/repositories/jobs.py
use lead_pipe.Prelude.{
  ℕ, Bool, true, false, ◌&&◌, Option, none, some, List, [], ◌∷◌, ◌==◌, ltb, take,
}
use lead_pipe.Prelude.Orders.{ascending, reversed, sort_by}
use lead_pipe.Prelude.Texts.{Text, text_eq}
use lead_pipe.Prelude.Tables.{select, find}
use lead_pipe.Db.{
  Db, CollectionJob, CollectionJobResult, JobStatus, pending, running, completed, failed, cancelled,
}
use lead_pipe.Db.Tables.{add, update_rows}

unfoldable pub get : ℕ → Db → Option CollectionJob
get id db = find (λ j. j.id == id) db.jobs.rows

-- the columns' defaults: no attempt of three, and no time but the row's own
abbrev pub new_job : ℕ → ℕ → ℕ → CollectionJob
new_job source_id now id = record {
  id = id;
  source_id = source_id;
  status = pending;
  error = none;
  started_at = none;
  finished_at = none;
  attempts = 0;
  max_attempts = 3;
  heartbeat_at = none;
  run_after = none;
  claimed_by = none;
  created_at = now;
}

unfoldable pub create : ℕ → ℕ → Db → CollectionJob × Db
create source_id now db = (
  new_job source_id now db.jobs.next_id,
  record db { jobs = add (new_job source_id now) db.jobs },
)

-- the assignments of `mark_running`
abbrev pub marked : ℕ → CollectionJob → CollectionJob
marked now j = record j { status = running; started_at = some now }

unfoldable pub mark_running : ℕ → ℕ → Db → Db
mark_running id now db = record db { jobs = update_rows (λ j. j.id == id) (marked now) db.jobs }

-- the assignments of `mark_finished`
abbrev pub finished : JobStatus → Option Text → ℕ → CollectionJob → CollectionJob
finished status error now j = record j { status = status; error = error; finished_at = some now }

unfoldable pub mark_finished : ℕ → JobStatus → Option Text → ℕ → Db → Db
mark_finished id status error now db = record db {
  jobs = update_rows (λ j. j.id == id) (finished status error now) db.jobs;
}

-- the counters that a run persists
pub record Results : Type 0 where
  pub collected : ℕ
  pub valid : ℕ
  pub invalid : ℕ
  pub duplicates : ℕ
  pub new_leads : ℕ
  pub errors : ℕ
  pub suppressed : ℕ

abbrev result_row : ℕ → Results → ℕ → CollectionJobResult
result_row job_id r id = record {
  id = id;
  job_id = job_id;
  collected = r.collected;
  valid = r.valid;
  invalid = r.invalid;
  duplicates = r.duplicates;
  new_leads = r.new_leads;
  errors = r.errors;
  suppressed = r.suppressed;
}

unfoldable pub save_results : ℕ → Results → Db → Db
save_results job_id r db = elim (find (λ x. x.job_id == job_id) db.results.rows) [
  | none ↦ record db { results = add (result_row job_id r) db.results }
  | some old ↦ record db {
    results = update_rows (λ x. x.id == old.id) (λ x. result_row job_id r x.id) db.results;
  }
]

-- `ORDER BY id DESC`
abbrev newest_first : List CollectionJob → List CollectionJob
newest_first = sort_by (reversed ascending) (λ j. j.id)

unfoldable pub list_for_source : ℕ → Db → List CollectionJob
list_for_source source_id db = newest_first (select (λ j. j.source_id == source_id) db.jobs.rows)

-- a job with the name of its source, and its results if there are any
pub record JobRow : Type 0 where
  pub job : CollectionJob
  pub source : Text
  pub result : Option CollectionJobResult

-- the join with the sources and the results; a job has one row of results at most
unfoldable pub job_rows : Db → List CollectionJob → List JobRow
job_rows db [] = []
job_rows db (j ∷ js) =
    let rest = job_rows db js in
    elim (find (λ s. s.id == j.source_id) db.sources.rows) [
      | none ↦ rest
      | some s ↦
          record { job = j; source = s.name; result = find (λ r. r.job_id == j.id) db.results.rows }
          ∷ rest
    ]

abbrev pub same_status : JobStatus → JobStatus → Bool
same_status pending pending = true
same_status running running = true
same_status completed completed = true
same_status failed failed = true
same_status cancelled cancelled = true
same_status _ _ = false

abbrev if_given {ℓ} : {A : Type ℓ} → Option A → (A → Bool) → Bool
if_given none p = true
if_given (some a) p = p a

-- the conditions of `page`
abbrev pub on_page : Option ℕ → Option JobStatus → Option Text → JobRow → Bool
on_page before_id status source row =
    if_given before_id (λ b. ltb row.job.id b)
    && if_given status (λ s. same_status row.job.status s)
    && if_given source (λ n. text_eq row.source n)

unfoldable pub page : ℕ → Option ℕ → Option JobStatus → Option Text → Db → List JobRow
page limit before_id status source db =
    take limit (select (on_page before_id status source) (job_rows db (newest_first db.jobs.rows)))

unfoldable pub detail : ℕ → Db → Option JobRow
detail id db = find (λ row. row.job.id == id) (job_rows db db.jobs.rows)
