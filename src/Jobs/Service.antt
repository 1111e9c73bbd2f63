-- ===== src/Jobs/Service.antt =====
-- app/jobs/service.py: queueing jobs. Each function is one transaction; the row lock that
-- `enqueue_if_idle` takes is why two of them on one source do not interleave.
pub mod OneActive
use lead_pipe.Prelude.{
  ℕ, ◌≡◌, Bool, true, false, ◌&&◌, ◌||◌, Option, none, some, List, [], ◌∷◌, ◌==◌, any,
  if◌then◌else◌,
}
use lead_pipe.Prelude.Texts.{Text}
use lead_pipe.Config.{AppConfig, SourceConfig, source_of}
use lead_pipe.Db.{Db, Source, CollectionJob, JobStatus, pending, running}
use lead_pipe.Repositories.Sources.{upsert}
use lead_pipe.Repositories.Jobs.{create}

-- `ACTIVE_STATUSES`
abbrev pub is_active : JobStatus → Bool
is_active pending = true
is_active running = true
is_active _ = false

unfoldable pub upsert_config : SourceConfig → Db → Source × Db
unfolding upsert
upsert_config c db = upsert c.name c.type c.priority c.enabled c.options db

unfoldable pub sync_all : List SourceConfig → Db → List Source × Db
sync_all [] db = ([], db)
sync_all (c ∷ cs) db =
    let (s, db') = upsert_config c db in let (rest, db'') = sync_all cs db' in (s ∷ rest, db'')

unfoldable pub sync_sources : AppConfig → Db → List Source × Db
sync_sources config db = sync_all config.sources db

abbrev create_for : ℕ → Source × Db → CollectionJob × Db
create_for now (s, db) = create s.id now db

-- `none` is the `KeyError` of an unknown source
unfoldable pub enqueue : AppConfig → Text → ℕ → Db → Option (CollectionJob × Db)
enqueue config name now db = elim (source_of config name) [
  | none ↦ none
  | some c ↦ some (create_for now (upsert_config c db))
]

unfoldable pub is_active_for : ℕ → CollectionJob → Bool
is_active_for source_id j = j.source_id == source_id && is_active j.status

abbrev pub create_if_idle : ℕ → Source × Db → Option CollectionJob × Db
create_if_idle now (s, db) =
    if any (is_active_for s.id) db.jobs.rows
    then (none, db)
    else let (job, db') = create s.id now db in (some job, db')

unfoldable pub enqueue_if_idle : AppConfig → Text → ℕ → Db → Option (Option CollectionJob × Db)
enqueue_if_idle config name now db = elim (source_of config name) [
  | none ↦ none
  | some c ↦ some (create_if_idle now (upsert_config c db))
]
