-- ===== src/Cli.antt =====
-- app/cli.py: what the commands do to the database. What they print is the value, and what the adapters
-- collect is an argument.
pub mod Removal
use lead_pipe.Prelude.{
  ℕ, ◌*◌, ◌≡◌, refl, Bool, true, false, Option, none, some, List, [], ◌∷◌, length, ◌==◌,
  if◌then◌else◌,
}
use lead_pipe.Prelude.Unicode.{Unicode}
use lead_pipe.Prelude.Tables.{select, count}
use lead_pipe.Prelude.Texts.{Text, codes, text_eq, truthy}
use lead_pipe.Domain.{LeadFilter, ValidationStatus, valid, invalid, unknown}
use lead_pipe.Libraries.{Phones, Emails, Urls, Formats}
use lead_pipe.Config.{AppConfig, enabled_sources, names}
use lead_pipe.Db.{Db, Suppression, SuppressionKind}
use lead_pipe.Db.Platform.{Platform}
use lead_pipe.Repositories.Leads.{purge_older_than, count_older_than, delete_where}
use lead_pipe.Repositories.Leads.Pages.{count_leads}
use lead_pipe.Repositories.Suppressions.{normalize_value, add_entry, remove}
use lead_pipe.Jobs.Service.{enqueue, sync_sources}
use lead_pipe.Jobs.Worker.{Visit, run_once}
use lead_pipe.Pipeline.Stats.{RunStats}
use lead_pipe.Pipeline.Run.{Collection, Ending, collection_completed, run_collection}
use lead_pipe.Exports.{export_leads}

-- `[source] if source else [s.name for s in app_config.enabled_sources()]`
unfoldable pub collected_names : AppConfig → Option Text → List Text
collected_names config none = names (enabled_sources config)
collected_names config (some source) =
    if truthy source then source ∷ [] else names (enabled_sources config)

-- a command's result, or the error that ends it
pub data Command {ℓ} (A : Type ℓ) : Type ℓ where
  finished : A → Command A
  exited : Command A

abbrev pub before_results :
    Text × RunStats → Command (List (Text × RunStats)) → Command (List (Text × RunStats))
before_results r (finished rs) = finished (r ∷ rs)
before_results r exited = exited

module _ ⦃u : Unicode⦄ ⦃p : Phones⦄ ⦃e : Emails⦄ ⦃w : Urls⦄ ⦃g : Platform⦄ (config : AppConfig)
    (collection : Text → Collection) (now : ℕ) where
  -- after the run of a source: its session is committed, or the command ends without the commit
  abbrev after_run :
      Text
      → (Db → Command (List (Text × RunStats)) × Db)
      → Db
      → Ending
      → Command (List (Text × RunStats)) × Db
  after_run name rest db (collection_completed stats db') =
      let (results, db'') = rest db' in (before_results (name, stats) results, db'')
  after_run name rest db _ = (exited, db)

  -- `_collect_all`: a session for each source
  unfoldable pub collect_all : List Text → Db → Command (List (Text × RunStats)) × Db
  collect_all [] db = (finished [], db)
  collect_all (name ∷ rest) db =
      after_run name (collect_all rest) db
        (run_collection config name none (collection name) now db)

  -- `collect`: without a name there is nothing to do
  unfoldable pub collect : Option Text → Db → Command (List (Text × RunStats)) × Db
  collect source db = elim (collected_names config source) [
    | [] ↦ (exited, db)
    | ◌∷◌ name rest ↦ collect_all (name ∷ rest) db
  ]

-- `_run_worker` with `once`
unfoldable pub work_once :
    ⦃u : Unicode⦄ ⦃p : Phones⦄ ⦃e : Emails⦄ ⦃w : Urls⦄ ⦃g : Platform⦄ ⦃f : Formats⦄
    → AppConfig
    → Text
    → Visit
    → Db
    → Bool × Db
work_once config name v db = run_once config name v (sync_sources config db).1

-- `_enqueue`: the id of the job; `exited` is the `KeyError`
unfoldable pub enqueue_command : AppConfig → Text → ℕ → Db → Command ℕ × Db
enqueue_command config source now db = elim (enqueue config source now db) [
  | none ↦ (exited, db)
  | some (job, db') ↦ (finished job.id, db')
]

-- `days or get_settings().retention_days`
abbrev pub retention : Option ℕ → Option ℕ → Option ℕ
retention none setting = setting
retention (some n) setting = if n == 0 then setting else some n

-- a day in microseconds
abbrev days_us : ℕ → ℕ
days_us days = days * 86400000000

-- `_purge`: how many leads
unfoldable pub purge : ℕ → ℕ → Bool → Db → ℕ × Db
purge now days dry_run db =
    if dry_run
    then (count_older_than now (days_us days) db, db)
    else purge_older_than now (days_us days) db

unfoldable pub purge_command : ℕ → Option ℕ → Option ℕ → Bool → Db → Command ℕ × Db
purge_command now days setting dry_run db = elim (retention days setting) [
  | none ↦ (exited, db)
  | some n ↦ let (removed, db') = purge now n dry_run db in (finished removed, db')
]

-- `for entry in entries: await repo.remove(entry.id)`
abbrev pub remove_all : List Suppression → Db → Db
remove_all [] db = db
remove_all (s ∷ entries) db = remove_all entries (remove s.id db).1

-- what `_suppress` returns: how many entries are removed, or the value of the new one
pub data Suppressed : Type 0 where
  removed_entries : ℕ → Suppressed
  added_value : Text → Suppressed

-- `SuppressionKind(kind)`
abbrev pub kind_of : Text → Option SuppressionKind
kind_of kind =
    if text_eq kind (codes "email")
    then some SuppressionKind.email
    else if text_eq kind (codes "domain")
    then some SuppressionKind.domain
    else none

module _ ⦃u : Unicode⦄ ⦃w : Urls⦄ where
  -- `_suppress`; the order in which the entries are listed does not matter
  unfoldable pub suppress : SuppressionKind → Text → Option Text → Bool → Db → Suppressed × Db
  suppress kind value reason removing db =
      let target = normalize_value kind value in
      let entries = select (λ (s : Suppression). text_eq s.value target) db.suppressions.rows in
      let (entry, db') = add_entry kind value reason db in
      if removing
      then (removed_entries (length entries), remove_all entries db)
      else (added_value entry.value, db')

  unfoldable pub suppress_command : Text → Text → Option Text → Bool → Db → Command Suppressed × Db
  suppress_command kind value reason removing db = elim (kind_of kind) [
    | none ↦ (exited, db)
    | some k ↦ let (result, db') = suppress k value reason removing db in (finished result, db')
  ]

-- `ValidationStatus(status) if status else None`; `none` is the `ValueError`
abbrev pub status_of : Option Text → Option (Option ValidationStatus)
status_of none = some none
status_of (some s) =
    if truthy s
    then (if text_eq s (codes "valid")
        then some (some valid)
        else if text_eq s (codes "invalid")
        then some (some invalid)
        else if text_eq s (codes "unknown")
        then some (some unknown)
        else none)
    else some none

-- `export` with `_export`: the number of the leads and the chunks
unfoldable pub export :
    ⦃u : Unicode⦄ ⦃g : Platform⦄ ⦃f : Formats⦄
    → ℕ
    → Text
    → LeadFilter
    → Option Text
    → Db
    → Command (ℕ × List Text)
export pages format filters status db = elim (status_of status) [
  | none ↦ exited
  | some s ↦
      let asked = record filters { validation_status = s } in
      elim (export_leads pages format asked 500 db) [
        | none ↦ exited
        | some (chunks, whole) ↦ finished (count_leads asked db, chunks)
      ]
]
