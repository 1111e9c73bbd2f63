-- ===== src/Jobs/Scheduler.antt =====
-- app/jobs/scheduler.py: the schedules that are set up, and what each does when it fires. The triggers
-- are those of APScheduler.
use mathlib.Core.List.{Memᴰ}
use lead_pipe.Prelude.{
  ℕ, ◌≡◌, refl, true, false, Option, none, some, List, [], ◌∷◌, inl, inr, Option-cases,
}
use lead_pipe.Prelude.Texts.{Text, text_eq, text_eq_self}
use lead_pipe.Prelude.Tables.{select_sound, find_complete}
use lead_pipe.Config.{AppConfig, SourceConfig, names, source_of, enabled_sources, scheduled_sources}
use lead_pipe.Db.{Db, CollectionJob}
use lead_pipe.Jobs.Service.{enqueue_if_idle, create_if_idle, upsert_config}

-- `CollectionScheduler.configure`: the sources whose names the jobs of the scheduler are given
unfoldable pub configure : AppConfig → List Text
configure config = names (scheduled_sources config)

abbrev queued : Option CollectionJob → Option ℕ
queued none = none
queued (some job) = some job.id

-- the id of the new job, if there is one; `none` is the `KeyError`, and then nothing is committed
unfoldable pub fire : AppConfig → Text → ℕ → Db → Option (Option ℕ × Db)
fire config name now db = elim (enqueue_if_idle config name now db) [
  | none ↦ none
  | some (job, db') ↦ some (queued job, db')
]

named :
    (name : Text) (cs : List SourceConfig)
    → Memᴰ name (names cs)
    → (c : SourceConfig) × Memᴰ c cs × (text_eq c.name name ≡ true)
named name [] m = elim m [ ]
named name (c ∷ cs) (Memᴰ.head e) = (c, Memᴰ.head refl, rw e (text_eq_self c.name))
named name (c ∷ cs) (Memᴰ.tail m) = let (d, n, e) = named name cs m in (d, Memᴰ.tail n, e)

-- A schedule that is set up never fires for a source that is unknown: its tick ends, with a new job or
-- with none.
pub fire-known :
    (config : AppConfig) (name : Text) (now : ℕ) (db : Db)
    → Memᴰ name (configure config)
    → (r : Option ℕ × Db) × (fire config name now db ≡ some r)
unfolding fire enqueue_if_idle configure scheduled_sources enabled_sources
fire-known config name now db m =
    let (c, n, same) = named name (scheduled_sources config) m in
    let listed = (select_sound _ config.sources (select_sound _ (enabled_sources config) n).0).0 in
    elim (Option-cases (source_of config name)) [
      | inl e ↦ absurd (
          let other : text_eq c.name name ≡ false =
            unfold source_of in find_complete (λ s. text_eq s.name name) config.sources e listed in
          cc)
      | inr (d, e) ↦
          let (job, db') = create_if_idle now (upsert_config d db) in
          ((queued job, db'), rw (e, fire, enqueue_if_idle) refl)
    ]
