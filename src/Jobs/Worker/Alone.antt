-- ===== src/Jobs/Worker/Alone.antt =====
-- A worker that works alone (app/jobs/worker.py), with the schedules that it fires: what holds after any
-- sequence of its rounds, of its recoveries and of the ticks. A round ends, by a return or an error; a
-- process that is killed in the middle of one is not among them.
use native.Mathlib.Nat.{le_trans, le_refl}
use lead_pipe.Prelude.{
  ℕ, ◌-◌, ◌≤◌, ◌≡◌, refl, sym, Bool, false, ◌&&◌, Option, some, List, [], ◌∷◌, arith, inl, inr,
  Option-cases, Bool-cases, All-append, ltb, any, some_eq,
}
use mathlib.Core.Path.{subst}
use lead_pipe.Prelude.Unicode.{Unicode}
use lead_pipe.Prelude.Texts.{Text, codes}
use lead_pipe.Prelude.Tables.{update}
use lead_pipe.Libraries.{Phones, Emails, Urls, Formats}
use lead_pipe.Config.{AppConfig, source_of}
use lead_pipe.Db.{Db, Source, CollectionJob, empty_db}
use lead_pipe.Db.Platform.{Platform}
use lead_pipe.Repositories.Jobs.{create}
use lead_pipe.Jobs.Queue.{recover_stale, stale, exhausted, give_up, requeue, is_running}
use lead_pipe.Jobs.Queue.Lifecycle.{Jobs, Inv}
use lead_pipe.Jobs.Service.{enqueue_if_idle, create_if_idle, upsert_config, is_active_for}
use lead_pipe.Jobs.Service.OneActive.{
  OneActive, active, active-Work, tick-OneActive, jobs-upsert_config, Run-OneActive, start_up,
}
use lead_pipe.Jobs.Worker.{Visit, run_once, maybe_recover}
use lead_pipe.Jobs.Worker.Held.{IsIdle}
use lead_pipe.Jobs.Worker.Round.{Works, no_more, more, Works-Inv, run_once-IsRound}

pub record IsAtRest (t : Jobs) : Type 0 where
  pub one_active : OneActive t
  pub idle : IsIdle t.rows

active-Works : (id : ℕ) {t u : Jobs} → Inv t → Works t u → active id u ≤ active id t
active-Works id h no_more = le_refl _
active-Works id h (more ws w) = le_trans (active-Work id (Works-Inv ws h) w) (active-Works id h ws)

create_if_idle-IsIdle :
    (now : ℕ) (s : Source) (db : Db)
    → IsIdle db.jobs.rows
    → IsIdle (create_if_idle now (s, db)).1.jobs.rows
unfolding create
create_if_idle-IsIdle now s db h = elim (Bool-cases (any (is_active_for s.id) db.jobs.rows)) [
  | inl e ↦ rw e h
  | inr e ↦ rw e (All-append (λ j. is_running j.status ≡ false) db.jobs.rows _ h (refl, tt))
]

tick-IsIdle :
    (config : AppConfig) (name : Text) (now : ℕ) (db : Db) {r : Option CollectionJob} {db' : Db}
    → enqueue_if_idle config name now db ≡ some (r, db')
    → IsIdle db.jobs.rows
    → IsIdle db'.jobs.rows
unfolding enqueue_if_idle
tick-IsIdle config name now db {r} {db'} e h = elim (Option-cases (source_of config name)) [
  | inl none_such ↦ absurd (ground arith)
  | inr (c, found) ↦
      let (s, after) = upsert_config c db in
      subst (λ p. IsIdle p.1.jobs.rows)
        (let q : create_if_idle now (upsert_config c db) ≡ (r, db') =
            some_eq (rw (found, enqueue_if_idle) at e) in
          q)
        (create_if_idle-IsIdle now s after (rw jobs-upsert_config h))
]

update-idle :
    (p : CollectionJob → Bool) (f : CollectionJob → CollectionJob) (rows : List CollectionJob)
    → ((j : CollectionJob) → is_running j.status ≡ false → p j ≡ false)
    → IsIdle rows
    → update p f rows ≡ rows
unfolding update
update-idle p f [] h i = refl
update-idle p f (j ∷ js) h i = rw (h j i.0, update-idle p f js h i.1) refl

-- where no job is running, a recovery changes nothing
pub recover_stale-idle :
    (now stale_after : ℕ) (rows : List CollectionJob)
    → IsIdle rows
    → (recover_stale now stale_after rows).1 ≡ rows
unfolding recover_stale stale
recover_stale-idle now stale_after rows h =
    let quiet =
      λ (p : CollectionJob → Bool) (f : CollectionJob → CollectionJob)
          (no : (j : CollectionJob) → is_running j.status ≡ false → p j ≡ false).
        update-idle p f rows no h in
    let first =
      quiet (λ j. stale now stale_after j && exhausted j)
        (give_up now (codes "worker stopped responding")) (λ j r. rw r refl) in
    rw first (quiet (stale now stale_after) requeue (λ j r. rw r refl))

module _ ⦃u : Unicode⦄ ⦃p : Phones⦄ ⦃e : Emails⦄ ⦃w : Urls⦄ ⦃g : Platform⦄ ⦃f : Formats⦄
    (config : AppConfig) where
  -- What a worker that works alone can come to, from an empty database.
  pub data Alone : Db → Type 0 where
    start : Alone empty_db
    fire :
        {db : Db} (name : Text) (now : ℕ) {r : Option CollectionJob} {db' : Db}
        → Alone db
        → enqueue_if_idle config name now db ≡ some (r, db')
        → Alone db'
    round : {db : Db} (name : Text) (v : Visit) → Alone db → Alone (run_once config name v db).1
    recovery :
        {db : Db} (recover_every stale_after loop_now now last : ℕ)
        → Alone db
        → Alone (maybe_recover recover_every stale_after loop_now now last db).1

  round-IsAtRest :
      (name : Text) (v : Visit) (db : Db)
      → IsAtRest db.jobs
      → IsAtRest (run_once config name v db).1.jobs
  round-IsAtRest name v db h =
      let done = run_once-IsRound config name v db h.one_active.jobs_inv h.idle in
      record {
        one_active = record {
          jobs_inv = Works-Inv done.works h.one_active.jobs_inv;
          one_at_most = λ id.
              le_trans (active-Works id h.one_active.jobs_inv done.works)
                (h.one_active.one_at_most id);
        };
        idle = done.idle;
      }

  recovery-same :
      (recover_every stale_after loop_now now last : ℕ) (db : Db)
      → IsIdle db.jobs.rows
      → (maybe_recover recover_every stale_after loop_now now last db).1 ≡ db
  unfolding maybe_recover
  recovery-same recover_every stale_after loop_now now last db h =
      elim (Bool-cases (ltb (loop_now - last) recover_every)) [
        | inl x ↦ rw x refl
        | inr x ↦ rw (x, recover_stale-idle now stale_after db.jobs.rows h) refl
      ]

  Alone-rest : {db : Db} → Alone db → IsAtRest db.jobs
  Alone-rest start = record { one_active = Run-OneActive start_up; idle = tt }
  Alone-rest (fire name now before q) =
      let old = Alone-rest before in
      record {
        one_active = tick-OneActive config name now _ q old.one_active;
        idle = tick-IsIdle config name now _ q old.idle;
      }
  Alone-rest (round {db = d} name v before) = round-IsAtRest name v d (Alone-rest before)
  Alone-rest (recovery {db = d} every after loop_now now last before) =
      let old = Alone-rest before in
      subst (λ x. IsAtRest x.jobs) (sym (recovery-same every after loop_now now last d old.idle))
        old

  -- From an empty database, after any sequence of the rounds and recoveries of a worker that works
  -- alone and of the ticks of its schedules, however its runs end: each row is sound, each source has
  -- one job at most that waits, no job is running, and a recovery changes nothing.
  pub Alone-IsAtRest :
      {db : Db}
      → Alone db
      → IsAtRest db.jobs
        × ((recover_every stale_after loop_now now last : ℕ)
            → (maybe_recover recover_every stale_after loop_now now last db).1 ≡ db)
  Alone-IsAtRest {db} h = (
    Alone-rest h,
    λ every after loop_now now last.
        recovery-same every after loop_now now last db (Alone-rest h).idle,
  )
