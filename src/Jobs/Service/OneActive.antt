-- ===== src/Jobs/Service/OneActive.antt =====
-- `enqueue_if_idle` of app/jobs/service.py, on which the schedules stand (app/jobs/scheduler.py): a
-- source has one active job at most, however ticks and workers alternate.
use mathlib.Core.Path.{subst}
use mathlib.Core.List.{Memᴰ}
use native.Mathlib.Nat.{le_trans}
use lead_pipe.Prelude.{
  ℕ, ◌≤◌, ◌≡◌, refl, true, false, ◌&&◌, Option, none, some, List, arith, ltb, ◌==◌, any, All-mem,
  Bool-cases, Option-cases, some_eq, inl, inr,
}
use lead_pipe.Prelude.Texts.{Text, codes}
use lead_pipe.Prelude.Tables.{
  select, count, count-append, count-update-le, count-zero_of_any, select_sound,
}
use lead_pipe.Repositories.Jobs.{finished, marked, create, new_job}
use lead_pipe.Repositories.Sources.{by_name, upsert}
use lead_pipe.Config.{AppConfig, SourceConfig, source_of}
use lead_pipe.Db.{Db, Source, CollectionJob, empty_db, completed}
use lead_pipe.Db.Tables.{add, eq_of_id}
use lead_pipe.Jobs.Queue.{
  ClaimedJob, claim, heartbeat, fail, recover_stale, start, oldest, runnable, is_running, stale,
  requeue, exhausted, give_up, retry, timedelta_us, backoff_seconds,
}
use lead_pipe.Jobs.Queue.Claims.{oldest-mem}
use lead_pipe.Jobs.Queue.Lifecycle.{
  Jobs, Holds, Work, claim_one, begin, beat, finish, fail_held, recover, Inv, Work-Inv, Step,
  Step-Inv, Reach-Inv, none_yet,
}
use lead_pipe.Jobs.Service.{is_active_for, create_if_idle, upsert_config, enqueue_if_idle}

-- how many jobs of the source wait or run
abbrev pub active : ℕ → Jobs → ℕ
active source_id t = count (is_active_for source_id) t.rows

-- a job that its worker holds is active
held_active :
    (source_id : ℕ) (c : ClaimedJob) {jobs : List CollectionJob} {j : CollectionJob}
    (k : CollectionJob)
    → Holds c jobs
    → Memᴰ j jobs
    → (j.id == c.id) ≡ true
    → k.source_id ≡ j.source_id
    → is_active_for source_id k ≡ true
    → is_active_for source_id j ≡ true
unfolding is_active_for
held_active source_id c {jobs} {j} k holds m same s q =
    let held = All-mem _ jobs holds m (ground arith) in ground (arith, held.0)

-- No transaction of a worker makes a source's active jobs more.
pub active-Work :
    (source_id : ℕ) {t u : Jobs} → Inv t → Work t u → active source_id u ≤ active source_id t
active-Work source_id {t} h (claim_one sources locked now worker) =
    elim (Option-cases (oldest (select (runnable now locked) t.rows))) [
      | inl e ↦ unfold claim in rw (e, claim) (omega arith)
      | inr (j, e) ↦
          let (m, r) = select_sound (runnable now locked) t.rows (oldest-mem _ e) in
          unfold claim in
          rw (e, claim)
            (count-update-le (λ i. i.id == j.id) (is_active_for source_id) (start worker now) t.rows
              (λ i n same q.
                let ran : runnable now locked i ≡ true =
                  subst (λ k. runnable now locked k ≡ true)
                    (eq_of_id (λ k. k.id) t.rows h.table.rising m n (ground arith)) r in
                unfold is_active_for start runnable in ground arith))
    ]
active-Work source_id {t} h (beat now id) =
    unfold heartbeat in
    count-update-le (λ j. j.id == id && is_running j.status) (is_active_for source_id)
      (λ j. record j { heartbeat_at = some now }) t.rows (λ j m p q. unfold is_active_for in q)
active-Work source_id {t} h (begin now c holds) =
    count-update-le (λ j. j.id == c.id) (is_active_for source_id) (marked now) t.rows
      (λ j m p q. held_active source_id c _ holds m p refl q)
active-Work source_id {t} h (finish now c holds) =
    count-update-le (λ j. j.id == c.id) (is_active_for source_id) (finished completed none now)
      t.rows (λ j m p q. held_active source_id c _ holds m p refl q)
active-Work source_id {t} h (fail_held now jitter c error holds) =
    elim (Bool-cases (ltb c.attempts c.max_attempts)) [
      | inl e ↦
          unfold fail in
          rw (e, fail)
            (count-update-le (λ j. j.id == c.id) (is_active_for source_id)
              (retry now (timedelta_us (backoff_seconds c.attempts jitter)) error) t.rows
              (λ j m p q. held_active source_id c _ holds m p refl q))
      | inr e ↦
          unfold fail in
          rw (e, fail)
            (count-update-le (λ j. j.id == c.id) (is_active_for source_id) (give_up now error)
              t.rows (λ j m p q. held_active source_id c _ holds m p refl q))
    ]
active-Work source_id {t} h (recover now stale_after) =
    unfold recover_stale in
    le_trans
      (count-update-le (stale now stale_after) (is_active_for source_id) requeue _
        (λ j m p q. unfold is_active_for stale in ground arith))
      (count-update-le (λ j. stale now stale_after j && exhausted j) (is_active_for source_id)
        (give_up now (codes "worker stopped responding")) t.rows
        (λ j m p q. unfold is_active_for stale in ground arith))

-- A tick of a schedule, or a transaction of a worker.
pub data Scheduled (db : Db) : Db → Type 0 where
  tick :
      (config : AppConfig) (name : Text) (now : ℕ) {r : Option CollectionJob} {db' : Db}
      → enqueue_if_idle config name now db ≡ some (r, db')
      → Scheduled db db'
  work : {jobs : Jobs} → Work db.jobs jobs → Scheduled db (record db { jobs = jobs })

pub data Run : Db → Type 0 where
  start_up : Run empty_db
  next : {db db' : Db} → Run db → Scheduled db db' → Run db'

pub record OneActive (t : Jobs) : Type 0 where
  pub jobs_inv : Inv t
  pub one_at_most : (source_id : ℕ) → active source_id t ≤ 1

active-new_job :
    (source_id now n : ℕ) (t : Jobs)
    → active n t ≤ 1
    → any (is_active_for source_id) t.rows ≡ false
    → active n (add (new_job source_id now) t) ≤ 1
unfolding count is_active_for
active-new_job source_id now n t h e =
    rw count-append (ground (arith, count-zero_of_any (is_active_for source_id) t.rows e))

create_if_idle-OneActive :
    (now : ℕ) (s : Source) (db : Db)
    → OneActive db.jobs
    → OneActive (create_if_idle now (s, db)).1.jobs
unfolding create
create_if_idle-OneActive now s db h = elim (Bool-cases (any (is_active_for s.id) db.jobs.rows)) [
  | inl e ↦ rw e h
  | inr e ↦ rw e (record {
    jobs_inv = Step-Inv (Step.create s.id now) h.jobs_inv;
    one_at_most = λ n. active-new_job s.id now n db.jobs (h.one_at_most n) e;
  })
]

pub jobs-upsert_config : (c : SourceConfig) (db : Db) → (upsert_config c db).1.jobs ≡ db.jobs
unfolding upsert_config
jobs-upsert_config c db = elim (Option-cases (by_name c.name db)) [
  | inl e ↦ rw (e, upsert) refl
  | inr (s, e) ↦ rw (e, upsert) refl
]

pub tick-OneActive :
    (config : AppConfig) (name : Text) (now : ℕ) (db : Db) {r : Option CollectionJob} {db' : Db}
    → enqueue_if_idle config name now db ≡ some (r, db')
    → OneActive db.jobs
    → OneActive db'.jobs
unfolding enqueue_if_idle
tick-OneActive config name now db {r} {db'} e h = elim (Option-cases (source_of config name)) [
  | inl none_such ↦ absurd (ground arith)
  | inr (c, found) ↦
      let (s, after) = upsert_config c db in
      subst (λ p. OneActive p.1.jobs)
        (let q : create_if_idle now (upsert_config c db) ≡ (r, db') =
            some_eq (rw (found, enqueue_if_idle) at e) in
          q)
        (create_if_idle-OneActive now s after (rw jobs-upsert_config h))
]

Scheduled-OneActive : {db db' : Db} → Scheduled db db' → OneActive db.jobs → OneActive db'.jobs
Scheduled-OneActive {db} (tick config name now e) h = tick-OneActive config name now db e h
Scheduled-OneActive {db} (work w) h = record {
  jobs_inv = Work-Inv w h.jobs_inv;
  one_at_most = λ i. omega (arith, active-Work i h.jobs_inv w, h.one_at_most i);
}

-- From an empty database, in every order of the ticks of schedules and of the transactions of
-- workers that hold the jobs which they start, finish or fail, no source has two jobs that wait or
-- run.
pub Run-OneActive : {db : Db} → Run db → OneActive db.jobs
Run-OneActive start_up = record {
  jobs_inv = Reach-Inv none_yet;
  one_at_most = λ i. unfold count in omega arith;
}
Run-OneActive (next r s) = Scheduled-OneActive s (Run-OneActive r)
