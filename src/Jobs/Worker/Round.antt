-- ===== src/Jobs/Worker/Round.antt =====
-- What a round of app/jobs/worker.py does to the table of jobs: it is a sequence of the transactions of
-- a worker that holds its job.
use mathlib.Core.Path.{subst}
use lead_pipe.Prelude.{ℕ, ◌≡◌, refl, sym, ap, some, List, [], ◌∷◌, inl, inr, Option-cases}
use lead_pipe.Prelude.Unicode.{Unicode}
use lead_pipe.Prelude.Texts.{Text}
use lead_pipe.Libraries.{Phones, Emails, Urls, Formats}
use lead_pipe.Config.{AppConfig}
use lead_pipe.Db.{Db}
use lead_pipe.Db.Platform.{Platform}
use lead_pipe.Pipeline.Run.{
  Ending, unknown_source, job_not_found, collection_failed, collection_crashed,
  collection_completed,
}
use lead_pipe.Pipeline.Run.Completed.{completed_db, jobs-run_collection}
use lead_pipe.Jobs.Queue.{ClaimedJob, claim, heartbeat}
use lead_pipe.Jobs.Queue.Lifecycle.{
  Jobs, Work, claim_one, beat, begin, fail_held, Inv, Work-Inv, with_rows,
}
use lead_pipe.Jobs.Worker.Held.{
  IsOurs, claim-IsOurs, claim-none, heartbeats-IsOurs, marked-IsOurs, ended-IsIdle, fail-IsIdle,
  IsIdle,
}
use lead_pipe.Jobs.Worker.{
  Visit, with_jobs, heartbeats, raised_by, committed, process, report, work_on, run_once,
}

-- Transactions of a worker, one after the other.
pub data Works (t : Jobs) : Jobs → Type 0 where
  no_more : Works t t
  more : {u v : Jobs} → Works t u → Work u v → Works t v

pub Works-Inv : {t u : Jobs} → Works t u → Inv t → Inv u
Works-Inv no_more h = h
Works-Inv (more ws w) h = Work-Inv w (Works-Inv ws h)

heartbeats-Works :
    (beats : List ℕ) (id : ℕ) {t : Jobs} (s : Jobs)
    → Works t s
    → Works t (with_rows s (heartbeats beats id s.rows))
unfolding heartbeats
heartbeats-Works [] id s ws = ws
heartbeats-Works (now ∷ beats) id s ws =
    heartbeats-Works beats id (with_rows s (heartbeat now id s.rows)) (more ws (beat now id))

-- what a round leaves: transactions of a worker led to it, and no job is running
pub record IsRound (t u : Jobs) : Type 0 where
  pub works : Works t u
  pub idle : IsIdle u.rows

module _ ⦃u : Unicode⦄ ⦃p : Phones⦄ ⦃e : Emails⦄ ⦃w : Urls⦄ ⦃g : Platform⦄ ⦃f : Formats⦄
    (config : AppConfig) where
  failed-IsRound :
      (t : Jobs) (c : ClaimedJob) (v : Visit) (error : Text) (db : Db)
      → Works t db.jobs
      → IsOurs c db.jobs.rows
      → IsRound t (report config c v (some error) db).jobs
  failed-IsRound t c v error db ws h = record {
    works = more ws (fail_held v.failed_at v.jitter c error h.held);
    idle = fail-IsIdle v.failed_at v.jitter c error db.jobs.rows h;
  }

  completed-IsRound :
      (t : Jobs) (c : ClaimedJob) (v : Visit) (db after : Db)
      → Works t db.jobs
      → IsOurs c db.jobs.rows
      → completed_db (process config c v db) ≡ some after
      → IsRound t after.jobs
  unfolding process
  completed-IsRound t c v db after ws h done =
      let marks = more ws (begin v.ran_at c h.held) in
      let ours = marked-IsOurs v.ran_at c db.jobs h in
      subst (IsRound t)
        (sym
          (jobs-run_collection config c.source_name c.id (v.collection c) v.ran_at db after done))
        (record {
          works = more marks (Work.finish v.ran_at c ours.held);
          idle = ended-IsIdle v.ran_at c db.jobs h;
        })

  settled-IsRound :
      (t : Jobs) (c : ClaimedJob) (v : Visit) (db : Db) (ending : Ending)
      → Works t db.jobs
      → IsOurs c db.jobs.rows
      → process config c v db ≡ ending
      → IsRound t (report config c v (raised_by c ending) (committed db ending)).jobs
  unfolding raised_by
  settled-IsRound t c v db unknown_source ws h e = failed-IsRound t c v _ db ws h
  settled-IsRound t c v db job_not_found ws h e = failed-IsRound t c v _ db ws h
  settled-IsRound t c v db (collection_failed error s after) ws h e = failed-IsRound t c v _ db ws h
  settled-IsRound t c v db (collection_crashed error s after) ws h e =
      failed-IsRound t c v error db ws h
  settled-IsRound t c v db (collection_completed s after) ws h e =
      completed-IsRound t c v db after ws h (ap completed_db e)

  work_on-IsRound :
      (t : Jobs) (c : ClaimedJob) (v : Visit) (db : Db)
      → Works t db.jobs
      → IsOurs c db.jobs.rows
      → IsRound t (work_on config c v db).jobs
  unfolding work_on
  work_on-IsRound t c v db ws h =
      let beaten = with_jobs db (heartbeats v.beats c.id db.jobs.rows) in
      settled-IsRound t c v beaten (process config c v beaten)
        (heartbeats-Works v.beats c.id db.jobs ws) (heartbeats-IsOurs v.beats c.id c db.jobs.rows h)
        refl

  -- Where no job is running and each row is sound, a round of a worker that nobody disturbs is a
  -- sequence of transactions in which the worker holds its job, and no job is running after it.
  pub run_once-IsRound :
      (name : Text) (v : Visit) (db : Db)
      → Inv db.jobs
      → IsIdle db.jobs.rows
      → IsRound db.jobs (run_once config name v db).1.jobs
  unfolding run_once
  run_once-IsRound name v db inv idle =
      let rows = (claim db.sources.rows v.locked v.claimed_at name db.jobs.rows).1 in
      let one = more no_more (claim_one db.sources.rows v.locked v.claimed_at name) in
      elim (Option-cases (claim db.sources.rows v.locked v.claimed_at name db.jobs.rows).0) [
        | inl x ↦
            rw (x, run_once)
              (record {
                works = one;
                idle =
                    subst IsIdle
                      (sym (claim-none db.sources.rows v.locked v.claimed_at name db.jobs.rows x))
                      idle;
              })
        | inr (c, x) ↦
            rw (x, run_once)
              (work_on-IsRound db.jobs c v (with_jobs db rows) one
                (claim-IsOurs db.sources.rows v.locked v.claimed_at name db.jobs c inv idle x))
      ]
