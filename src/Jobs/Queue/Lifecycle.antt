-- ===== src/Jobs/Queue/Lifecycle.antt =====
-- The life of the jobs in the table, as the queue's clients change it: the service (app/jobs/service.py),
-- the workers (app/jobs/worker.py) and the run that they call (app/pipeline/runner.py).
use mathlib.Core.Path.{subst}
use lead_pipe.Prelude.{
  Option-cases, inl, inr, ℕ, ◌≤◌, ◌<◌, ◌≡◌, refl, Bool, true, false, ◌&&◌, none, List, arith, ltb,
  ◌==◌, All, All-mem, All-append, Bool-cases,
}
use lead_pipe.Prelude.Ratios.{Ratio}
use lead_pipe.Prelude.Texts.{Text, codes}
use lead_pipe.Prelude.Tables.{
  select, update, All-update, All-update_mem, All-update_case, select_sound,
}
use lead_pipe.Db.{CollectionJob, Source, pending, running, completed}
use lead_pipe.Jobs.Queue.{
  ClaimedJob, claim, heartbeat, fail, recover_stale, start, stale, exhausted, requeue, give_up,
  runnable,
}
use lead_pipe.Jobs.Queue.{oldest}
use lead_pipe.Jobs.Queue.Claims.{oldest-mem}
use lead_pipe.Db.{empty_table}
use lead_pipe.Db.Tables.{
  Table, add, update_rows, IsTable, add-IsTable, update_rows-IsTable, eq_of_id,
}
use lead_pipe.Repositories.Jobs.{new_job, marked, finished}

-- A waiting job has an attempt left; a running one has used one at least, and no more than it has.
pub record IsSound (j : CollectionJob) : Type 0 where
  pub waiting : j.status ≡ pending → j.attempts < j.max_attempts
  pub working : j.status ≡ running → (0 < j.attempts) × (j.attempts ≤ j.max_attempts)

-- The worker that claimed `c` still holds it: the row of the job is as the claim left it.
abbrev pub Holds : ClaimedJob → List CollectionJob → Type 0
Holds c = All (λ j.
    j.id ≡ c.id
    → (j.status ≡ running) × (j.attempts ≡ c.attempts) × (j.max_attempts ≡ c.max_attempts))

abbrev pub Jobs : Type 0
Jobs = Table CollectionJob

abbrev pub with_rows : Jobs → List CollectionJob → Jobs
with_rows t rows = record t { rows = rows }

-- One transaction of a worker.
pub data Work (t : Jobs) : Jobs → Type 0 where
  claim_one :
      (sources : List Source) (locked : ℕ → Bool) (now : ℕ) (worker : Text)
      → Work t (with_rows t (claim sources locked now worker t.rows).1)
  beat : (now id : ℕ) → Work t (with_rows t (heartbeat now id t.rows))
  begin :
      (now : ℕ) (c : ClaimedJob)
      → Holds c t.rows
      → Work t (update_rows (λ j. j.id == c.id) (marked now) t)
  finish :
      (now : ℕ) (c : ClaimedJob)
      → Holds c t.rows
      → Work t (update_rows (λ j. j.id == c.id) (finished completed none now) t)
  fail_held :
      (now : ℕ) (jitter : Ratio) (c : ClaimedJob) (error : Text)
      → Holds c t.rows
      → Work t (with_rows t (fail now jitter c error t.rows).1)
  recover : (now stale_after : ℕ) → Work t (with_rows t (recover_stale now stale_after t.rows).1)

-- One transaction of a client: a new job, or a worker's.
pub data Step (t : Jobs) : Jobs → Type 0 where
  create : (source_id now : ℕ) → Step t (add (new_job source_id now) t)
  work : {u : Jobs} → Work t u → Step t u

pub data Reach : Jobs → Type 0 where
  none_yet : Reach empty_table
  next : {t u : Jobs} → Reach t → Step t u → Reach u

pub record Inv (t : Jobs) : Type 0 where
  pub table : IsTable (λ j. j.id) t
  pub sound : All IsSound t.rows

start-IsSound :
    (worker : Text) (now : ℕ) (locked : ℕ → Bool) (j : CollectionJob)
    → IsSound j
    → runnable now locked j ≡ true
    → IsSound (start worker now j)
unfolding start runnable
start-IsSound worker now locked j s r = ground arith

claim-Inv :
    (sources : List Source) (locked : ℕ → Bool) (now : ℕ) (worker : Text) (t : Jobs)
    → Inv t
    → Inv (with_rows t (claim sources locked now worker t.rows).1)
unfolding claim
claim-Inv sources locked now worker t h =
    elim (Option-cases (oldest (select (runnable now locked) t.rows))) [
      | inl e ↦ rw (e, claim) (record { table = h.table; sound = h.sound })
      | inr (j, e) ↦
          let (m, r) = select_sound (runnable now locked) t.rows (oldest-mem _ e) in
          rw (e, claim)
            (record {
              table =
                  update_rows-IsTable (λ j. j.id) (λ i. i.id == j.id) (start worker now)
                    (λ i. unfold start in refl) t h.table;
              sound =
                  All-update_mem IsSound (λ i. i.id == j.id) (start worker now) t.rows
                    (λ i n s same. start-IsSound worker now locked i s (
                      subst (λ k. runnable now locked k ≡ true)
                        (eq_of_id (λ j. j.id) t.rows h.table.rising m n (ground arith)) r))
                    h.sound;
            })
    ]

heartbeat-Inv : (now id : ℕ) (t : Jobs) → Inv t → Inv (with_rows t (heartbeat now id t.rows))
unfolding heartbeat
heartbeat-Inv now id t h = record {
  table = update_rows-IsTable (λ j. j.id) _ _ (λ j. refl) t h.table;
  sound =
      All-update IsSound _ _ t.rows (λ j s _. record { waiting = s.waiting; working = s.working })
        h.sound;
}

begin-Inv :
    (now : ℕ) (c : ClaimedJob) (t : Jobs)
    → Holds c t.rows
    → Inv t
    → Inv (update_rows (λ j. j.id == c.id) (marked now) t)
begin-Inv now c t holds h = record {
  table = update_rows-IsTable (λ j. j.id) _ _ (λ j. refl) t h.table;
  sound =
      All-update_mem IsSound _ _ t.rows
        (λ j m s same. ground (arith, s.working, All-mem _ t.rows holds m)) h.sound;
}

finish-Inv :
    (now : ℕ) (c : ClaimedJob) (t : Jobs)
    → Inv t
    → Inv (update_rows (λ j. j.id == c.id) (finished completed none now) t)
finish-Inv now c t h = record {
  table = update_rows-IsTable (λ j. j.id) _ _ (λ j. refl) t h.table;
  sound = All-update IsSound _ _ t.rows (λ j s _. ground arith) h.sound;
}

fail-Inv :
    (now : ℕ) (jitter : Ratio) (c : ClaimedJob) (error : Text) (t : Jobs)
    → Holds c t.rows
    → Inv t
    → Inv (with_rows t (fail now jitter c error t.rows).1)
unfolding fail
fail-Inv now jitter c error t holds h = elim (Bool-cases (ltb c.attempts c.max_attempts)) [
  | inl e ↦
      rw (e, fail)
        (record {
          table = update_rows-IsTable (λ j. j.id) _ _ (λ j. refl) t h.table;
          sound =
              All-update_mem IsSound _ _ t.rows
                (λ j m s same. ground (arith, All-mem _ t.rows holds m)) h.sound;
        })
  | inr e ↦
      rw (e, fail)
        (record {
          table = update_rows-IsTable (λ j. j.id) _ _ (λ j. refl) t h.table;
          sound = All-update IsSound _ _ t.rows (λ j s same. ground arith) h.sound;
        })
]

-- After the first statement of `recover_stale` a stale job has an attempt left.
abbrev Retryable : ℕ → ℕ → CollectionJob → Type 0
Retryable now stale_after j = IsSound j × (stale now stale_after j ≡ true → exhausted j ≡ false)

recover-Inv :
    (now stale_after : ℕ) (t : Jobs)
    → Inv t
    → Inv (with_rows t (recover_stale now stale_after t.rows).1)
unfolding recover_stale
recover-Inv now stale_after t h =
    let gone = λ (j : CollectionJob). stale now stale_after j && exhausted j in
    let bury = give_up now (codes "worker stopped responding") in
    let buried = update_rows-IsTable (λ j. j.id) gone bury (λ j. refl) t h.table in
    record {
      table =
          update_rows-IsTable (λ j. j.id) (stale now stale_after) requeue (λ j. refl)
            (update_rows gone bury t) buried;
      sound =
          All-update_case (Retryable now stale_after) IsSound (stale now stale_after) requeue
            (update gone bury t.rows) (λ j _ s old. ground (arith, s.1 old)) (λ j s _. s.0)
            (All-update_case IsSound (Retryable now stale_after) gone bury t.rows
              (λ j _ s old. unfold stale in ground arith) (λ j s old. (s, λ k. ground arith))
              h.sound);
    }

pub Work-Inv : {t u : Jobs} → Work t u → Inv t → Inv u
Work-Inv {t} (claim_one sources locked now worker) h = claim-Inv sources locked now worker t h
Work-Inv {t} (beat now id) h = heartbeat-Inv now id t h
Work-Inv {t} (begin now c holds) h = begin-Inv now c t holds h
Work-Inv {t} (finish now c holds) h = finish-Inv now c t h
Work-Inv {t} (fail_held now jitter c error holds) h = fail-Inv now jitter c error t holds h
Work-Inv {t} (recover now stale_after) h = recover-Inv now stale_after t h

pub Step-Inv : {t u : Jobs} → Step t u → Inv t → Inv u
Step-Inv {t} (create source_id now) h = record {
  table = add-IsTable (λ j. j.id) (new_job source_id now) t refl h.table;
  sound = All-append IsSound t.rows _ h.sound (ground arith, tt);
}
Step-Inv (work w) h = Work-Inv w h

-- While every worker that starts, finishes or fails a job still holds it, in whatever order clients
-- act: each job has its own id, a waiting job has an attempt left, and a running job has used at
-- least one attempt and at most the allowed number.
pub Reach-Inv : {t : Jobs} → Reach t → Inv t
Reach-Inv none_yet = record { table = record { fresh = tt; rising = tt }; sound = tt }
Reach-Inv (next r s) = Step-Inv s (Reach-Inv r)
