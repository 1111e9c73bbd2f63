-- ===== src/Jobs/Queue.antt =====
-- app/jobs/queue.py: taking, keeping alive, failing and recovering jobs. Each function is one
-- statement or two on the table of jobs, at the time `now`; `locked` says which rows another
-- transaction holds (FOR UPDATE SKIP LOCKED).
pub mod Claims
pub mod Recovery
pub mod Lifecycle
pub mod Retries
pub mod Terminal
use lead_pipe.Prelude.{
  ℕ, suc, ◌+◌, ◌-◌, ◌*◌, ◌/◌, ◌%◌, ◌^◌, ◌≤◌, ◌<◌, min, max, ◌≡◌, Bool, true, false, not, ◌&&◌, ◌||◌,
  Option, none, some, List, [], ◌∷◌, arith, if◌then◌else◌, ◌==◌, leb, ltb, take,
}
use lead_pipe.Prelude.Texts.{Text, codes}
use lead_pipe.Prelude.Tables.{select, find, update, count}
use lead_pipe.Prelude.Ratios.{Ratio, den}
use lead_pipe.Db.{CollectionJob, JobStatus, pending, running, completed, failed, cancelled, Source}

pub record ClaimedJob : Type 0 where
  pub id : ℕ
  pub source_id : ℕ
  pub source_name : Text
  pub attempts : ℕ
  pub max_attempts : ℕ

abbrev pub is_pending : JobStatus → Bool
is_pending pending = true
is_pending _ = false

abbrev pub is_running : JobStatus → Bool
is_running running = true
is_running _ = false

-- seconds
abbrev pub base_backoff_seconds : ℕ
base_backoff_seconds = 5

abbrev pub max_backoff_seconds : ℕ
max_backoff_seconds = 300

-- `delay * (0.5 + 0.5 * spread)` seconds, where `delay` doubles up to the cap and the jitter
-- `spread` is a fraction from 0 up to 1. The source's float overflows for more than 1024 attempts, which
-- a job does not reach: `max_attempts` is 3.
unfoldable pub backoff_delay : ℕ → ℕ
backoff_delay attempts = min (base_backoff_seconds * 2 ^ (attempts - 1)) max_backoff_seconds

unfoldable pub backoff_seconds : ℕ → Ratio → Ratio
backoff_seconds attempts jitter = record {
  num = backoff_delay attempts * (den jitter + jitter.num);
  den_pred = 2 * jitter.den_pred + 1;
}

-- `timedelta(seconds=...)` in microseconds, rounded to the nearest, and to even in the middle
unfoldable pub timedelta_us : Ratio → ℕ
timedelta_us r =
    let n = r.num * 1000000 in
    let q = n / den r in
    let twice = 2 * (n % den r) in
    if ltb twice (den r)
    then q
    else if ltb (den r) twice
    then q + 1
    else if q % 2 == 0
    then q
    else q + 1

-- `run_after IS NULL OR run_after <= now`
abbrev pub is_due : ℕ → Option ℕ → Bool
is_due now none = true
is_due now (some t) = leb t now

unfoldable pub runnable : ℕ → (ℕ → Bool) → CollectionJob → Bool
runnable now locked j = is_pending j.status && is_due now j.run_after && not (locked j.id)

-- `ORDER BY created_at, id`
abbrev pub before : CollectionJob → CollectionJob → Bool
before i j = ltb i.created_at j.created_at || (i.created_at == j.created_at && ltb i.id j.id)

-- `LIMIT 1`
unfoldable pub oldest : List CollectionJob → Option CollectionJob
oldest [] = none
oldest (j ∷ js) = elim (oldest js) [
  | none ↦ some j
  | some i ↦ if before i j then some i else some j
]

-- `coalesce(started_at, now)`
abbrev pub coalesce : Option ℕ → ℕ → Option ℕ
coalesce none t = some t
coalesce (some s) t = some s

unfoldable pub start : Text → ℕ → CollectionJob → CollectionJob
start worker now j = record j {
  status = running;
  started_at = coalesce j.started_at now;
  heartbeat_at = some now;
  attempts = j.attempts + 1;
  claimed_by = some worker;
  run_after = none;
}

-- `str(name)` of the source's name
unfoldable pub name_of : List Source → ℕ → Text
name_of sources id = elim (find (λ s. s.id == id) sources) [ none ↦ codes "None" | some s ↦ s.name ]

unfoldable pub claimed : List Source → CollectionJob → ClaimedJob
unfolding name_of
claimed sources j = record {
  id = j.id;
  source_id = j.source_id;
  source_name = name_of sources j.source_id;
  attempts = j.attempts + 1;
  max_attempts = j.max_attempts;
}

unfoldable pub claim :
    List Source
    → (ℕ → Bool)
    → ℕ
    → Text
    → List CollectionJob
    → Option ClaimedJob × List CollectionJob
claim sources locked now worker jobs = elim (oldest (select (runnable now locked) jobs)) [
  | none ↦ (none, jobs)
  | some j ↦ (some (claimed sources j), update (λ i. i.id == j.id) (start worker now) jobs)
]

unfoldable pub heartbeat : ℕ → ℕ → List CollectionJob → List CollectionJob
heartbeat now id =
    update (λ j. j.id == id && is_running j.status) (λ j. record j { heartbeat_at = some now })

abbrev pub retry : ℕ → ℕ → Text → CollectionJob → CollectionJob
retry now delay error j = record j {
  status = pending;
  error = some (take 2000 error);
  claimed_by = none;
  finished_at = none;
  run_after = some (now + delay);
}

abbrev pub give_up : ℕ → Text → CollectionJob → CollectionJob
give_up now error j = record j {
  status = failed;
  error = some (take 2000 error);
  claimed_by = none;
  finished_at = some now;
}

-- `jitter` is what `random.random()` returns
unfoldable pub fail :
    ℕ → Ratio → ClaimedJob → Text → List CollectionJob → JobStatus × List CollectionJob
fail now jitter job error jobs =
    if ltb job.attempts job.max_attempts
    then (
      pending,
      update (λ j. j.id == job.id)
          (retry now (timedelta_us (backoff_seconds job.attempts jitter)) error) jobs,
    )
    else (failed, update (λ j. j.id == job.id) (give_up now error) jobs)

-- `heartbeat_at IS NULL OR heartbeat_at < now - stale_after`
unfoldable pub silent : ℕ → ℕ → CollectionJob → Bool
silent now stale_after j = elim j.heartbeat_at [ none ↦ true | some t ↦ ltb (t + stale_after) now ]

unfoldable pub stale : ℕ → ℕ → CollectionJob → Bool
unfolding silent
stale now stale_after j = is_running j.status && silent now stale_after j

abbrev pub exhausted : CollectionJob → Bool
exhausted j = leb j.max_attempts j.attempts

abbrev pub requeue : CollectionJob → CollectionJob
requeue j = record j { status = pending; claimed_by = none; run_after = none }

-- the number of jobs, and the table, after both statements
unfoldable pub recover_stale : ℕ → ℕ → List CollectionJob → ℕ × List CollectionJob
unfolding stale
recover_stale now stale_after jobs =
    let gone = λ (j : CollectionJob). stale now stale_after j && exhausted j in
    let jobs' = update gone (give_up now (codes "worker stopped responding")) jobs in
    (
      count gone jobs + count (stale now stale_after) jobs',
      update (stale now stale_after) requeue jobs',
    )
