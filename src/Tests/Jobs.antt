-- ===== src/Tests/Jobs.antt =====
-- The theorems on app/jobs at concrete inputs.
use mathlib.Core.List.{Memᴰ}
use lead_pipe.Prelude.{
  ℕ, ◌*◌, ◌≤◌, ◌≡◌, ◌≢◌, ◌↔◌, refl, Bool, true, false, ◌&&◌, none, some, List, [], ◌∷◌, map, any,
  ◌==◌, arith,
}
use lead_pipe.Prelude.Texts.{codes, text_eq}
use lead_pipe.Prelude.Tables.{update, count, select, find}
use lead_pipe.Prelude.Ratios.{percent}
use lead_pipe.Prelude.Ints.{pos}
use lead_pipe.Db.{CollectionJob, pending, running, failed, empty_table, empty_db, Source, Db}
use lead_pipe.Db.Tables.{add}
use lead_pipe.Repositories.Jobs.{new_job}
use lead_pipe.Jobs.Queue.{
  ClaimedJob, claim, claimed, runnable, before, start, fail, recover_stale, stale, backoff_delay,
  timedelta_us, backoff_seconds, oldest, name_of, silent,
}
use lead_pipe.Jobs.Queue.Claims.{claim-oldest, claim-none_iff}
use lead_pipe.Jobs.Queue.Recovery.{recovered, recover_stale-once}
use lead_pipe.Jobs.Queue.Retries.{retry_window, fail-not_runnable_soon, fail-runnable_later}
use lead_pipe.Config.{AppConfig, source_of}
use lead_pipe.Repositories.Sources.{upsert, by_name}
use lead_pipe.Repositories.Jobs.{create as create_row}
use lead_pipe.Jobs.Service.{is_active_for, enqueue_if_idle, upsert_config}
use lead_pipe.Jobs.Service.OneActive.{Run, tick, OneActive, Run-OneActive}
use lead_pipe.Jobs.Queue.Terminal.{done, more, taken_id, fail-terminal}
use lead_pipe.Jobs.Queue.Lifecycle.{
  Reach, recover, Jobs, none_yet, next, create, work, claim_one, Inv, Reach-Inv, with_rows,
}

abbrev pub web : Source
web = record {
  id = 1;
  name = codes "web";
  type = codes "html";
  priority = pos 3;
  enabled = true;
  config = [];
}

-- a job that was created at the second 5 and one at the second 4
abbrev later : CollectionJob
later = new_job 1 5000000 1

abbrev earlier : CollectionJob
earlier = new_job 1 4000000 2

abbrev two_jobs : List CollectionJob
two_jobs = later ∷ earlier ∷ []

abbrev pub unlocked : ℕ → Bool
unlocked id = false

claim-oldest_example :
    (j : CollectionJob) × Memᴰ j two_jobs
    × (runnable 6000000 unlocked j ≡ true)
    × (any (λ i. runnable 6000000 unlocked i && before i j) two_jobs ≡ false)
    × (claimed (web ∷ []) earlier ≡ claimed (web ∷ []) j)
    × (update (λ i. i.id == 2) (start (codes "w1") 6000000) two_jobs
        ≡ update (λ i. i.id == j.id) (start (codes "w1") 6000000) two_jobs)
unfolding claim oldest select runnable
claim-oldest_example = claim-oldest (web ∷ []) unlocked 6000000 (codes "w1") two_jobs refl

claim-none_iff_example :
    (claim (web ∷ []) unlocked 6000000 (codes "w1") two_jobs ≡ (none, two_jobs))
    ↔ (any (runnable 6000000 unlocked) two_jobs ≡ false)
claim-none_iff_example = claim-none_iff (web ∷ []) unlocked 6000000 (codes "w1") two_jobs

recover_stale-once_example :
    recover_stale 60000000 30000000 (start (codes "w1") 1000000 later ∷ earlier ∷ []) ≡ (
      count (stale 60000000 30000000) (start (codes "w1") 1000000 later ∷ earlier ∷ []),
      map (recovered 60000000 30000000) (start (codes "w1") 1000000 later ∷ earlier ∷ []),
    )
recover_stale-once_example =
    recover_stale-once 60000000 30000000 (start (codes "w1") 1000000 later ∷ earlier ∷ [])

retry_window_example :
    (500000 * backoff_delay 2 ≤ timedelta_us (backoff_seconds 2 (percent 50)))
    × (timedelta_us (backoff_seconds 2 (percent 50)) ≤ 1000000 * backoff_delay 2)
retry_window_example = retry_window 2 (percent 50) (omega arith)

-- the claim of the earlier job
abbrev first_try : ClaimedJob
first_try = record {
  id = 2;
  source_id = 1;
  source_name = codes "web";
  attempts = 1;
  max_attempts = 3;
}

abbrev last_try : ClaimedJob
last_try = record first_try { attempts = 3 }

abbrev running_job : CollectionJob
running_job = record earlier { status = running; attempts = 1 }

abbrev waiting_again : CollectionJob
waiting_again = record running_job {
  status = pending;
  error = some (codes "lost");
  claimed_by = none;
  finished_at = none;
  run_after = some 13750000;
}

abbrev lost_job : CollectionJob
lost_job = record running_job {
  status = failed;
  error = some (codes "lost");
  claimed_by = none;
  finished_at = some 10000000;
}

fail-not_runnable_soon_example : runnable 12000000 unlocked waiting_again ≡ false
unfolding fail update timedelta_us backoff_seconds backoff_delay
fail-not_runnable_soon_example =
    fail-not_runnable_soon 10000000 (percent 50) first_try (codes "lost") unlocked 12000000
      (running_job ∷ []) (omega arith) waiting_again (omega arith) (omega arith) (Memᴰ.head refl)
      refl

fail-runnable_later_example : runnable 310000000 unlocked waiting_again ≡ true
unfolding fail update timedelta_us backoff_seconds backoff_delay
fail-runnable_later_example =
    fail-runnable_later 10000000 (percent 50) first_try (codes "lost") unlocked 310000000
      (running_job ∷ []) (omega arith) waiting_again (omega arith) (omega arith) refl
      (Memᴰ.head refl) refl

abbrev pub one_queued : Jobs
one_queued = add (new_job 1 4000000) empty_table

abbrev one_claimed : Jobs
one_claimed =
    with_rows one_queued (claim (web ∷ []) unlocked 6000000 (codes "w1") one_queued.rows).1

Reach-Inv_example : Inv one_claimed
Reach-Inv_example = Reach-Inv (
    next (next none_yet (create 1 4000000))
      (work (claim_one (web ∷ []) unlocked 6000000 (codes "w1"))))

-- the job after three claims, each of a worker that stopped responding
abbrev reclaimed : ℕ → Jobs → Jobs
reclaimed now t =
    let back = with_rows t (recover_stale now 600000000 t.rows).1 in
    with_rows back (claim (web ∷ []) unlocked now (codes "w1") back.rows).1

abbrev thrice_claimed : Jobs
thrice_claimed = reclaimed 2006000000 (reclaimed 1006000000 one_claimed)

reclaimed-Reach : (now : ℕ) (t : Jobs) → Reach t → Reach (reclaimed now t)
reclaimed-Reach now t r =
    next (next r (work (recover now 600000000)))
      (work (claim_one (web ∷ []) unlocked now (codes "w1")))

thrice_claimed-Reach : Reach thrice_claimed
thrice_claimed-Reach = reclaimed-Reach 2006000000 (reclaimed 1006000000 one_claimed) (
    reclaimed-Reach 1006000000 one_claimed (
      next (next none_yet (create 1 4000000))
        (work (claim_one (web ∷ []) unlocked 6000000 (codes "w1")))))

abbrev third_try : CollectionJob
third_try = record (new_job 1 4000000 1) {
  status = running;
  started_at = some 6000000;
  heartbeat_at = some 2006000000;
  attempts = 3;
  claimed_by = some (codes "w1");
}

abbrev last_claim : ClaimedJob
last_claim = record {
  id = 1;
  source_id = 1;
  source_name = codes "web";
  attempts = 3;
  max_attempts = 3;
}

abbrev buried_job : CollectionJob
buried_job = record third_try {
  status = failed;
  error = some (codes "lost");
  claimed_by = none;
  finished_at = some 2010000000;
}

abbrev after_failure : Jobs
after_failure =
    let t =
      with_rows thrice_claimed
        (fail 2010000000 (percent 50) last_claim (codes "lost") thrice_claimed.rows).1 in
    with_rows t (recover_stale 9000000000 600000000 t.rows).1

fail-terminal_example :
    (buried_job.status ≡ failed)
    × (taken_id (claim (web ∷ []) unlocked 9000000000 (codes "w2") after_failure.rows).0 ≢ some 1)
unfolding claim oldest runnable start update select claimed name_of find recover_stale stale silent
    count fail
fail-terminal_example =
    fail-terminal 2010000000 (percent 50) last_claim (codes "lost") third_try buried_job (web ∷ [])
      unlocked 9000000000 (codes "w2") thrice_claimed-Reach (Memᴰ.head refl) refl (omega arith)
      (more done (work (recover 9000000000 600000000))) (Memᴰ.head refl) refl

abbrev pub config : AppConfig
config = record {
  region = none;
  sources =
      record {
        name = codes "web";
        type = codes "html";
        enabled = true;
        priority = pos 3;
        region = none;
        mapping = [];
        schedule = none;
        options = [];
      }
      ∷ [];
}

abbrev pub after_tick : Db
after_tick = record empty_db {
  sources = add (λ id. record web { id = id }) empty_table;
  jobs = add (new_job 1 4000000) empty_table;
}

Run-OneActive_example : OneActive after_tick.jobs
unfolding enqueue_if_idle source_of upsert_config upsert by_name create_row find update text_eq
    is_active_for
Run-OneActive_example = Run-OneActive (
    Run.next
      (Run.next Run.start_up
        (tick config (codes "web") 4000000 {r = some (new_job 1 4000000 1)} refl))
      (tick config (codes "web") 5000000 {r = none} refl))
