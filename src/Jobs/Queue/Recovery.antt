-- ===== src/Jobs/Queue/Recovery.antt =====
-- `recover_stale` of app/jobs/queue.py sends two UPDATE statements; it does what one pass over the
-- table would.
use lead_pipe.Prelude.{ℕ, ◌≡◌, refl, List, [], ◌∷◌, map, arith, if◌then◌else◌, ap}
use lead_pipe.Prelude.Texts.{codes}
use lead_pipe.Prelude.Tables.{update, count}
use lead_pipe.Db.{CollectionJob}
use lead_pipe.Jobs.Queue.{recover_stale, stale, exhausted, give_up, requeue}

-- A stale job is failed if it has used up its attempts and made to wait again if not; no other
-- job changes.
abbrev pub recovered : ℕ → ℕ → CollectionJob → CollectionJob
recovered now stale_after j =
    if stale now stale_after j
    then (if exhausted j then give_up now (codes "worker stopped responding") j else requeue j)
    else j

-- The two statements are one pass by `recovered`, and the number is that of the stale jobs: each is
-- counted once.
pub recover_stale-once :
    (now stale_after : ℕ) (jobs : List CollectionJob)
    → recover_stale now stale_after jobs
      ≡ (count (stale now stale_after) jobs, map (recovered now stale_after) jobs)
unfolding recover_stale count update stale
recover_stale-once now stale_after [] = refl
recover_stale-once now stale_after (j ∷ jobs) = ground (
  arith,
  ap (λ (p : ℕ × List CollectionJob). p.0) (recover_stale-once now stale_after jobs),
  ap (λ (p : ℕ × List CollectionJob). p.1) (recover_stale-once now stale_after jobs),
)
