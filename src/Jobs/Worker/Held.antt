-- ===== src/Jobs/Worker/Held.antt =====
-- The job that a worker holds in a round of app/jobs/worker.py, and what the round's statements keep of it.
use mathlib.Core.List.{Memᴰ}
use mathlib.Core.Path.{subst}
use lead_pipe.Prelude.{
  ℕ, ◌+◌, ◌≡◌, refl, ap, Bool, true, false, none, some, List, [], ◌∷◌, arith, inl, inr,
  Option-cases, Bool-cases, ◌==◌, All, ltb, some_eq, not_some,
}
use lead_pipe.Prelude.Tables.{update, select, select_sound, All-update_case, All-update_mem}
use lead_pipe.Prelude.Texts.{Text}
use lead_pipe.Prelude.Ratios.{Ratio}
use lead_pipe.Db.{Source, CollectionJob, completed}
use lead_pipe.Db.Tables.{update_rows, eq_of_id}
use lead_pipe.Repositories.Jobs.{marked, finished}
use lead_pipe.Pipeline.Run.{}
use lead_pipe.Pipeline.Run.Completed.{run_of}
use lead_pipe.Jobs.Queue.{
  ClaimedJob, claim, heartbeat, fail, start, claimed, oldest, runnable, is_running, give_up, retry,
  timedelta_us, backoff_seconds,
}
use lead_pipe.Jobs.Queue.Claims.{oldest-mem}
use lead_pipe.Jobs.Queue.Lifecycle.{Jobs, Holds, Inv}
use lead_pipe.Jobs.Worker.{heartbeats}

-- Only the job of `c` is running, and `c` is as the claim left it.
pub record IsOurs (c : ClaimedJob) (rows : List CollectionJob) : Type 0 where
  pub held : Holds c rows
  pub only : All (λ j. is_running j.status ≡ true → j.id ≡ c.id) rows

abbrev pub IsIdle : List CollectionJob → Type 0
IsIdle = All (λ j. is_running j.status ≡ false)

pub start-IsOurs :
    (sources : List Source) (now : ℕ) (name : Text) (t : Jobs) (j : CollectionJob)
    → Inv t
    → IsIdle t.rows
    → Memᴰ j t.rows
    → IsOurs (claimed sources j) (update (λ i. i.id == j.id) (start name now) t.rows)
unfolding claimed start
start-IsOurs sources now name t j inv idle m = record {
  held =
      All-update_case (λ i. is_running i.status ≡ false) _ (λ i. i.id == j.id) (start name now)
        t.rows
        (λ i n s p _.
          let one : i ≡ j = eq_of_id (λ k. k.id) t.rows inv.table.rising n m (ground arith) in
          (
            refl,
            ap (λ (k : CollectionJob). k.attempts + 1) one,
            ap (λ (k : CollectionJob). k.max_attempts) one,
          ))
        (λ i s p k. absurd (ground arith)) idle;
  only =
      All-update_case (λ i. is_running i.status ≡ false) _ (λ i. i.id == j.id) (start name now)
        t.rows (λ i n s p _. ground arith) (λ i s p r. ground arith) idle;
}

pub claim-IsOurs :
    (sources : List Source) (locked : ℕ → Bool) (now : ℕ) (name : Text) (t : Jobs) (c : ClaimedJob)
    → Inv t
    → IsIdle t.rows
    → (claim sources locked now name t.rows).0 ≡ some c
    → IsOurs c (claim sources locked now name t.rows).1
unfolding claim
claim-IsOurs sources locked now name t c inv idle h =
    elim (Option-cases (oldest (select (runnable now locked) t.rows))) [
      | inl e ↦ absurd (not_some (rw (e, claim) at h))
      | inr (j, e) ↦
          let m = (select_sound (runnable now locked) t.rows (oldest-mem _ e)).0 in
          let same : claimed sources j ≡ c = some_eq (rw (e, claim) at h) in
          rw (e, claim)
            (subst (λ k. IsOurs k (update (λ i. i.id == j.id) (start name now) t.rows)) same
              (start-IsOurs sources now name t j inv idle m))
    ]

-- a claim that finds no job leaves the jobs as they were
pub claim-none :
    (sources : List Source) (locked : ℕ → Bool) (now : ℕ) (name : Text) (jobs : List CollectionJob)
    → (claim sources locked now name jobs).0 ≡ none
    → (claim sources locked now name jobs).1 ≡ jobs
unfolding claim
claim-none sources locked now name jobs h =
    elim (Option-cases (oldest (select (runnable now locked) jobs))) [
      | inl e ↦ rw (e, claim) refl
      | inr (j, e) ↦ absurd (let k : some (claimed sources j) ≡ none = rw (e, claim) at h in cc)
    ]

pub heartbeats-IsOurs :
    (beats : List ℕ) (id : ℕ) (c : ClaimedJob) (rows : List CollectionJob)
    → IsOurs c rows
    → IsOurs c (heartbeats beats id rows)
unfolding heartbeats heartbeat
heartbeats-IsOurs [] id c rows h = h
heartbeats-IsOurs (now ∷ beats) id c rows h = heartbeats-IsOurs beats id c _ (record {
  held = All-update_mem _ _ _ rows (λ j m k same. k) h.held;
  only = All-update_mem _ _ _ rows (λ j m k same. k) h.only;
})

pub marked-IsOurs :
    (now : ℕ) (c : ClaimedJob) (t : Jobs)
    → IsOurs c t.rows
    → IsOurs c (update_rows (λ j. j.id == c.id) (marked now) t).rows
marked-IsOurs now c t h = record {
  held = All-update_mem _ _ _ t.rows (λ j m k same e. ground (arith, k e)) h.held;
  only = All-update_mem _ _ _ t.rows (λ j m k same r. ground arith) h.only;
}

-- when the job of `c` is stopped, no job is running
pub stopped-IsIdle :
    (f : CollectionJob → CollectionJob) (c : ClaimedJob) (rows : List CollectionJob)
    → ((j : CollectionJob) → is_running (f j).status ≡ false)
    → IsOurs c rows
    → IsIdle (update (λ j. j.id == c.id) f rows)
stopped-IsIdle f c rows stops h =
    All-update_case (λ j. is_running j.status ≡ true → j.id ≡ c.id)
      (λ j. is_running j.status ≡ false) (λ j. j.id == c.id) f rows (λ j m o p. stops j)
      (λ j o p. elim (Bool-cases (is_running j.status)) [
        | inl r ↦ absurd (ground (arith, o r))
        | inr r ↦ r
      ])
      h.only

pub ended-IsIdle :
    (now : ℕ) (c : ClaimedJob) (t : Jobs) → IsOurs c t.rows → IsIdle (run_of c.id now t).rows
ended-IsIdle now c t h =
    stopped-IsIdle (finished completed none now) c
      (update_rows (λ j. j.id == c.id) (marked now) t).rows (λ j. refl) (marked-IsOurs now c t h)

pub fail-IsIdle :
    (now : ℕ) (jitter : Ratio) (c : ClaimedJob) (error : Text) (rows : List CollectionJob)
    → IsOurs c rows
    → IsIdle (fail now jitter c error rows).1
unfolding fail
fail-IsIdle now jitter c error rows h = elim (Bool-cases (ltb c.attempts c.max_attempts)) [
  | inl e ↦
      rw (e, fail)
        (stopped-IsIdle (retry now (timedelta_us (backoff_seconds c.attempts jitter)) error) c rows
          (λ j. refl) h)
  | inr e ↦ rw (e, fail) (stopped-IsIdle (give_up now error) c rows (λ j. refl) h)
]
