-- ===== src/Jobs/Queue/Terminal.antt =====
-- What stays of a job that `fail` of app/jobs/queue.py gives up, while clients go on to act.
use mathlib.Core.List.{Memᴰ}
use lead_pipe.Prelude.{
  Option, none, Option-cases, inl, inr, ℕ, ◌≤◌, ◌<◌, ◌≡◌, ◌≢◌, ◌∙◌, refl, Bool, true, false, ◌&&◌,
  some, List, arith, ltb, ◌==◌, All, All-mem, All-append, Bool-cases, not_some,
}
use lead_pipe.Prelude.Ratios.{Ratio}
use lead_pipe.Prelude.Texts.{Text, codes}
use lead_pipe.Prelude.Tables.{
  select, update, All-update, All-update_mem, All-update-All, select_sound,
}
use lead_pipe.Db.{CollectionJob, Source, failed}
use lead_pipe.Jobs.Queue.{
  ClaimedJob, claim, claimed, heartbeat, fail, recover_stale, stale, exhausted, requeue, give_up,
  runnable, start, oldest,
}
use lead_pipe.Jobs.Queue.Claims.{oldest-mem}
use lead_pipe.Jobs.Queue.Lifecycle.{
  Holds, Jobs, with_rows, Work, claim_one, beat, begin, finish, fail_held, recover, Step, create,
  work, Reach, Reach-Inv,
}

-- Any number of transactions, one after the other.
pub data Steps (t : Jobs) : Jobs → Type 0 where
  done : Steps t t
  more : {u v : Jobs} → Steps t u → Step u v → Steps t v

-- the id of the job that a claim takes
abbrev pub taken_id : Option ClaimedJob → Option ℕ
taken_id none = none
taken_id (some d) = some d.id

module _ (id : ℕ) where
  -- the rows of the job are failed
  abbrev Dead : CollectionJob → Type 0
  Dead j = j.id ≡ id → j.status ≡ failed

  -- what stays: the job is failed, and no new job gets its id
  record Buried (t : Jobs) : Type 0 where
    past : id < t.next_id
    dead : All Dead t.rows

  runnable-alive :
      (now : ℕ) (locked : ℕ → Bool) (j : CollectionJob)
      → Dead j
      → runnable now locked j ≡ true
      → j.id ≢ id
  unfolding runnable
  runnable-alive now locked j d r same = ground (arith, d same)

  claim-alive :
      (sources : List Source) (locked : ℕ → Bool) (now : ℕ) (worker : Text) (t : Jobs)
      (d : ClaimedJob)
      → All Dead t.rows
      → (claim sources locked now worker t.rows).0 ≡ some d
      → d.id ≢ id
  unfolding claim claimed
  claim-alive sources locked now worker t d h e =
      elim (Option-cases (oldest (select (runnable now locked) t.rows))) [
        | inl n ↦ absurd (not_some (rw (n, claim) at e))
        | inr (j, o) ↦
            let (m, r) = select_sound (runnable now locked) t.rows (oldest-mem _ o) in
            let alive = runnable-alive now locked j (All-mem Dead t.rows h m) r in
            let k : some (claimed sources j) ≡ some d = rw (o, claim) at e in
            let i : j.id ≡ d.id = cc in λ same. alive (i ∙ same)
      ]

  claim-Buried :
      (sources : List Source) (locked : ℕ → Bool) (now : ℕ) (worker : Text) (t : Jobs)
      → Buried t
      → Buried (with_rows t (claim sources locked now worker t.rows).1)
  unfolding claim
  claim-Buried sources locked now worker t h =
      elim (Option-cases (oldest (select (runnable now locked) t.rows))) [
        | inl e ↦ rw (e, claim) (record { past = h.past; dead = h.dead })
        | inr (j, e) ↦
            let (m, r) = select_sound (runnable now locked) t.rows (oldest-mem _ e) in
            let alive = runnable-alive now locked j (All-mem Dead t.rows h.dead m) r in
            rw (e, claim)
              (record {
                past = h.past;
                dead =
                    All-update Dead (λ i. i.id == j.id) (start worker now) t.rows
                      (λ i d same. unfold start in ground (arith, alive)) h.dead;
              })
      ]

  -- a worker that holds a job does not hold this one
  held-Dead :
      (c : ClaimedJob) (f : CollectionJob → CollectionJob) (rows : List CollectionJob)
      → ((j : CollectionJob) → (f j).id ≡ j.id)
      → Holds c rows
      → All Dead rows
      → All Dead (update (λ j. j.id == c.id) f rows)
  held-Dead c f rows keeps holds h =
      All-update_mem Dead (λ j. j.id == c.id) f rows
        (λ j m d same. ground (arith, All-mem _ rows holds m, keeps j)) h

  fail-Buried :
      (now : ℕ) (jitter : Ratio) (c : ClaimedJob) (error : Text) (t : Jobs)
      → Holds c t.rows
      → Buried t
      → Buried (with_rows t (fail now jitter c error t.rows).1)
  unfolding fail
  fail-Buried now jitter c error t holds h = elim (Bool-cases (ltb c.attempts c.max_attempts)) [
    | inl e ↦
        rw (e, fail)
          (record { past = h.past; dead = held-Dead c _ t.rows (λ j. refl) holds h.dead })
    | inr e ↦
        rw (e, fail)
          (record { past = h.past; dead = held-Dead c _ t.rows (λ j. refl) holds h.dead })
  ]

  recover-Buried :
      (now stale_after : ℕ) (t : Jobs)
      → Buried t
      → Buried (with_rows t (recover_stale now stale_after t.rows).1)
  unfolding recover_stale
  recover-Buried now stale_after t h =
      let gone = λ (j : CollectionJob). stale now stale_after j && exhausted j in
      let bury = give_up now (codes "worker stopped responding") in
      record {
        past = h.past;
        dead =
            All-update Dead (stale now stale_after) requeue (update gone bury t.rows)
              (λ j d old. unfold stale in ground (arith, d))
              (All-update Dead gone bury t.rows (λ j d old same. refl) h.dead);
      }

  Work-Buried : {t u : Jobs} → Work t u → Buried t → Buried u
  Work-Buried {t} (claim_one sources locked now worker) h =
      claim-Buried sources locked now worker t h
  Work-Buried {t} (beat now job) h =
      unfold heartbeat in
      record { past = h.past; dead = All-update Dead _ _ t.rows (λ j d _. d) h.dead }
  Work-Buried {t} (begin now c holds) h = record {
    past = h.past;
    dead = held-Dead c _ t.rows (λ j. refl) holds h.dead;
  }
  Work-Buried {t} (finish now c holds) h = record {
    past = h.past;
    dead = held-Dead c _ t.rows (λ j. refl) holds h.dead;
  }
  Work-Buried {t} (fail_held now jitter c error holds) h = fail-Buried now jitter c error t holds h
  Work-Buried {t} (recover now stale_after) h = recover-Buried now stale_after t h

  Step-Buried : {t u : Jobs} → Step t u → Buried t → Buried u
  Step-Buried {t} (create source_id now) h = record {
    past = let p = h.past in omega arith;
    dead = All-append Dead t.rows _ h.dead ((λ same. let p = h.past in ground arith), tt);
  }
  Step-Buried (work w) h = Work-Buried w h

  Steps-Buried : {t u : Jobs} → Steps t u → Buried t → Buried u
  Steps-Buried done h = h
  Steps-Buried (more r s) h = Step-Buried s (Steps-Buried r h)

given_up :
    (now : ℕ) (jitter : Ratio) (c : ClaimedJob) (error : Text) (rows : List CollectionJob)
    → c.max_attempts ≤ c.attempts
    → All (Dead c.id) (fail now jitter c error rows).1
unfolding fail
given_up now jitter c error rows used =
    let none_left : ltb c.attempts c.max_attempts ≡ false = ground arith in
    rw none_left (
      All-update-All (Dead c.id) (λ j. j.id == c.id) (give_up now error) rows (λ j e same. refl)
        (λ j e same. ground arith))

-- A job of the table that fails with no attempts left stays failed through any transactions of clients
-- after that, where workers start, finish and fail only jobs that they hold, and no claim takes it
-- afterwards, at any time and whatever rows are locked.
pub fail-terminal :
    (now : ℕ) (jitter : Ratio) (c : ClaimedJob) (error : Text) {t u : Jobs} (j k : CollectionJob)
    (sources : List Source) (locked : ℕ → Bool) (later : ℕ) (worker : Text)
    → Reach t
    → Memᴰ j t.rows
    → j.id ≡ c.id
    → c.max_attempts ≤ c.attempts
    → Steps (with_rows t (fail now jitter c error t.rows).1) u
    → Memᴰ k u.rows
    → k.id ≡ c.id
    → (k.status ≡ failed) × (taken_id (claim sources locked later worker u.rows).0 ≢ some c.id)
fail-terminal now jitter c error {t} {u} j k sources locked later worker r m same used steps n is =
    let before = All-mem _ t.rows (Reach-Inv r).table.fresh m in
    let buried =
      Steps-Buried c.id steps
        (record { past = ground arith; dead = given_up now jitter c error t.rows used }) in
    (
      All-mem _ u.rows buried.dead n is,
      λ taken. elim (Option-cases (claim sources locked later worker u.rows).0) [
        | inl e ↦ not_some (rw e at taken)
        | inr (d, e) ↦
            let i : d.id ≡ c.id = (let s : some d.id ≡ some c.id = rw e at taken in cc) in
            claim-alive c.id sources locked later worker u d buried.dead e i
      ],
    )
