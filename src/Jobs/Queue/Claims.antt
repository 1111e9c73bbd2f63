-- ===== src/Jobs/Queue/Claims.antt =====
-- What `claim` of app/jobs/queue.py takes.
use mathlib.Core.List.{Memᴰ}
use mathlib.Core.Path.{subst}
use mathlib.Core.Bool.{false≢true}
use lead_pipe.Prelude.{
  ℕ, ◌≡◌, ◌↔◌, ◌∙◌, sym, refl, Bool, true, false, none, some, List, [], ◌∷◌, arith, inl, inr,
  Option-cases, Bool-cases, ◌==◌, any, any-false, false_of_any, ◌&&◌,
}
use lead_pipe.Prelude.Texts.{Text}
use lead_pipe.Prelude.Tables.{select, update, select_sound, select_complete}
use lead_pipe.Db.{CollectionJob, Source}
use lead_pipe.Jobs.Queue.{ClaimedJob, claim, oldest, runnable, before, claimed, start}

pub oldest-mem : (js : List CollectionJob) {j : CollectionJob} → oldest js ≡ some j → Memᴰ j js
unfolding oldest
oldest-mem [] h = cc
oldest-mem (i ∷ js) h = elim (Option-cases (oldest js)) [
  | inl e ↦ Memᴰ.head (ground arith)
  | inr (k, e) ↦ elim (Bool-cases (before k i)) [
    | inl b ↦ Memᴰ.tail (oldest-mem js (ground arith))
    | inr b ↦ Memᴰ.head (ground arith)
  ]
]

oldest-none : (js : List CollectionJob) {i : CollectionJob} → oldest js ≡ none → Memᴰ i js → ⊥
unfolding oldest
oldest-none [] h m = elim m [ ]
oldest-none (j ∷ js) h m = elim (Option-cases (oldest js)) [
  | inl e ↦ ground arith
  | inr (k, e) ↦ ground arith
]

before_irrefl : (i : CollectionJob) → before i i ≡ false
before_irrefl i = ground arith

before-asymm : (i j : CollectionJob) → before i j ≡ true → before j i ≡ false
before-asymm i j h = ground arith

not-before_trans :
    (i j k : CollectionJob) → before i j ≡ false → before j k ≡ false → before i k ≡ false
not-before_trans i j k g h = ground arith

-- no row stands before the oldest
oldest-first :
    (js : List CollectionJob) (j i : CollectionJob)
    → oldest js ≡ some j
    → Memᴰ i js
    → before i j ≡ false
unfolding oldest
oldest-first [] j i h m = elim m [ ]
oldest-first (k ∷ js) j i h (Memᴰ.head e) = elim (Option-cases (oldest js)) [
  | inl none_left ↦ subst (λ x. before x j ≡ false) (sym e) (ground (arith, before_irrefl k))
  | inr (o, p) ↦
      subst (λ x. before x j ≡ false) (sym e) (ground (arith, before_irrefl k, before-asymm o k))
]
oldest-first (k ∷ js) j i h (Memᴰ.tail m) = elim (Option-cases (oldest js)) [
  | inl none_left ↦ absurd (oldest-none js none_left m)
  | inr (o, p) ↦
      let ih : before i o ≡ false = oldest-first js o i p m in
      elim (Bool-cases (before o k)) [
        | inl b ↦ subst (λ x. before i x ≡ false) (let e : o ≡ j = ground arith in e) ih
        | inr b ↦
            subst (λ x. before i x ≡ false) (let e : k ≡ j = ground arith in e)
              (not-before_trans i o k ih b)
      ]
]

module _ (sources : List Source) (locked : ℕ → Bool) (now : ℕ) (worker : Text)
    (jobs : List CollectionJob) where
  none_before :
      (i j : CollectionJob)
      → oldest (select (runnable now locked) jobs) ≡ some j
      → Memᴰ i jobs
      → (runnable now locked i && before i j) ≡ false
  none_before i j e m = elim (Bool-cases (runnable now locked i)) [
    | inl r ↦ rw r (oldest-first _ j i e (select_complete (runnable now locked) jobs m r))
    | inr r ↦ rw r refl
  ]

  -- A claim is of a job that may run, and no job that may run was created before it (by time, then
  -- by id). Its row, and no other, is set running for the worker, with one more attempt.
  pub claim-oldest :
      {c : ClaimedJob} {jobs' : List CollectionJob}
      → claim sources locked now worker jobs ≡ (some c, jobs')
      → (j : CollectionJob) × Memᴰ j jobs
        × (runnable now locked j ≡ true)
        × (any (λ i. runnable now locked i && before i j) jobs ≡ false)
        × (c ≡ claimed sources j)
        × (jobs' ≡ update (λ i. i.id == j.id) (start worker now) jobs)
  unfolding claim
  claim-oldest h = elim (Option-cases (oldest (select (runnable now locked) jobs))) [
    | inl e ↦ absurd (ground arith)
    | inr (j, e) ↦ (
      j,
      (select_sound (runnable now locked) jobs (oldest-mem _ e)).0,
      (select_sound (runnable now locked) jobs (oldest-mem _ e)).1,
      any-false (λ i. runnable now locked i && before i j) jobs (λ i m. none_before i j e m),
      ground arith,
      ground arith,
    )
  ]

  none-idle :
      claim sources locked now worker jobs ≡ (none, jobs)
      → (i : CollectionJob) → Memᴰ i jobs
      → runnable now locked i ≡ false
  unfolding claim
  none-idle h i m = elim (Option-cases (oldest (select (runnable now locked) jobs))) [
    | inr (j, e) ↦ absurd (ground arith)
    | inl e ↦ elim (Bool-cases (runnable now locked i)) [
      | inl r ↦ absurd (oldest-none _ e (select_complete (runnable now locked) jobs m r))
      | inr r ↦ r
    ]
  ]

  idle-none :
      ((i : CollectionJob) → Memᴰ i jobs → runnable now locked i ≡ false)
      → claim sources locked now worker jobs ≡ (none, jobs)
  unfolding claim
  idle-none h = elim (Option-cases (oldest (select (runnable now locked) jobs))) [
    | inl e ↦ ground arith
    | inr (j, e) ↦
        let (m, r) = select_sound (runnable now locked) jobs (oldest-mem _ e) in
        absurd (false≢true (sym (h j m) ∙ r))
  ]

  -- No job is claimed exactly when none may run, and then nothing changes.
  pub claim-none_iff :
      (claim sources locked now worker jobs ≡ (none, jobs))
      ↔ (any (runnable now locked) jobs ≡ false)
  claim-none_iff = (
    λ h. any-false (runnable now locked) jobs (λ i. none-idle h i),
    λ h. idle-none (λ i. false_of_any (runnable now locked) jobs h),
  )
