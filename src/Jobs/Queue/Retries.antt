-- ===== src/Jobs/Queue/Retries.antt =====
-- When `fail` of app/jobs/queue.py lets a job run again.
use native.Mathlib.Nat.{div-add-mod', mod-lt, pow-suc, mul-le-mul_left}
use mathlib.Core.List.{Memᴰ}
use lead_pipe.Prelude.{
  All-mem, ℕ, zero, suc, ◌+◌, ◌-◌, ◌*◌, ◌/◌, ◌%◌, ◌^◌, ◌≤◌, ◌<◌, ◌≡◌, Bool, true, false, List,
  arith, ltb, ◌==◌, All,
}
use lead_pipe.Prelude.Tables.{All-update-All}
use lead_pipe.Prelude.Texts.{Text}
use lead_pipe.Prelude.Ratios.{Ratio, den}
use lead_pipe.Db.{CollectionJob}
use lead_pipe.Jobs.Queue.{
  ClaimedJob, backoff_delay, backoff_seconds, timedelta_us, fail, runnable, retry,
}

-- `q` is the quotient of `n` by `d + 1`
pow_pos : (n : ℕ) → 0 < 2 ^ n
pow_pos zero = omega arith
pow_pos (suc n) = rw pow-suc (omega (arith, pow_pos n))

below_quotient : (a d q r : ℕ) → a * suc d ≤ q * suc d + r → r < suc d → a ≤ q
below_quotient a d q r h k = grind arith

above_quotient : (b d q r : ℕ) → q * suc d + r ≤ b * suc d → (q ≤ b) × (0 < r → q < b)
above_quotient b d q r h = grind arith

backoff_delay_bounds : (n : ℕ) → (5 ≤ backoff_delay n) × (backoff_delay n ≤ 300)
unfolding backoff_delay
backoff_delay_bounds n = grind (arith, pow_pos)

pow_pred_mono : (n : ℕ) → 2 ^ (n - 1) ≤ 2 ^ (n + 1 - 1)
pow_pred_mono zero = omega arith
pow_pred_mono (suc n) =
    let e : suc n - 1 ≡ n = omega arith in
    let f : suc n + 1 - 1 ≡ suc n = omega arith in rw (e, f, pow-suc) (omega arith)

-- One more attempt does not shorten the delay.
backoff_delay_mono : (n : ℕ) → backoff_delay n ≤ backoff_delay (n + 1)
unfolding backoff_delay
backoff_delay_mono n = grind (arith, pow_pred_mono)

timedelta_us_bounds :
    (r : Ratio) (a b : ℕ)
    → a * den r ≤ r.num * 1000000
    → r.num * 1000000 ≤ b * den r
    → (a ≤ timedelta_us r) × (timedelta_us r ≤ b)
unfolding timedelta_us
timedelta_us_bounds r a b h k =
    let n = r.num * 1000000 in
    let e : n / den r * den r + n % den r ≡ n = div-add-mod' n (den r) in
    let l : n % den r < den r = mod-lt n (omega arith) in
    let low : a ≤ n / den r = below_quotient a r.den_pred (n / den r) (n % den r) (rw e h) l in
    let high = above_quotient b r.den_pred (n / den r) (n % den r) (rw e k) in
    ground (arith, low, high.0, high.1)

-- With the jitter below one, a retry waits from half the delay up to the whole.
pub retry_window :
    (n : ℕ) (jitter : Ratio)
    → jitter.num < den jitter
    → (500000 * backoff_delay n ≤ timedelta_us (backoff_seconds n jitter))
      × (timedelta_us (backoff_seconds n jitter) ≤ 1000000 * backoff_delay n)
unfolding backoff_seconds
retry_window n jitter h =
    timedelta_us_bounds (backoff_seconds n jitter) (500000 * backoff_delay n)
      (1000000 * backoff_delay n) (omega arith)
      (omega (
        arith,
        mul-le-mul_left (backoff_delay n) (let l : jitter.num ≤ den jitter = omega arith in l),
      ))

-- The rows of the failed job, after `fail` at the time `now`.
abbrev OfJob : ClaimedJob → (CollectionJob → Type 0) → CollectionJob → Type 0
OfJob c P j = j.id ≡ c.id → P j

module _ (now : ℕ) (jitter : Ratio) (c : ClaimedJob) (error : Text) (locked : ℕ → Bool) (t : ℕ)
    (jobs : List CollectionJob) (fraction : jitter.num < den jitter) where
  soon_idle :
      c.attempts < c.max_attempts
      → t < now + 2500000
      → All (OfJob c (λ j. runnable t locked j ≡ false)) (fail now jitter c error jobs).1
  unfolding fail
  soon_idle h soon =
      let d = timedelta_us (backoff_seconds c.attempts jitter) in
      let less : ltb c.attempts c.max_attempts ≡ true = ground arith in
      let far : 2500000 ≤ d =
        omega (arith, retry_window c.attempts jitter fraction, backoff_delay_bounds c.attempts) in
      rw less (
        All-update-All (OfJob c (λ j. runnable t locked j ≡ false)) (λ j. j.id == c.id)
          (retry now d error) jobs (λ j e _. unfold runnable in ground arith)
          (λ j e same. ground arith))

  -- When a job with attempts left fails, with a jitter below one, no claim takes it in the next two
  -- and a half seconds, whatever rows are locked.
  pub fail-not_runnable_soon :
      (j : CollectionJob)
      → c.attempts < c.max_attempts
      → t < now + 2500000
      → Memᴰ j (fail now jitter c error jobs).1
      → j.id ≡ c.id
      → runnable t locked j ≡ false
  fail-not_runnable_soon j h soon m same = All-mem _ _ (soon_idle h soon) m same

  later_ready :
      c.attempts < c.max_attempts
      → now + 300000000 ≤ t
      → locked c.id ≡ false
      → All (OfJob c (λ j. runnable t locked j ≡ true)) (fail now jitter c error jobs).1
  unfolding fail
  later_ready h late free =
      let d = timedelta_us (backoff_seconds c.attempts jitter) in
      let less : ltb c.attempts c.max_attempts ≡ true = ground arith in
      let near : d ≤ 300000000 =
        omega (arith, retry_window c.attempts jitter fraction, backoff_delay_bounds c.attempts) in
      rw less (
        All-update-All (OfJob c (λ j. runnable t locked j ≡ true)) (λ j. j.id == c.id)
          (retry now d error) jobs (λ j e same. unfold runnable in ground arith)
          (λ j e same. ground arith))

  -- When a job with attempts left fails, with a jitter below one, then five minutes after, and at any
  -- later time, it may run, unless another transaction holds its row.
  pub fail-runnable_later :
      (j : CollectionJob)
      → c.attempts < c.max_attempts
      → now + 300000000 ≤ t
      → locked c.id ≡ false
      → Memᴰ j (fail now jitter c error jobs).1
      → j.id ≡ c.id
      → runnable t locked j ≡ true
  fail-runnable_later j h late free m same = All-mem _ _ (later_ready h late free) m same
