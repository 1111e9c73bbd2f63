-- ===== src/Fetch/Limits/Spacing.antt =====
-- How far apart app/fetch/limits.py keeps two requests to one host.
use mathlib.Core.Path.{subst}
use lead_pipe.Prelude.{
  ℕ, ◌+◌, ◌-◌, ◌≤◌, ◌<◌, max, ◌≡◌, refl, false, some, [], ◌∷◌, arith, ◌==◌, Bool-cases, inl, inr,
  sym,
}
use lead_pipe.Prelude.Texts.{Text, text_eq, text_eq_self, text_eq_iff}
use lead_pipe.Domain.{Dict, get, put}
use lead_pipe.Fetch.Limits.{Throttle, Call, next_allowed, wait}

get-put_same : (k : Text) (v : ℕ) (d : Dict ℕ) → get k (put k v d) ≡ some v
unfolding get put
get-put_same k v [] = rw (text_eq_self k) refl
get-put_same k v ((j, x) ∷ d) = elim (Bool-cases (text_eq j k)) [
  | inl e ↦ rw (e, e) refl
  | inr e ↦ rw (e, e) (get-put_same k v d)
]

get-put_other :
    (k j : Text) (v : ℕ) (d : Dict ℕ) → text_eq j k ≡ false → get k (put j v d) ≡ get k d
unfolding get put
get-put_other k j v [] h = rw h refl
get-put_other k j v ((i, x) ∷ d) h = elim (Bool-cases (text_eq i j)) [
  | inl e ↦
      let n : text_eq i k ≡ false =
        subst (λ z. text_eq z k ≡ false) (sym ((text_eq_iff i j).0 e)) h in
      rw (e, n) refl
  | inr e ↦ rw e (rw (get-put_other k j v d h) refl)
]

-- A sleep is at least as long as it was asked to be, as `asyncio.sleep` promises.
abbrev pub Sleeps : Call → Type 0
Sleeps c = (delay : ℕ) → c.now + delay ≤ c.wake delay

-- A sequence of calls, for any hosts.
pub data Waits (own : ℕ) (t : Throttle) : Throttle → Type 0 where
  no_more : Waits own t t
  more : {u : Throttle} (c : Call) → Waits own t u → Sleeps c → Waits own t (wait own c u).throttle

next_allowed-put_same : (k : Text) (v : ℕ) (t : Throttle) → next_allowed k (put k v t) ≡ v
unfolding next_allowed
next_allowed-put_same k v t = rw (next_allowed, get-put_same k v t) refl

next_allowed-put_other :
    (k j : Text) (v : ℕ) (t : Throttle)
    → text_eq j k ≡ false
    → next_allowed k (put j v t) ≡ next_allowed k t
unfolding next_allowed
next_allowed-put_other k j v t h = rw (next_allowed, get-put_other k j v t h) refl

-- the next request to the host is not brought forward
wait_mono :
    (own : ℕ) (c : Call) (host : Text) (t : Throttle)
    → Sleeps c
    → next_allowed host t ≤ next_allowed host (wait own c t).throttle
unfolding wait
wait_mono own c host t s =
    let delay = next_allowed c.host t - c.now in
    let at = c.wake delay + max own c.min_interval in
    elim (Bool-cases (max own c.min_interval == 0)) [
      | inl e ↦ rw e (omega arith)
      | inr e ↦ elim (Bool-cases (text_eq c.host host)) [
        | inl same ↦
            subst (λ h. next_allowed h t ≤ next_allowed h (wait own c t).throttle)
              ((text_eq_iff c.host host).0 same)
              (rw e (rw (next_allowed-put_same c.host at t) (omega (arith, s delay))))
        | inr other ↦ rw e (rw (next_allowed-put_other host c.host at t other) (omega arith))
      ]
    ]

Waits-wait_mono :
    (own : ℕ) (host : Text) {t u : Throttle}
    → Waits own t u
    → next_allowed host t ≤ next_allowed host u
Waits-wait_mono own host no_more = omega arith
Waits-wait_mono own host (more {u} c ws s) =
    omega (arith, Waits-wait_mono own host ws, wait_mono own c host u s)

after_wait :
    (own : ℕ) (c : Call) (t : Throttle)
    → 0 < max own c.min_interval
    → next_allowed c.host (wait own c t).throttle ≡ (wait own c t).released + max own c.min_interval
unfolding wait
after_wait own c t h =
    let e : (max own c.min_interval == 0) ≡ false = ground arith in
    rw e (
      next_allowed-put_same c.host (c.wake (next_allowed c.host t - c.now) + max own c.min_interval)
        t)

waits_long :
    (own : ℕ) (c : Call) (t : Throttle)
    → 0 < max own c.min_interval
    → Sleeps c
    → (next_allowed c.host t ≤ c.now + (wait own c t).delay)
      × (c.now + (wait own c t).delay ≤ (wait own c t).released)
unfolding wait
waits_long own c t h s =
    let e : (max own c.min_interval == 0) ≡ false = ground arith in
    rw e (omega arith, s (next_allowed c.host t - c.now))

-- Where a throttle's calls of `wait` have an interval that is not 0, and a sleep is no shorter than it
-- was asked to be: after a call for a host and any sequence of calls for any hosts, the next call for
-- that host returns a delay that reaches to the first one's interval after it was released, and it
-- is released no earlier.
pub wait-spaced :
    (own : ℕ) (first next : Call) (t u : Throttle)
    → 0 < max own first.min_interval
    → 0 < max own next.min_interval
    → Waits own (wait own first t).throttle u
    → first.host ≡ next.host
    → Sleeps next
    → ((wait own first t).released + max own first.min_interval
        ≤ next.now + (wait own next u).delay)
      × ((wait own first t).released + max own first.min_interval ≤ (wait own next u).released)
wait-spaced own first next t u positive asked between same s =
    let from : (wait own first t).released + max own first.min_interval
        ≤ next_allowed first.host u =
      omega (arith, Waits-wait_mono own first.host between, after_wait own first t positive) in
    let there : (wait own first t).released + max own first.min_interval
        ≤ next_allowed next.host u =
      subst (λ h. (wait own first t).released + max own first.min_interval ≤ next_allowed h u) same
        from in
    let long = waits_long own next u asked s in
    (omega (arith, there, long.0), omega (arith, there, long.0, long.1))
