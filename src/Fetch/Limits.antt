-- ===== src/Fetch/Limits.antt =====
-- app/fetch/limits.py: `DomainThrottle`, at most one request per host and interval. Times are in
-- microseconds. A call holds the lock of its host from its first reading of the clock to its last
-- statement, and calls for other hosts use other keys.
pub mod Spacing
use lead_pipe.Prelude.{ℕ, ◌+◌, ◌-◌, max, none, some, ◌==◌, if◌then◌else◌}
use lead_pipe.Prelude.Texts.{Text}
use lead_pipe.Domain.{Dict, get, put}

-- `_next_allowed`
abbrev pub Throttle : Type 0
Throttle = Dict ℕ

-- a call of `wait`, and the clock that it reads
pub record Call : Type 0 where
  pub host : Text
  -- `min_interval` of the call, or 0
  pub min_interval : ℕ
  -- the first reading
  pub now : ℕ
  -- the second reading, after a sleep of the given length
  pub wake : ℕ → ℕ

-- what a call returns, the time at which its caller may go on, and the throttle
pub record Waited : Type 0 where
  pub delay : ℕ
  pub released : ℕ
  pub throttle : Throttle

unfoldable pub next_allowed : Text → Throttle → ℕ
next_allowed host t = elim (get host t) [ none ↦ 0 | some at ↦ at ]

-- `wait` of a throttle with the interval `own`; without an interval it reads no clock
unfoldable pub wait : ℕ → Call → Throttle → Waited
wait own c t =
    let interval = max own c.min_interval in
    let delay = next_allowed c.host t - c.now in
    let woken = c.wake delay in
    if interval == 0
    then record { delay = 0; released = c.now; throttle = t }
    else record { delay = delay; released = woken; throttle = put c.host (woken + interval) t }
