-- ===== src/Prelude/Ratios.antt =====
-- Fractions for the program's floats, compared exactly, and the rounding of a fraction. The floats
-- of the program are quotients of small integers and decimal literals: division rounds to nearest,
-- which is monotone, so the comparisons of the floats are those of the fractions.
use Prim.Native.Nat.{ℕ, zero, suc, ◌*◌, ◌≤◌, ◌<◌}
use mathlib.Core.Path.{◌≡◌}
use mathlib.Core.Bool.{Bool}
use native.Mathlib.Omega.{arith}
use native.Mathlib.Nat.{mul-le-mul_right, lt_of_mul-lt-mul_left}
use mathlib.Core.Bool.{true, false}
use mathlib.Core.Logic.{inl, inr}
use lead_pipe.Prelude.Tests.{Bool-cases, if◌then◌else◌, ltb, leb}

pub record Ratio : Type 0 where
  pub num : ℕ
  -- the denominator less one, so that it is not zero
  pub den_pred : ℕ

abbrev pub den : Ratio → ℕ
den r = suc r.den_pred

abbrev pub percent : ℕ → Ratio
percent n = record { num = n; den_pred = 99 }

-- `a / b` for `b` above zero
abbrev pub ratio : ℕ → ℕ → Ratio
ratio a zero = record { num = 0; den_pred = 0 }
ratio a (suc b) = record { num = a; den_pred = b }

abbrev pub ratio_lt : Ratio → Ratio → Bool
ratio_lt a b = ltb (a.num * den b) (b.num * den a)

abbrev pub ratio_le : Ratio → Ratio → Bool
ratio_le a b = leb (a.num * den b) (b.num * den a)

-- `min(a, b)`
abbrev pub ratio_min : Ratio → Ratio → Ratio
ratio_min a b = if ratio_lt b a then b else a

-- What is at most `b` is below all that `b` is below.
lt_of_le_lt : (a b c : Ratio) → ratio_lt b a ≡ false → ratio_lt b c ≡ true → ratio_le c a ≡ false
lt_of_le_lt a b c h k =
    let le : a.num * den b ≤ b.num * den a = ground arith in
    let lt : b.num * den c < c.num * den b = ground arith in
    let scaled_le : a.num * den b * den c ≤ b.num * den a * den c = mul-le-mul_right (den c) le in
    let scaled_lt : suc (b.num * den c) * den a ≤ c.num * den b * den a =
      mul-le-mul_right (den a) lt in
    let less : den b * (a.num * den c) < den b * (c.num * den a) =
      omega (arith, scaled_le, scaled_lt) in
    let found : a.num * den c < c.num * den a = lt_of_mul-lt-mul_left (den b) less in ground arith

-- A capped value stays below what the cap is below.
pub capped_below :
    (score cap threshold : Ratio)
    → ratio_lt cap threshold ≡ true
    → ratio_le threshold (ratio_min score cap) ≡ false
capped_below score cap threshold h = elim (Bool-cases (ratio_lt cap score)) [
  | inl e ↦ rw e (ground arith)
  | inr e ↦ rw e (lt_of_le_lt score cap threshold e h)
]
