-- ===== src/Prelude/Decimal.antt =====
-- `str(n)` of a number, and that it can be read back.
use lead_pipe.Prelude.Tests.{if◌then◌else◌, ltb, leb, Bool-cases}
use lead_pipe.Prelude.Texts.{Text}
use Prim.Native.Nat.{ℕ, zero, suc, ◌+◌, ◌-◌, ◌*◌, ◌/◌, ◌%◌, ◌<◌}
use mathlib.Core.Path.{◌≡◌, refl, sym, ◌∙◌, ap}
use mathlib.Core.Logic.{inl, inr}
use mathlib.Core.Bool.{Bool, true, false}
use mathlib.Core.List.{[], ◌∷◌, ◌++◌}
use native.Mathlib.Omega.{arith}

-- the last digit is written last; a number has fewer digits than its value and one
unfoldable pub decimal : ℕ → ℕ → Text
decimal zero n = []
decimal (suc fuel) n =
    let rest = decimal fuel (n / 10) in
    if ltb n 10 then (n + 48) ∷ [] else rest ++ (n % 10 + 48) ∷ []

unfoldable pub str : ℕ → Text
unfolding decimal
str n = decimal (suc n) n

-- the number that the digits stand for, after those of `acc`
unfoldable pub value : ℕ → Text → ℕ
value acc [] = acc
value acc (c ∷ s) = value (acc * 10 + (c - 48)) s

value-snoc : (acc : ℕ) (s : Text) (c : ℕ) → value acc (s ++ c ∷ []) ≡ value acc s * 10 + (c - 48)
unfolding value
value-snoc acc [] c = refl
value-snoc acc (d ∷ s) c = value-snoc (acc * 10 + (d - 48)) s c

value-decimal : (fuel n : ℕ) → n < fuel → value 0 (decimal fuel n) ≡ n
unfolding decimal
value-decimal zero n h = absurd (omega arith)
value-decimal (suc fuel) n h = elim (Bool-cases (ltb n 10)) [
  | inl e ↦ rw e (unfold value in omega arith)
  | inr e ↦
      let big : 10 - 1 < n = ground arith in
      rw (e, value-snoc) (omega (arith, value-decimal fuel (n / 10) (omega arith)))
]

-- Different numbers are written differently.
pub str-injective : (m n : ℕ) → str m ≡ str n → m ≡ n
unfolding str
str-injective m n h =
    sym (value-decimal (suc m) m (omega arith))
    ∙ ap (value 0) h
    ∙ value-decimal (suc n) n (omega arith)

-- A number that is written is read back.
pub value-str : (n : ℕ) → value 0 (str n) ≡ n
unfolding str
value-str n = value-decimal (suc n) n (omega arith)

abbrev pub starts_with_digit : Text → Bool
starts_with_digit [] = false
starts_with_digit (c ∷ s) = leb 48 c

starts_with_digit-append :
    (s t : Text) → starts_with_digit s ≡ true → starts_with_digit (s ++ t) ≡ true
starts_with_digit-append [] t h = cc
starts_with_digit-append (c ∷ s) t h = h

decimal-starts : (fuel n : ℕ) → n < fuel → starts_with_digit (decimal fuel n) ≡ true
unfolding decimal
decimal-starts zero n h = absurd (omega arith)
decimal-starts (suc fuel) n h = elim (Bool-cases (ltb n 10)) [
  | inl e ↦ rw e (ground arith)
  | inr e ↦
      let big : 10 - 1 < n = ground arith in
      rw e (
        starts_with_digit-append (decimal fuel (n / 10)) _
          (decimal-starts fuel (n / 10) (omega arith)))
]

pub str-starts : (n : ℕ) → starts_with_digit (str n) ≡ true
unfolding str
str-starts n = decimal-starts (suc n) n (omega arith)
