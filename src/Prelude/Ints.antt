-- ===== src/Prelude/Ints.antt =====
-- Python's integers, over the native numbers: `negsuc n` is -(n + 1).
use Prim.Native.Nat.{ℕ, zero, suc, ◌+◌}
use mathlib.Core.Path.{◌≡◌}
use mathlib.Core.Bool.{Bool, true, false}
use native.Mathlib.Omega.{arith}
use lead_pipe.Prelude.Tests.{leb}
use lead_pipe.Prelude.Orders.{Order}
use lead_pipe.Prelude.Texts.{Text}
use lead_pipe.Prelude.Decimal.{str}
use mathlib.Core.List.{◌∷◌}

pub data ℤ : Type 0 where
  pos : ℕ → ℤ
  negsuc : ℕ → ℤ

-- `n + 1`
abbrev pub next_ℤ : ℤ → ℤ
next_ℤ (pos n) = pos (suc n)
next_ℤ (negsuc zero) = pos 0
next_ℤ (negsuc (suc n)) = negsuc n

-- `str(n)`
unfoldable pub str_ℤ : ℤ → Text
str_ℤ (pos n) = str n
str_ℤ (negsuc n) = 45 ∷ str (suc n)

abbrev pos_part : ℤ → ℕ
pos_part (pos n) = n
pos_part (negsuc n) = 0

abbrev neg_part : ℤ → ℕ
neg_part (pos n) = 0
neg_part (negsuc n) = suc n

abbrev pub le_ℤ : ℤ → ℤ → Bool
le_ℤ a b = leb (pos_part a + neg_part b) (pos_part b + neg_part a)

pub le_ℤ-total : (a b : ℤ) → le_ℤ a b ≡ false → le_ℤ b a ≡ true
le_ℤ-total a b h = ground arith

pub le_ℤ-trans : (a b c : ℤ) → le_ℤ a b ≡ true → le_ℤ b c ≡ true → le_ℤ a c ≡ true
le_ℤ-trans a b c h k = ground arith

pub le_ℤ-antisymm : (a b : ℤ) → le_ℤ a b ≡ true → le_ℤ b a ≡ true → a ≡ b
le_ℤ-antisymm a b h k = ground arith

abbrev pub int_order : Order ℤ
int_order = record {
  le = le_ℤ;
  le_total = le_ℤ-total;
  le_trans = le_ℤ-trans;
  le_antisymm = le_ℤ-antisymm;
}
