-- ===== src/Prelude/Unicode.antt =====
-- The methods of Python's `str` that read the tables of Unicode are the operations of an interface.
-- `ascii` has their values on ASCII texts, for the tests.
use Prim.Native.Nat.{ℕ, ◌+◌, ◌-◌}
use mathlib.Core.Bool.{Bool, false, ◌&&◌, ◌||◌, not}
use mathlib.Core.List.{[], ◌∷◌, map}
use lead_pipe.Prelude.Tests.{if◌then◌else◌, leb}
use lead_pipe.Prelude.Lists.{any, all}
use lead_pipe.Prelude.Texts.{Text, truthy}

pub record Unicode : Type 0 where
  pub lower : Text → Text
  pub upper : Text → Text
  pub casefold : Text → Text
  pub title : Text → Text
  pub is_alpha : Text → Bool
  pub is_upper : Text → Bool
  pub is_lower : Text → Bool
  pub is_digit : Text → Bool

abbrev upper_letter : ℕ → Bool
upper_letter c = leb 65 c && leb c 90

abbrev lower_letter : ℕ → Bool
lower_letter c = leb 97 c && leb c 122

abbrev letter : ℕ → Bool
letter c = upper_letter c || lower_letter c

abbrev to_lower : ℕ → ℕ
to_lower c = if upper_letter c then c + 32 else c

abbrev to_upper : ℕ → ℕ
to_upper c = if lower_letter c then c - 32 else c

abbrev pub title_from : Bool → Text → Text
title_from inside [] = []
title_from inside (c ∷ s) = (if inside then to_lower c else to_upper c) ∷ title_from (letter c) s

instance abbrev pub ascii : Unicode
ascii = record {
  lower = map to_lower;
  upper = map to_upper;
  casefold = map to_lower;
  title = title_from false;
  is_alpha = λ s. truthy s && all letter s;
  is_upper = λ s. any upper_letter s && not (any lower_letter s);
  is_lower = λ s. any lower_letter s && not (any upper_letter s);
  is_digit = λ s. truthy s && all (λ c. leb 48 c && leb c 57) s;
}
