-- ===== src/Normalization/Cleaning.antt =====
-- app/normalization/text.py
use mathlib.Core.Path.{subst}
use lead_pipe.Prelude.{
  ℕ, ◌≡◌, refl, Bool, true, false, not, ◌&&◌, Option, none, some, [], ◌∷◌, arith, ◌==◌,
  if◌then◌else◌,
}
use lead_pipe.Prelude.Texts.{
  Text, is_space, strip_by, lstrip_by, rstrip_by, cons_unless, or_none, truthy, or_none-some,
  or_none_of_truthy,
}

-- `re.sub(r"\s+", " ", s)`: `inside` says whether the last character was white
unfoldable pub collapse : Bool → Text → Text
collapse inside [] = []
collapse inside (c ∷ s) =
    let rest = collapse (is_space c) s in
    if is_space c then (if inside then rest else 32 ∷ rest) else c ∷ rest

unfoldable pub clean_text : Option Text → Option Text
clean_text none = none
clean_text (some value) = or_none (strip_by is_space (collapse false value))

unfoldable pub normalize_company_name : Option Text → Option Text
normalize_company_name value = clean_text value

unfoldable pub normalize_person_name : Option Text → Option Text
normalize_person_name value = clean_text value

-- No white character but single blanks.
tidy : Bool → Text → Bool
tidy inside [] = true
tidy inside (c ∷ s) =
    let rest = tidy (is_space c) s in if is_space c then not inside && c == 32 && rest else rest

blank : is_space 32 ≡ true
unfolding is_space
blank = refl

collapse-tidy : (inside : Bool) (s : Text) → tidy inside (collapse inside s) ≡ true
unfolding tidy collapse
collapse-tidy inside [] = refl
collapse-tidy true (c ∷ s) = ground (arith, collapse-tidy (is_space c) s, blank)
collapse-tidy false (c ∷ s) = ground (arith, collapse-tidy (is_space c) s, blank)

collapse_of_tidy : (inside : Bool) (s : Text) → tidy inside s ≡ true → collapse inside s ≡ s
unfolding tidy collapse
collapse_of_tidy inside [] h = refl
collapse_of_tidy inside (c ∷ s) h = ground (arith, collapse_of_tidy (is_space c) s)

tidy-weaken : (s : Text) → tidy true s ≡ true → tidy false s ≡ true
unfolding tidy
tidy-weaken [] h = refl
tidy-weaken (c ∷ s) h = ground arith

tidy-lstrip :
    (inside : Bool) (s : Text) → tidy inside s ≡ true → tidy false (lstrip_by is_space s) ≡ true
unfolding tidy lstrip_by
tidy-lstrip inside [] h = refl
tidy-lstrip inside (c ∷ s) h = ground (arith, tidy-lstrip (is_space c) s)

cons_unless-tidy :
    (inside : Bool) (c : ℕ) (s t : Text)
    → tidy inside (c ∷ s) ≡ true
    → (tidy (is_space c) s ≡ true → tidy (is_space c) t ≡ true)
    → tidy inside (cons_unless is_space c t) ≡ true
unfolding tidy
cons_unless-tidy inside c s [] h k = ground arith
cons_unless-tidy inside c s (d ∷ t) h k = ground arith

tidy-rstrip :
    (inside : Bool) (s : Text) → tidy inside s ≡ true → tidy inside (rstrip_by is_space s) ≡ true
unfolding rstrip_by
tidy-rstrip inside [] h = h
tidy-rstrip inside (c ∷ s) h =
    cons_unless-tidy inside c s (rstrip_by is_space s) h (tidy-rstrip (is_space c) s)

-- Stripping leaves nothing to strip.
starts_black : Text → Bool
starts_black [] = true
starts_black (c ∷ s) = not (is_space c)

lstrip-starts_black : (s : Text) → starts_black (lstrip_by is_space s) ≡ true
unfolding starts_black lstrip_by
lstrip-starts_black [] = refl
lstrip-starts_black (c ∷ s) = ground (arith, lstrip-starts_black s)

lstrip_of_starts_black : (s : Text) → starts_black s ≡ true → lstrip_by is_space s ≡ s
unfolding starts_black lstrip_by
lstrip_of_starts_black [] h = refl
lstrip_of_starts_black (c ∷ s) h = ground arith

cons_unless-starts_black :
    (c : ℕ) (s : Text) → is_space c ≡ false → starts_black (cons_unless is_space c s) ≡ true
unfolding starts_black
cons_unless-starts_black c [] h = ground arith
cons_unless-starts_black c (d ∷ s) h = ground arith

rstrip-starts_black :
    (s : Text) → starts_black s ≡ true → starts_black (rstrip_by is_space s) ≡ true
unfolding rstrip_by
rstrip-starts_black [] h = h
rstrip-starts_black (c ∷ s) h =
    cons_unless-starts_black c (rstrip_by is_space s) (unfold starts_black in ground arith)

rstrip_cons_unless :
    (c : ℕ) (s : Text)
    → rstrip_by is_space s ≡ s
    → rstrip_by is_space (cons_unless is_space c s) ≡ cons_unless is_space c s
unfolding rstrip_by
rstrip_cons_unless c [] h = ground arith
rstrip_cons_unless c (d ∷ s) h = rw h

rstrip-rstrip : (s : Text) → rstrip_by is_space (rstrip_by is_space s) ≡ rstrip_by is_space s
unfolding rstrip_by
rstrip-rstrip [] = refl
rstrip-rstrip (c ∷ s) = rstrip_cons_unless c (rstrip_by is_space s) (rstrip-rstrip s)

-- what is stripped has nothing to strip
pub strip-strip : (s : Text) → strip_by is_space (strip_by is_space s) ≡ strip_by is_space s
unfolding strip_by
strip-strip s =
    let l = lstrip_by is_space s in
    let black = rstrip-starts_black l (lstrip-starts_black s) in
    rw (lstrip_of_starts_black (rstrip_by is_space l) black) (rstrip-rstrip l)

-- What `clean_text` makes of a text, before the empty one becomes `None`.
cleaned : Text → Text
unfolding strip_by
cleaned s = strip_by is_space (collapse false s)

-- A cleaned text has nothing to collapse or to strip.
pub record IsClean (t : Text) : Type 0 where
  pub collapsed : collapse false t ≡ t
  pub stripped : strip_by is_space t ≡ t

cleaned-IsClean : (s : Text) → IsClean (cleaned s)
unfolding cleaned strip_by
cleaned-IsClean s =
    let l = lstrip_by is_space (collapse false s) in
    let black = rstrip-starts_black l (lstrip-starts_black (collapse false s)) in
    record {
      collapsed =
          collapse_of_tidy false (rstrip_by is_space l)
            (tidy-rstrip false l (tidy-lstrip false (collapse false s) (collapse-tidy false s)));
      stripped = rw (lstrip_of_starts_black (rstrip_by is_space l) black) (rstrip-rstrip l);
    }

-- What `clean_text` returns is clean and is not empty.
pub clean_text-IsClean :
    (value : Option Text) (t : Text) → clean_text value ≡ some t → IsClean t × (truthy t ≡ true)
unfolding clean_text
clean_text-IsClean none t h = cc
clean_text-IsClean (some v) t h =
    let (e, full) = or_none-some (strip_by is_space (collapse false v)) h in
    (subst IsClean e (unfold cleaned in cleaned-IsClean v), full)

pub clean_text_of_IsClean : (t : Text) → IsClean t → truthy t ≡ true → clean_text (some t) ≡ some t
unfolding clean_text
clean_text_of_IsClean t h full = rw (h.collapsed, h.stripped) (or_none_of_truthy t full)
