-- ===== src/Config/Loader/Templates.antt =====
-- The references that app/config/loader.py replaces, against the templates that they are written in.
use native.Mathlib.Nat.{le_refl}
use lead_pipe.Prelude.{
  ℕ, zero, suc, ◌≤◌, ◌≡◌, refl, sym, Bool, true, false, Option, none, some, List, [], ◌∷◌, ◌++◌,
  arith, ◌==◌, all, length, length-append, if◌then◌else◌,
}
use lead_pipe.Prelude.Texts.{Text, codes}
use lead_pipe.Config.Loader.{
  Interpolated, interpolated, not_set, is_name_start, is_name_char, span, after_name, match_ref,
  prepend, resolved, before_rest, substitute_in, substitute,
}

-- a part of a template: text, or a variable with a default or without
pub data Segment : Type 0 where
  plain : Text → Segment
  variable : Text → Option Text → Segment

-- the text of a segment before the rest
abbrev pub written : Segment → Text → Text
written (plain t) rest = t ++ rest
written (variable name none) rest = codes "${" ++ (name ++ (codes "}" ++ rest))
written (variable name (some default)) rest =
    codes "${" ++ (name ++ (codes ":-" ++ (default ++ (codes "}" ++ rest))))

abbrev pub template : List Segment → Text
template [] = []
template (s ∷ segments) = written s (template segments)

-- what stands for a segment: its text, the variable's value, or its default
abbrev pub value_of : (Text → Option Text) → Segment → Interpolated Text
value_of env (plain t) = interpolated t
value_of env (variable name default) = resolved name (env name) default

-- the values, one after the other, up to the first variable that is not set
abbrev pub filled : (Text → Option Text) → List Segment → Interpolated Text
filled env [] = interpolated []
filled env (s ∷ segments) = before_rest (value_of env s) (filled env segments)

abbrev pub is_name : Text → Bool
is_name [] = false
is_name (c ∷ s) = if is_name_start c then all is_name_char (c ∷ s) else false

abbrev pub is_not : ℕ → ℕ → Bool
is_not c d = if d == c then false else true

-- text without `$`, a name that is one, and a default without `}`
abbrev pub is_segment : Segment → Bool
is_segment (plain t) = all (is_not 36) t
is_segment (variable name none) = is_name name
is_segment (variable name (some default)) = if is_name name then all (is_not 125) default else false

span-append :
    (p : ℕ → Bool) (t : Text) (c : ℕ) (rest : Text)
    → all p t ≡ true
    → p c ≡ false
    → span p (t ++ c ∷ rest) ≡ (t, c ∷ rest)
unfolding span
span-append p [] c rest h k = rw k refl
span-append p (x ∷ t) c rest h k =
    let first : p x ≡ true = ground arith in
    rw (first, span-append p t c rest (ground arith) k) refl

match_ref-none : (c : ℕ) (s : Text) → is_not 36 c ≡ true → match_ref (c ∷ s) ≡ none
unfolding match_ref
match_ref-none c [] h = refl
match_ref-none c (d ∷ s) h = let e : (c == 36) ≡ false = ground arith in rw e refl

after_name-plain :
    (name rest : Text)
    → is_name name ≡ true
    → after_name (name, 125 ∷ rest) ≡ some (record { name = name; default = none; rest = rest })
after_name-plain [] rest h = cc
after_name-plain (c ∷ name) [] h = let e : is_name_start c ≡ true = ground arith in rw e refl
after_name-plain (c ∷ name) (d ∷ rest) h =
    let e : is_name_start c ≡ true = ground arith in rw e refl

after_name-default :
    (name default rest : Text)
    → is_name name ≡ true
    → all (is_not 125) default ≡ true
    → after_name (name, 58 ∷ 45 ∷ (default ++ 125 ∷ rest))
      ≡ some (record { name = name; default = some default; rest = rest })
after_name-default [] default rest h k = cc
after_name-default (c ∷ name) default rest h k =
    let e : is_name_start c ≡ true = ground arith in
    rw (e, span-append (is_not 125) default 125 rest k refl) refl

all_of_name : (name : Text) → is_name name ≡ true → all is_name_char name ≡ true
all_of_name [] h = refl
all_of_name (c ∷ name) h = ground arith

match_ref-written :
    (name : Text) (default : Option Text) (rest : Text)
    → is_segment (variable name default) ≡ true
    → match_ref (written (variable name default) rest)
      ≡ some (record { name = name; default = default; rest = rest })
unfolding match_ref
match_ref-written name none rest h =
    rw (span-append is_name_char name 125 rest (all_of_name name h) refl)
      (after_name-plain name rest h)
match_ref-written name (some default) rest h =
    let named : is_name name ≡ true = ground arith in
    rw
      (span-append is_name_char name 58 (45 ∷ (default ++ 125 ∷ rest)) (all_of_name name named)
        refl)
      (after_name-default name default rest named (rw named at h))

prepend_empty : (r : Interpolated Text) → prepend [] r ≡ r
prepend_empty (interpolated s) = refl
prepend_empty (not_set name) = refl

prepend-prepend :
    (c : ℕ) (t : Text) (r : Interpolated Text) → prepend (c ∷ []) (prepend t r) ≡ prepend (c ∷ t) r
prepend-prepend c t (interpolated s) = refl
prepend-prepend c t (not_set name) = refl

module _ (env : Text → Option Text) where
  plain-step :
      (k : ℕ) (t rest : Text) (r : Interpolated Text)
      → length (t ++ rest) ≤ k
      → all (is_not 36) t ≡ true
      → ((n : ℕ) → length rest ≤ n → substitute_in n env rest ≡ r)
      → substitute_in k env (t ++ rest) ≡ prepend t r
  unfolding substitute_in
  plain-step k [] rest r h ok next = rw (next k h) (sym (prepend_empty r))
  plain-step zero (c ∷ t) rest r h ok next = absurd (omega arith)
  plain-step (suc k) (c ∷ t) rest r h ok next =
      rw
        (
          substitute_in,
          match_ref-none c (t ++ rest) (ground arith),
          plain-step k t rest r (omega arith) (ground arith) next,
        )
        (prepend-prepend c t r)

  written-step :
      (s : Segment) (k : ℕ) (rest : Text) (r : Interpolated Text)
      → length (written s rest) ≤ k
      → is_segment s ≡ true
      → ((n : ℕ) → length rest ≤ n → substitute_in n env rest ≡ r)
      → substitute_in k env (written s rest) ≡ before_rest (value_of env s) r
  unfolding substitute_in
  written-step (plain t) k rest r h ok next = plain-step k t rest r h ok next
  written-step (variable name none) zero rest r h ok next = absurd (omega arith)
  written-step (variable name (some d)) zero rest r h ok next = absurd (omega arith)
  written-step (variable name none) (suc k) rest r h ok next =
      rw
        (
          substitute_in,
          match_ref-written name none rest ok,
          next k (omega (arith, length-append name (125 ∷ rest))),
        )
        refl
  written-step (variable name (some d)) (suc k) rest r h ok next =
      rw
        (
          substitute_in,
          match_ref-written name (some d) rest ok,
          next k (
              omega (
                arith,
                length-append name (58 ∷ 45 ∷ (d ++ 125 ∷ rest)),
                length-append d (125 ∷ rest),
              )),
        )
        refl

  template-filled :
      (segments : List Segment) (k : ℕ)
      → length (template segments) ≤ k
      → all is_segment segments ≡ true
      → substitute_in k env (template segments) ≡ filled env segments
  unfolding substitute_in
  template-filled [] zero h ok = refl
  template-filled [] (suc k) h ok = refl
  template-filled (s ∷ segments) k h ok =
      written-step s k (template segments) (filled env segments) h (ground arith)
        (λ n fits. template-filled segments n fits (ground arith))

  -- A template of texts without `$` and of references to variables, with defaults without `}` or with
  -- none, is replaced by the texts and the values: a variable's own value if it is set, else its
  -- default; the first variable that has neither is the error. As many steps as the template has
  -- characters are enough.
  pub substitute-template :
      (segments : List Segment)
      → all is_segment segments ≡ true
      → substitute env (template segments) ≡ filled env segments
  unfolding substitute
  substitute-template segments ok =
      template-filled segments (length (template segments)) (le_refl _) ok
