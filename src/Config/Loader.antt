-- ===== src/Config/Loader.antt =====
-- app/config/loader.py: the references to environment variables in a configuration. What YAML reads and
-- what `os.getenv` finds are arguments.
pub mod Templates
use lead_pipe.Prelude.{
  ℕ, zero, suc, Bool, true, false, ◌&&◌, ◌||◌, Option, none, some, List, [], ◌∷◌, ◌++◌, ◌==◌, leb,
  length, if◌then◌else◌,
}
use lead_pipe.Prelude.Texts.{Text, codes, starts_with}
use lead_pipe.Domain.{
  Json, null, boolean, number, text, array, object, Items, nil, cons, Members, end, member,
}

-- a value, or the `ConfigError` of the variable that is not set
pub data Interpolated {ℓ} (A : Type ℓ) : Type ℓ where
  interpolated : A → Interpolated A
  not_set : Text → Interpolated A

-- `[A-Za-z_]`, and with the digits
abbrev pub is_name_start : ℕ → Bool
is_name_start c = (leb 65 c && leb c 90) || (leb 97 c && leb c 122) || c == 95

abbrev pub is_name_char : ℕ → Bool
is_name_char c = is_name_start c || (leb 48 c && leb c 57)

-- the longest beginning whose characters pass, and the rest
unfoldable pub span : (ℕ → Bool) → Text → Text × Text
span p [] = ([], [])
span p (c ∷ s) = let (before, after) = span p s in if p c then (c ∷ before, after) else ([], c ∷ s)

-- what a match of `_ENV_REF` captures, and what is after it
pub record Ref : Type 0 where
  pub name : Text
  pub default : Option Text
  pub rest : Text

-- after the name: the brace, or `:-`, a default without braces that close, and the brace
abbrev default_end : Text → Text × Text → Option Ref
default_end name (default, []) = none
default_end name (default, c ∷ rest) =
    some (record { name = name; default = some default; rest = rest })

abbrev name_end : Text → Text → Option Ref
name_end name [] = none
name_end name (c ∷ []) =
    if c == 125 then some (record { name = name; default = none; rest = [] }) else none
name_end name (c ∷ d ∷ rest) =
    if c == 125
    then some (record { name = name; default = none; rest = d ∷ rest })
    else if c == 58 && d == 45
    then default_end name (span (λ x. if x == 125 then false else true) rest)
    else none

abbrev after_name : Text × Text → Option Ref
after_name ([], after) = none
after_name (c ∷ name, after) = if is_name_start c then name_end (c ∷ name) after else none

-- a match of `_ENV_REF` at the start of the text
unfoldable pub match_ref : Text → Option Ref
unfolding span
match_ref [] = none
match_ref (c ∷ []) = none
match_ref (c ∷ d ∷ s) = if c == 36 && d == 123 then after_name (span is_name_char s) else none

abbrev pub prepend : Text → Interpolated Text → Interpolated Text
prepend t (interpolated s) = interpolated (t ++ s)
prepend t (not_set name) = not_set name

-- `_replace`: the variable's value if it is set, else the default, else the error
abbrev pub resolved : Text → Option Text → Option Text → Interpolated Text
resolved name (some v) default = interpolated v
resolved name none (some v) = interpolated v
resolved name none none = not_set name

-- what replaces a match, and then the rest of the text
abbrev pub before_rest : Interpolated Text → Interpolated Text → Interpolated Text
before_rest (interpolated v) rest = prepend v rest
before_rest (not_set name) rest = not_set name

-- `_ENV_REF.sub(_replace, text)`: from left to right, with as many steps as the text has characters
unfoldable pub substitute_in : ℕ → (Text → Option Text) → Text → Interpolated Text
substitute_in zero env s = interpolated s
substitute_in (suc k) env [] = interpolated []
substitute_in (suc k) env (c ∷ s) = elim (match_ref (c ∷ s)) [
  | some r ↦ before_rest (resolved r.name (env r.name) r.default) (substitute_in k env r.rest)
  | none ↦ prepend (c ∷ []) (substitute_in k env s)
]

unfoldable pub substitute : (Text → Option Text) → Text → Interpolated Text
substitute env s = substitute_in (length s) env s

abbrev onto {ℓ κ} : {A : Type ℓ} {B : Type κ} → (A → B) → Interpolated A → Interpolated B
onto f (interpolated a) = interpolated (f a)
onto f (not_set name) = not_set name

abbrev both {ℓ κ μ} :
    {A : Type ℓ} {B : Type κ} {C : Type μ}
    → (A → B → C)
    → Interpolated A
    → Interpolated B
    → Interpolated C
both f (not_set name) b = not_set name
both f (interpolated a) (not_set name) = not_set name
both f (interpolated a) (interpolated b) = interpolated (f a b)

unfoldable mutual
  -- `interpolate`; keys stay as they are
  pub interpolate : (Text → Option Text) → Json → Interpolated Json
  interpolate env null = interpolated null
  interpolate env (boolean b) = interpolated (boolean b)
  interpolate env (number n) = interpolated (number n)
  interpolate env (text s) = onto text (substitute env s)
  interpolate env (array vs) = onto array (interpolate_items env vs)
  interpolate env (object ms) = onto object (interpolate_members env ms)

  pub interpolate_items : (Text → Option Text) → Items → Interpolated Items
  interpolate_items env nil = interpolated nil
  interpolate_items env (cons v vs) = both cons (interpolate env v) (interpolate_items env vs)

  pub interpolate_members : (Text → Option Text) → Members → Interpolated Members
  interpolate_members env end = interpolated end
  interpolate_members env (member k v ms) =
      both (member k) (interpolate env v) (interpolate_members env ms)
