-- ===== src/Sources/Api/Paging.antt =====
-- The page numbers of app/sources/api_source.py: what `_with_param` writes, `_param_value` reads.
use mathlib.Core.Path.{subst}
use lead_pipe.Prelude.{
  ◌≡◌, refl, Bool, true, false, not, some, List, [], ◌∷◌, ◌++◌, All, All-append, Option-cases,
  Bool-cases, inl, inr, some_eq, not_some,
}
use lead_pipe.Prelude.Ints.{ℤ, pos, negsuc, str_ℤ}
use lead_pipe.Prelude.Decimal.{str, str-starts, starts_with_digit}
use lead_pipe.Prelude.Texts.{Text, text_eq, text_eq_self, truthy}
use lead_pipe.Prelude.Tables.{select, find}
use lead_pipe.Libraries.{Urls, Values, SplitUrl}
use lead_pipe.Sources.Api.{with_param, param_value}

find-rest :
    {A : Type 0} (p : A → Bool) (xs : List A) (y : A)
    → p y ≡ true
    → find p (select (λ x. not (p x)) xs ++ y ∷ []) ≡ some y
unfolding find select
find-rest p [] y h = rw h refl
find-rest p (x ∷ xs) y h = elim (Bool-cases (p x)) [
  | inl e ↦ rw e (find-rest p xs y h)
  | inr e ↦ rw (e, e) (find-rest p xs y h)
]

All-select :
    {A : Type 0} (P : A → Type 0) (p : A → Bool) (xs : List A) → All P xs → All P (select p xs)
unfolding select
All-select P p [] h = tt
All-select P p (x ∷ xs) h = elim (Bool-cases (p x)) [
  | inl e ↦ rw e (h.0, All-select P p xs h.1)
  | inr e ↦ rw e (All-select P p xs h.1)
]

truthy_of_digit : (s : Text) → starts_with_digit s ≡ true → truthy s ≡ true
truthy_of_digit [] h = cc
truthy_of_digit (c ∷ s) h = refl

truthy-str : (n : ℤ) → truthy (str_ℤ n) ≡ true
unfolding str_ℤ
truthy-str (pos n) = truthy_of_digit (str n) (str-starts n)
truthy-str (negsuc n) = refl

abbrev pub IsFilled : Text × Text → Type 0
IsFilled (key, value) = truthy value ≡ true

-- Where `urlsplit` finds the query that was put in by `urlunsplit`, `parse_qsl` reads the pairs that
-- `urlencode` wrote if no value is blank and returns no blank one, and `int` reads what `str` wrote:
-- the page number that is put in a url is the one that is read from it, whatever the url had before.
pub param_value-with_param :
    ⦃w : Urls⦄ ⦃v : Values⦄
    → (split_unsplit : (url : Text) (parts : SplitUrl) (pairs : List (Text × Text))
        → w.urlsplit url ≡ some parts
        → (again : SplitUrl) × (w.urlsplit
              (w.urlunsplit parts.scheme parts.netloc parts.path (w.urlencode pairs) parts.fragment)
            ≡ some again)
          × (again.query ≡ w.urlencode pairs))
    → (parse_encode : (pairs : List (Text × Text))
        → All IsFilled pairs
        → w.parse_qsl false (w.urlencode pairs) ≡ pairs)
    → (none_blank : (query : Text) → All IsFilled (w.parse_qsl false query))
    → (int_str : (n : ℤ) → v.int_of (str_ℤ n) ≡ some n) → (url param url' : Text) (page default : ℤ)
    → with_param url param page ≡ some url'
    → param_value url' param default ≡ some page
unfolding with_param param_value
param_value-with_param ⦃w⦄ ⦃v⦄ split_unsplit parse_encode none_blank int_str url param url' page
      default h =
    elim (Option-cases (w.urlsplit url)) [
      | inl e ↦ absurd (not_some (rw (with_param, e) at h))
      | inr (parts, e) ↦
          let p = λ (x : Text × Text). text_eq x.0 param in
          let old = w.parse_qsl false parts.query in
          let pairs = select (λ x. not (p x)) old ++ (param, str_ℤ page) ∷ [] in
          let filled : All IsFilled pairs =
            All-append IsFilled (select (λ x. not (p x)) old) _
              (All-select IsFilled (λ x. not (p x)) old (none_blank parts.query))
              (truthy-str page, tt) in
          let (again, split, same) = split_unsplit url parts pairs e in
          let made : w.urlunsplit parts.scheme parts.netloc parts.path (w.urlencode pairs)
                parts.fragment
              ≡ url' =
            some_eq (rw (with_param, e) at h) in
          subst (λ u. param_value u param default ≡ some page) made
            (rw
              (
                param_value,
                split,
                same,
                parse_encode pairs filled,
                find-rest p old (param, str_ℤ page) (text_eq_self param),
                int_str page,
              )
              refl)
    ]
