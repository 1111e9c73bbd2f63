-- ===== src/Deduplication/Merge/Winners.antt =====
-- Which candidate gives a field of the lead that app/deduplication/merge.py makes.
use mathlib.Core.List.{Memᴰ, Permᴰ}
use mathlib.Core.List.Permᴰ
use mathlib.Core.Path.{subst}
use lead_pipe.Prelude.{
  ◌≡◌, true, false, Option, none, some, List, [], ◌∷◌, ◌⊎◌, inl, inr, is_some, ℕ, some_eq, not_some,
  Option-cases,
}
use lead_pipe.Prelude.Unicode.{Unicode}
use lead_pipe.Prelude.Orders.{
  sort_by, IsSorted, sort_by-IsSorted, sort_by-perm_self, mem-perm, find-IsSorted,
}
use lead_pipe.Prelude.Tables.{find, find_complete, find_sound}
use lead_pipe.Prelude.Texts.{Text}
use lead_pipe.Domain.{NormalizedLead}
use lead_pipe.Deduplication.Merge.{
  Candidate, MergedLead, Getter, first_with, value_of, rank, rank_order, merge, of_ranked,
  merge_ranked, latest,
}

module _ ⦃u : Unicode⦄ where
  abbrev Sorted : List Candidate → Type 0
  Sorted = IsSorted rank_order rank

  -- `c` has the field, and none that has it ranks before `c`.
  pub record IsBest (field : Getter) (cs : List Candidate) (c : Candidate) : Type 0 where
    pub given : Memᴰ c cs
    pub filled : is_some (field c.lead) ≡ true
    pub best :
        (d : Candidate)
        → Memᴰ d cs
        → is_some (field d.lead) ≡ true
        → rank_order.le (rank c) (rank d) ≡ true

  -- The value is that of the best candidate with the field, or there is none.
  abbrev pub FromBest : Getter → Getter → List Candidate → Option Text → Type 0
  FromBest field other cs v =
      ((c : Candidate) × IsBest field cs c × (v ≡ other c.lead))
      ⊎ ((v ≡ none) × ((d : Candidate) → Memᴰ d cs → is_some (field d.lead) ≡ false))

  first_with-FromBest :
      (field other : Getter) (cs ranked : List Candidate)
      → Permᴰ ranked cs
      → Sorted ranked
      → FromBest field other cs (value_of other (first_with field ranked))
  unfolding first_with
  first_with-FromBest field other cs ranked p s =
      let has = λ (c : Candidate). is_some (field c.lead) in
      elim (Option-cases (find has ranked)) [
        | inl e ↦ inr (rw e, λ d m. find_complete has ranked e (into d m))
        | inr (c, e) ↦
            let (m, f) = find_sound has ranked c e in
            inl (
              c,
              record {
                given = mem-perm rank_order rank (Permᴰ.symm p) m;
                filled = f;
                best = λ d n g. find-IsSorted rank_order rank has ranked c d s e (into d n) g;
              },
              rw e,
            )
      ]
    where
      into : (d : Candidate) → Memᴰ d cs → Memᴰ d ranked
      into d m = mem-perm rank_order rank p m

  -- Each field of the merged lead is that of the best candidate which has it, and is missing only if
  -- no candidate has it; the website's domain is that of the candidate which gives the website.
  pub record FieldsFromBest (cs : List Candidate) (l : NormalizedLead) : Type 0 where
    pub company_name : FromBest (λ x. x.company_name) (λ x. x.company_name) cs l.company_name
    pub contact_name : FromBest (λ x. x.contact_name) (λ x. x.contact_name) cs l.contact_name
    pub email : FromBest (λ x. x.email) (λ x. x.email) cs l.email
    pub phone : FromBest (λ x. x.phone) (λ x. x.phone) cs l.phone
    pub address : FromBest (λ x. x.address) (λ x. x.address) cs l.address
    pub city : FromBest (λ x. x.city) (λ x. x.city) cs l.city
    pub country : FromBest (λ x. x.country) (λ x. x.country) cs l.country
    pub website : FromBest (λ x. x.website) (λ x. x.website) cs l.website
    pub website_domain : FromBest (λ x. x.website) (λ x. x.website_domain) cs l.website_domain

  merge_ranked-FromBest :
      (t : ℕ) (first : Candidate) (cs ranked : List Candidate)
      → Permᴰ ranked cs
      → Sorted ranked
      → FieldsFromBest cs (merge_ranked t first ranked).lead
  unfolding merge_ranked
  merge_ranked-FromBest t first cs ranked p s = record {
    company_name = first_with-FromBest _ _ cs ranked p s;
    contact_name = first_with-FromBest _ _ cs ranked p s;
    email = first_with-FromBest _ _ cs ranked p s;
    phone = first_with-FromBest _ _ cs ranked p s;
    address = first_with-FromBest _ _ cs ranked p s;
    city = first_with-FromBest _ _ cs ranked p s;
    country = first_with-FromBest _ _ cs ranked p s;
    website = first_with-FromBest _ _ cs ranked p s;
    website_domain = first_with-FromBest _ _ cs ranked p s;
  }

  of_ranked-FromBest :
      (t : ℕ) (cs ranked : List Candidate) {m : MergedLead}
      → Permᴰ ranked cs
      → Sorted ranked
      → of_ranked t ranked ≡ some m
      → FieldsFromBest cs m.lead
  of_ranked-FromBest t cs [] p s h = absurd (not_some h)
  of_ranked-FromBest t cs (c ∷ ranked) p s h =
      subst (λ (x : MergedLead). FieldsFromBest cs x.lead) (some_eq h)
        (merge_ranked-FromBest t c cs (c ∷ ranked) p s)

  -- When candidates merge, each field of the lead is that of the candidate which ranks first among
  -- those that have it, and is missing only if none has it. The website and its domain are both
  -- those of the first candidate that has a website.
  pub merge-FieldsFromBest :
      (cs : List Candidate) {m : MergedLead} → merge cs ≡ some m → FieldsFromBest cs m.lead
  unfolding merge
  merge-FieldsFromBest cs h =
      of_ranked-FromBest (latest cs) cs (sort_by rank_order rank cs)
        (sort_by-perm_self rank_order rank cs) (sort_by-IsSorted rank_order rank cs) h
