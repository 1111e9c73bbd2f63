-- ===== src/Deduplication/Merge.antt =====
-- app/deduplication/merge.py
pub mod AnyOrder
pub mod Winners
use mathlib.Core.List.{reverse}
use lead_pipe.Prelude.{
  ℕ, zero, suc, ◌+◌, ◌-◌, ◌≡◌, refl, max, Bool, true, false, Option, none, some, List, [], ◌∷◌,
  ◌++◌, arith, length, is_some, if◌then◌else◌,
}
use lead_pipe.Prelude.Unicode.{Unicode}
use lead_pipe.Prelude.Ints.{ℤ, int_order}
use lead_pipe.Prelude.Orders.{Order, ascending, reversed, lex, text_order, sort_by}
use lead_pipe.Prelude.Tables.{find, count}
use lead_pipe.Prelude.Texts.{Text, codes}
use lead_pipe.Domain.{Dict, put, put_all, NormalizedLead, SourceRef}

pub record Candidate : Type 0 where
  pub lead : NormalizedLead
  pub origin : Text
  pub priority : ℤ

pub record MergedLead : Type 0 where
  pub lead : NormalizedLead
  pub origins : Dict Text

-- a field of a lead, by its name
abbrev pub Getter : Type 0
Getter = NormalizedLead → Option Text

abbrev pub single_fields : List (Text × Getter)
single_fields =
    (codes "company_name", λ l. l.company_name)
    ∷ (codes "contact_name", λ l. l.contact_name)
    ∷ (codes "email", λ l. l.email)
    ∷ (codes "phone", λ l. l.phone)
    ∷ (codes "address", λ l. l.address)
    ∷ (codes "city", λ l. l.city)
    ∷ (codes "country", λ l. l.country)
    ∷ []

abbrev pub website_fields : List (Text × Getter)
website_fields =
    (codes "website", λ l. l.website) ∷ (codes "website_domain", λ l. l.website_domain) ∷ []

-- `_filled`
unfoldable pub filled : Candidate → ℕ
filled c = count (λ f. is_some (f.1 c.lead)) (single_fields ++ website_fields)

abbrev pub zeros : ℕ → Text → Text
zeros zero s = s
zeros (suc n) s = b'0' ∷ zeros n s

-- `origin.zfill(20)` of digits
abbrev pub zfill : Text → Text
zfill s = zeros (20 - length s) s

abbrev pub Key : Type 0
Key = ℤ × (ℕ × (ℕ × (ℕ × Text)))

-- a higher number first, where the key of the program negates it
abbrev pub rank_order : Order Key
rank_order =
    lex (reversed int_order)
      (lex (reversed ascending) (lex (reversed ascending) (lex ascending text_order)))

-- `_first_with`
unfoldable pub first_with : Getter → List Candidate → Option Candidate
first_with field ranked = find (λ c. is_some (field c.lead)) ranked

-- the value of a field that a winner gives
abbrev pub value_of : Getter → Option Candidate → Option Text
value_of field none = none
value_of field (some c) = field c.lead

unfoldable pub field_origins : List (Text × Getter) → List Candidate → Dict Text → Dict Text
field_origins [] ranked d = d
field_origins ((name, field) ∷ fields) ranked d =
    field_origins fields ranked
      (elim (first_with field ranked) [ none ↦ d | some c ↦ put name c.origin d ])

abbrev website_origins : Option Candidate → Dict Text → Dict Text
website_origins none d = d
website_origins (some c) d =
    put (codes "website_domain") c.origin (put (codes "website") c.origin d)

unfoldable pub merged_extra : List Candidate → Dict (Option Text) → Dict (Option Text)
merged_extra [] extra = extra
merged_extra (c ∷ cs) extra = merged_extra cs (put_all c.lead.extra extra)

unfoldable pub latest : List Candidate → ℕ
latest [] = 0
latest (c ∷ cs) = max c.lead.collected_at (latest cs)

-- the lead that ranked candidates make, of which `first` is the first; the time is the latest
unfoldable pub merge_ranked : ℕ → Candidate → List Candidate → MergedLead
merge_ranked collected_at first ranked =
    let website_winner = first_with (λ l. l.website) ranked in
    record {
      lead = record {
        source = first.lead.source;
        collected_at = collected_at;
        company_name = value_of (λ l. l.company_name) (first_with (λ l. l.company_name) ranked);
        contact_name = value_of (λ l. l.contact_name) (first_with (λ l. l.contact_name) ranked);
        website = value_of (λ l. l.website) website_winner;
        website_domain = value_of (λ l. l.website_domain) website_winner;
        email = value_of (λ l. l.email) (first_with (λ l. l.email) ranked);
        phone = value_of (λ l. l.phone) (first_with (λ l. l.phone) ranked);
        address = value_of (λ l. l.address) (first_with (λ l. l.address) ranked);
        city = value_of (λ l. l.city) (first_with (λ l. l.city) ranked);
        country = value_of (λ l. l.country) (first_with (λ l. l.country) ranked);
        extra = merged_extra (reverse ranked) [];
      };
      origins = website_origins website_winner (field_origins single_fields ranked []);
    }

abbrev of_ranked : ℕ → List Candidate → Option MergedLead
of_ranked collected_at [] = none
of_ranked collected_at (c ∷ cs) = some (merge_ranked collected_at c (c ∷ cs))

module _ ⦃u : Unicode⦄ where
  -- `_origin_key`: numbers before texts, and by value
  unfoldable pub origin_key : Text → ℕ × Text
  origin_key origin = if u.is_digit origin then (0, zfill origin) else (1, origin)

  -- `_rank`
  unfoldable pub rank : Candidate → Key
  rank c = (c.priority, (c.lead.collected_at, (filled c, origin_key c.origin)))

  -- `none` is the `ValueError` of no candidates
  unfoldable pub merge : List Candidate → Option MergedLead
  merge candidates = of_ranked (latest candidates) (sort_by rank_order rank candidates)
