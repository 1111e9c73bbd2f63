-- ===== src/Tests/Deduplication.antt =====
-- The theorems on app/deduplication at concrete inputs.
use mathlib.Core.List.{Memᴰ, Permᴰ}
use mathlib.Core.Path.{sym}
use lead_pipe.Prelude.{◌≡◌, refl, true, false, none, some, [], ◌∷◌, ap, ◌∙◌}
use lead_pipe.Prelude.Unicode.{ascii}
use lead_pipe.Prelude.Ints.{pos}
use lead_pipe.Prelude.Ratios.{percent}
use lead_pipe.Prelude.Texts.{codes, contains, starts_with, text_eq, join, split_on, mem_text}
use lead_pipe.Prelude.Tables.{select, find}
use lead_pipe.Prelude.Orders.{sort_by}
use lead_pipe.Domain.{NormalizedLead, get, put_all}
use lead_pipe.Deduplication.Fingerprint.{
  similarity, fingerprints, location_of, company_slug, pop_while, alnum_words, jaccard, trigrams,
  grams_of, intersection, set_add, set_update, union, windows,
}
use lead_pipe.Deduplication.Fingerprint.Sets.{similarity_comm}
use lead_pipe.Deduplication.Matcher.{
  MatchResult, match, match_name_location, default_policy, email, name_location, equal, result,
}
use lead_pipe.Deduplication.Matcher.Symmetry.{match_comm}
use lead_pipe.Deduplication.Matcher.Explained.{Evidence, match-Evidence, match-name_location_review}
use lead_pipe.Deduplication.Merge.{
  Candidate, MergedLead, merge, rank, Key, merge_ranked, first_with, latest, merged_extra,
  field_origins,
}
use lead_pipe.Deduplication.Merge.AnyOrder.{Ranked, merge-perm}
use lead_pipe.Deduplication.Merge.Winners.{FieldsFromBest, merge-FieldsFromBest}

abbrev acme : NormalizedLead
acme = record {
  source = record { name = codes "web"; url = none };
  collected_at = 5000000;
  company_name = some (codes "Acme Oy");
  contact_name = none;
  website = none;
  website_domain = none;
  email = some (codes "info@acme.fi");
  phone = none;
  address = none;
  city = some (codes "Oulu");
  country = some (codes "FI");
  extra = [];
}

-- the same company, from a list
abbrev listed_acme : NormalizedLead
listed_acme = record acme {
  source = record { name = codes "csv"; url = none };
  email = none;
  phone = some (codes "+358401234567");
}

similarity_comm_example :
    similarity (codes "acme oy") (codes "oy acme group")
    ≡ similarity (codes "oy acme group") (codes "acme oy")
similarity_comm_example = similarity_comm (codes "acme oy") (codes "oy acme group")

match_comm_example : match acme listed_acme default_policy ≡ match listed_acme acme default_policy
match_comm_example = match_comm acme listed_acme default_policy

match-Evidence_example : Evidence acme acme default_policy email
unfolding match result equal fingerprints contains text_eq
match-Evidence_example =
    match-Evidence acme acme default_policy
      {r = record { rule = email; confidence = percent 100; auto_merge = true }} refl

abbrev by_name : MatchResult
by_name = result name_location (percent 80) default_policy

abbrev unnamed : NormalizedLead
unnamed = record acme { email = none }

match-name_location_review_example : by_name.auto_merge ≡ false
unfolding match equal fingerprints contains match_name_location location_of text_eq join
    company_slug pop_while alnum_words select split_on mem_text similarity jaccard trigrams grams_of
    intersection set_add set_update union windows result get starts_with
match-name_location_review_example =
    match-name_location_review unnamed listed_acme default_policy {r = by_name} refl refl refl

abbrev first : Candidate
first = record { lead = acme; origin = codes "1"; priority = pos 3 }

abbrev second : Candidate
second = record { lead = listed_acme; origin = codes "2"; priority = pos 5 }

apart : {c d : Candidate} → c ≡ first → d ≡ second → rank c ≡ rank d → ⊥
unfolding rank
apart e f same =
    let k : pos 3 ≡ pos 5 =
      sym (ap (λ (x : Candidate). x.priority) e)
      ∙ ap (λ (x : Key). x.0) same
      ∙ ap (λ (x : Candidate). x.priority) f in
    cc

two-Ranked : Ranked (first ∷ second ∷ [])
two-Ranked c d (Memᴰ.head e) (Memᴰ.head f) same = e ∙ sym f
two-Ranked c d (Memᴰ.head e) (Memᴰ.tail (Memᴰ.head f)) same = absurd (apart e f same)
two-Ranked c d (Memᴰ.tail (Memᴰ.head e)) (Memᴰ.head f) same = absurd (apart f e (sym same))
two-Ranked c d (Memᴰ.tail (Memᴰ.head e)) (Memᴰ.tail (Memᴰ.head f)) same = e ∙ sym f
two-Ranked c d (Memᴰ.head e) (Memᴰ.tail (Memᴰ.tail m)) same = elim m [ ]
two-Ranked c d (Memᴰ.tail (Memᴰ.head e)) (Memᴰ.tail (Memᴰ.tail m)) same = elim m [ ]
two-Ranked c d (Memᴰ.tail (Memᴰ.tail m)) n same = elim m [ ]

merge-perm_example : merge (first ∷ second ∷ []) ≡ merge (second ∷ first ∷ [])
merge-perm_example = merge-perm (Permᴰ.swap refl refl) two-Ranked

-- the lead of the first candidate, which is all that there is
abbrev merged_acme : MergedLead
merged_acme = record {
  lead = acme;
  origins =
      (codes "company_name", codes "1")
      ∷ (codes "email", codes "1")
      ∷ (codes "city", codes "1")
      ∷ (codes "country", codes "1")
      ∷ [];
}

merge-FieldsFromBest_example : FieldsFromBest (first ∷ []) acme
unfolding merge merge_ranked first_with sort_by latest find merged_extra put_all field_origins
    text_eq
merge-FieldsFromBest_example = merge-FieldsFromBest (first ∷ []) {m = merged_acme} refl
