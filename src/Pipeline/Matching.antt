-- ===== src/Pipeline/Matching.antt =====
-- `_best_match`, `_as_normalized` and `_remerge` of app/pipeline/runner.py
use lead_pipe.Prelude.{
  ℕ, Bool, true, false, not, Option, none, some, List, [], ◌∷◌, ◌++◌, ◌==◌, if◌then◌else◌,
}
use lead_pipe.Prelude.Unicode.{Unicode}
use lead_pipe.Prelude.Decimal.{str}
use lead_pipe.Prelude.Ints.{ℤ}
use lead_pipe.Prelude.Ratios.{ratio_lt}
use lead_pipe.Prelude.Tables.{select}
use lead_pipe.Prelude.Texts.{text_eq}
use lead_pipe.Domain.{NormalizedLead}
use lead_pipe.Libraries.{Phones, Emails, Urls}
use lead_pipe.Validation.Lead.{validate_lead}
use lead_pipe.Deduplication.Fingerprint.{fingerprints}
use lead_pipe.Deduplication.Matcher.{MatchResult, default_policy, match}
use lead_pipe.Deduplication.Merge.{Candidate, merge}
use lead_pipe.Db.{Db, Lead}
use lead_pipe.Db.Platform.{Platform}
use lead_pipe.Repositories.Leads.{find_candidates, candidates_for, update}

-- a stored lead is matched as a lead of the incoming record's source, without its extra fields
unfoldable pub as_normalized : Lead → NormalizedLead → NormalizedLead
as_normalized stored incoming = record {
  source = incoming.source;
  collected_at = stored.last_seen_at;
  company_name = stored.company_name;
  contact_name = stored.contact_name;
  website = stored.website;
  website_domain = stored.website_domain;
  email = stored.email;
  phone = stored.phone;
  address = stored.address;
  city = stored.city;
  country = stored.country;
  extra = [];
}

abbrev pub Match : Type 0
Match = Lead × MatchResult

-- the better of the best match so far and the next one: the earlier, if neither is better
abbrev pub better : Option Match → Lead → Option MatchResult → Option Match
better best lead none = best
better none lead (some r) = some (lead, r)
better (some (l, b)) lead (some r) =
    if ratio_lt b.confidence r.confidence then some (lead, r) else some (l, b)

-- `candidate.id == exclude`
abbrev pub is_excluded : Option ℕ → Lead → Bool
is_excluded none l = false
is_excluded (some id) l = l.id == id

module _ ⦃u : Unicode⦄ where
  -- the loop of `_best_match`
  unfoldable pub best_of : NormalizedLead → Option ℕ → Option Match → List Lead → Option Match
  best_of lead exclude best [] = best
  best_of lead exclude best (c ∷ cs) =
      best_of lead exclude
        (if is_excluded exclude c
          then best
          else better best c (match lead (as_normalized c lead) default_policy))
        cs

  unfoldable pub best_match : ⦃g : Platform⦄ → NormalizedLead → Option ℕ → Db → Option Match
  best_match lead exclude db =
      best_of lead exclude none (find_candidates (fingerprints lead) default_policy 20 db)

module _ ⦃u : Unicode⦄ ⦃p : Phones⦄ ⦃e : Emails⦄ ⦃w : Urls⦄ where
  -- `false` where the validation of the merged lead raises; then nothing is written
  unfoldable pub remerge : ℕ → NormalizedLead → ℕ → ℤ → Db → Bool × Db
  remerge lead_id incoming record_id priority db =
      let others =
        select (λ (c : Candidate). not (text_eq c.origin (str record_id)))
          (candidates_for lead_id db) in
      let mine : Candidate = record {
        lead = incoming;
        origin = str record_id;
        priority = priority;
      } in
      elim (merge (others ++ mine ∷ [])) [
        | none ↦ (false, db)
        | some m ↦ elim (validate_lead m.lead) [
          | none ↦ (false, db)
          | some v ↦ (true, update lead_id m v db)
        ]
      ]
