-- ===== src/Deduplication/Matcher.antt =====
-- app/deduplication/matcher.py
pub mod Explained
pub mod Symmetry
use lead_pipe.Prelude.{
  ℕ, ◌≡◌, refl, Bool, true, false, not, ◌&&◌, Option, none, some, or_else, arith, if◌then◌else◌,
}
use lead_pipe.Prelude.Unicode.{Unicode}
use lead_pipe.Prelude.Ratios.{Ratio, percent, ratio_lt, ratio_le, ratio_min}
use lead_pipe.Prelude.Texts.{Text, codes, text_eq, opt_text_eq}
use lead_pipe.Domain.{NormalizedLead}
use lead_pipe.Deduplication.Fingerprint.{Fingerprints, fingerprints, similarity}

pub data MatchRule : Type 0 where
  email website phone name_location external_id : MatchRule

-- the texts of the enumeration
abbrev pub rule_value : MatchRule → Text
rule_value email = codes "email"
rule_value website = codes "website"
rule_value phone = codes "phone"
rule_value name_location = codes "name_location"
rule_value external_id = codes "external_id"

pub record MatchPolicy : Type 0 where
  pub name_similarity_threshold : Ratio
  pub name_confidence_cap : Ratio
  pub auto_merge_threshold : Ratio

abbrev pub default_policy : MatchPolicy
default_policy = record {
  name_similarity_threshold = percent 70;
  name_confidence_cap = percent 80;
  auto_merge_threshold = percent 85;
}

pub record MatchResult : Type 0 where
  pub rule : MatchRule
  pub confidence : Ratio
  pub auto_merge : Bool

abbrev pub needs_review : MatchResult → Bool
needs_review r = not r.auto_merge

-- `_equal`, of the two values of a key
unfoldable pub equal : Option Text → Option Text → Bool
equal none right = false
equal (some v) right = opt_text_eq (some v) right

unfoldable pub result : MatchRule → Ratio → MatchPolicy → MatchResult
result rule confidence policy = record {
  rule = rule;
  confidence = confidence;
  auto_merge = ratio_le policy.auto_merge_threshold confidence;
}

module _ ⦃u : Unicode⦄ where
  abbrev scored : Ratio → MatchPolicy → Option MatchResult
  scored score policy =
      if ratio_lt score policy.name_similarity_threshold
      then none
      else some (result name_location (ratio_min score policy.name_confidence_cap) policy)

  abbrev score_names : Option Text → Option Text → MatchPolicy → Option MatchResult
  score_names none right policy = none
  score_names (some left) none policy = none
  score_names (some left) (some right) policy = scored (similarity left right) policy

  -- `_match_name_location`: without both names, or one location, there is no score
  unfoldable pub match_name_location :
      Fingerprints → Fingerprints → MatchPolicy → Option MatchResult
  match_name_location a b policy =
      if equal a.location b.location then score_names a.name_slug b.name_slug policy else none

  unfoldable pub match : NormalizedLead → NormalizedLead → MatchPolicy → Option MatchResult
  match left right policy =
      let a = fingerprints left in
      let b = fingerprints right in
      if equal a.email b.email
      then some (result email (percent 100) policy)
      else if equal a.domain b.domain
      then some (result website (percent 95) policy)
      else if equal a.phone b.phone
      then some (result phone (percent 90) policy)
      else or_else (match_name_location a b policy) (
          if text_eq left.source.name right.source.name && equal a.external_id b.external_id
          then some (result external_id (percent 100) policy)
          else none)
