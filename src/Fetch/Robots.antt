-- ===== src/Fetch/Robots.antt =====
-- app/fetch/robots.py: the rules of an origin, and their cache.
use lead_pipe.Prelude.{ℕ, ◌-◌, Bool, true, false, Option, none, some, leb, ltb, if◌then◌else◌}
use lead_pipe.Prelude.Ratios.{Ratio}
use lead_pipe.Prelude.Texts.{Text}
use lead_pipe.Domain.{Dict, get}
use lead_pipe.Fetch.Network.{FetchPolicy, Network}

module _ ⦃n : Network⦄ where
  pub record RobotsRules : Type 0 where
    pub parser : Option n.Parser
    pub allow_all : Bool
    pub deny_all : Bool
    pub fetched_at : ℕ

  abbrev by_parser : Option n.Parser → Text → Text → Bool
  by_parser none url user_agent = true
  by_parser (some p) url user_agent = n.can_fetch p user_agent url

  unfoldable pub allows : RobotsRules → Text → Text → Bool
  allows rules url user_agent =
      if rules.deny_all
      then false
      else if rules.allow_all
      then true
      else by_parser rules.parser url user_agent

  unfoldable pub crawl_delay : RobotsRules → Text → Option Ratio
  crawl_delay rules user_agent = elim rules.parser [
    | none ↦ none
    | some p ↦ n.crawl_delay p user_agent
  ]

  abbrev pub deny : ℕ → RobotsRules
  deny now = record { parser = none; allow_all = false; deny_all = true; fetched_at = now }

  -- `_load`, from the status and the body that were fetched; `none` is any exception
  unfoldable pub load : Option (ℕ × Text) → ℕ → RobotsRules
  load none now = deny now
  load (some (status, body)) now =
      if leb 500 status
      then deny now
      else if leb 400 status
      then (record { parser = none; allow_all = true; deny_all = false; fetched_at = now })
      else (record {
        parser = some (n.parse body);
        allow_all = false;
        deny_all = false;
        fetched_at = now;
      })

  -- the cached rules of an origin, if they are not too old
  unfoldable pub cached : FetchPolicy → Text → ℕ → Dict RobotsRules → Option RobotsRules
  cached policy origin now cache = elim (get origin cache) [
    | none ↦ none
    | some rules ↦ if ltb (now - rules.fetched_at) policy.robots_ttl then some rules else none
  ]
