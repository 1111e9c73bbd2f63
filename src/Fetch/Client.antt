-- ===== src/Fetch/Client.antt =====
-- app/fetch/client.py: `Fetcher`. A session is the requests that were sent, the latest first, and the
-- cache of robots.txt. The waits of the throttle and between retries change neither.
pub mod Safe
pub mod Bounds
use lead_pipe.Prelude.{
  ℕ, zero, suc, ◌+◌, Bool, true, false, ◌||◌, Option, none, some, List, [], ◌∷◌, ◌++◌, ◌==◌, ltb,
  any, length, if◌then◌else◌,
}
use lead_pipe.Prelude.Texts.{Text, codes, truthy}
use lead_pipe.Domain.{Dict, put}
use lead_pipe.Libraries.{Urls}
use lead_pipe.Fetch.Network.{
  FetchPolicy, FetchError, robots_disallowed, response_too_large, too_many_redirects, gave_up,
  value_error, Result, ok, failed, Stream, Network,
}
use lead_pipe.Fetch.Urls.{origin_of, ensure_safe_url}
use lead_pipe.Fetch.Robots.{RobotsRules, allows, load, cached}

abbrev pub redirect_statuses : List ℕ
redirect_statuses = 301 ∷ 302 ∷ 303 ∷ 307 ∷ 308 ∷ []

abbrev pub retry_statuses : List ℕ
retry_statuses = 429 ∷ 500 ∷ 502 ∷ 503 ∷ 504 ∷ []

pub record FetchResponse : Type 0 where
  pub url : Text
  pub status_code : ℕ
  pub content : List ℕ
  pub location : Option Text

-- the body, unless it grows beyond the limit
unfoldable pub gather : ℕ → List ℕ → List (List ℕ) → Option (List ℕ)
gather limit so_far [] = some so_far
gather limit so_far (c ∷ cs) =
    let rest = gather limit (so_far ++ c) cs in
    if ltb limit (length (so_far ++ c)) then none else rest

-- whether the header declares too much; `none` where `int` raises
abbrev declares_too_much : ℕ → Option (Option ℕ) → Option Bool
declares_too_much limit none = some false
declares_too_much limit (some none) = none
declares_too_much limit (some (some declared)) = some (ltb limit declared)

unfoldable pub read_body : ℕ → Stream → Result FetchResponse
read_body limit s = elim (declares_too_much limit s.content_length) [
  | none ↦ failed value_error
  | some too_much ↦
      if too_much then failed response_too_large else elim (gather limit [] s.chunks) [
        | none ↦ failed response_too_large
        | some content ↦ ok (record {
          url = s.url;
          status_code = s.status_code;
          content = content;
          location = s.location;
        })
      ]
]

-- where the response redirects to, if it does
abbrev pub redirect_of : FetchResponse → Option Text
redirect_of r =
    if any (λ s. s == r.status_code) redirect_statuses
    then elim r.location [ none ↦ none | some l ↦ if truthy l then some l else none ]
    else none

abbrev pub redirect_after : Result FetchResponse → Option Text
redirect_after (failed e) = none
redirect_after (ok r) = redirect_of r

-- `response.status_code in RETRY_STATUSES`, or an error of the transport
abbrev pub is_retried : Option (Result FetchResponse) → Bool
is_retried none = true
is_retried (some (failed e)) = false
is_retried (some (ok r)) = any (λ s. s == r.status_code) retry_statuses

abbrev pub result_of : Option (Result FetchResponse) → Result FetchResponse
result_of none = failed gave_up
result_of (some r) = r

module _ ⦃n : Network⦄ ⦃w : Urls⦄ where
  pub record Session : Type 0 where
    pub requested : List Text
    pub cache : Dict RobotsRules

  -- `_read`; `none` is an error of the transport
  unfoldable pub read : FetchPolicy → Text → Session → Option (Result FetchResponse) × Session
  read policy url s = (
    elim (n.send (length s.requested) url) [
      | none ↦ none
      | some stream ↦ some (read_body policy.max_response_bytes stream)
    ],
    record s { requested = url ∷ s.requested },
  )

  -- `_request`, with so many attempts left
  unfoldable pub attempts : ℕ → FetchPolicy → Text → Session → Result FetchResponse × Session
  attempts zero policy url s = (failed gave_up, s)
  attempts (suc k) policy url s =
      let (r, s') = read policy url s in
      let rest = attempts k policy url s' in if is_retried r then rest else (result_of r, s')

  unfoldable pub request : FetchPolicy → Text → Session → Result FetchResponse × Session
  request policy url s = attempts (policy.retries + 1) policy url s

  -- f"{origin}/robots.txt"
  abbrev pub robots_url : Text → Text
  robots_url origin = origin ++ codes "/robots.txt"

  abbrev fetched : Option (Result FetchResponse) → Option (ℕ × Text)
  fetched (some (ok r)) = some (r.status_code, n.decode r.content)
  fetched _ = none

  -- `rules_for`, of an origin
  unfoldable pub rules_for : FetchPolicy → Text → Session → RobotsRules × Session
  rules_for policy origin s = elim (cached policy origin (n.clock (length s.requested)) s.cache) [
    | some rules ↦ (rules, s)
    | none ↦
        let (r, s') = read policy (robots_url origin) s in
        let rules = load (fetched r) (n.clock (length s'.requested)) in
        (rules, record s' { cache = put origin rules s'.cache })
  ]

  -- `_check_robots`; the delay that it returns is for the throttle
  unfoldable pub check_robots : FetchPolicy → Text → Session → Option FetchError × Session
  check_robots policy url s =
      if policy.respect_robots
      then elim (origin_of url) [
        | none ↦ (some value_error, s)
        | some origin ↦
            let (rules, s') = rules_for policy origin s in
            (if allows rules url policy.user_agent then none else some robots_disallowed, s')
      ]
      else (none, s)

  -- `ensure_safe_url` and then `_check_robots`: what a url passes before it is requested
  unfoldable pub admit : FetchPolicy → Text → Session → Result Text × Session
  admit policy url s = elim (ensure_safe_url url policy) [
    | failed e ↦ (failed e, s)
    | ok target ↦
        let (refused, s') = check_robots policy target s in
        (elim refused [ some e ↦ failed e | none ↦ ok target ], s')
  ]

  -- the check of the url that `urljoin` returns, unless it raises
  unfoldable pub admit_joined : FetchPolicy → Option Text → Session → Result Text × Session
  admit_joined policy none s = (failed value_error, s)
  admit_joined policy (some url) s = admit policy url s

  -- `_get_with_redirects`, with so many redirects left
  unfoldable pub hops : ℕ → FetchPolicy → Text → Session → Result FetchResponse × Session
  hops zero policy url s =
      let (r, s') = request policy url s in
      elim (redirect_after r) [ none ↦ (r, s') | some location ↦ (failed too_many_redirects, s') ]
  hops (suc k) policy url s =
      let (r, s') = request policy url s in
      elim (redirect_after r) [
        | none ↦ (r, s')
        | some location ↦
            let (next, s'') = admit_joined policy (w.urljoin url location) s' in
            elim next [ failed e ↦ (failed e, s'') | ok target ↦ hops k policy target s'' ]
      ]

  unfoldable pub get : FetchPolicy → Text → Session → Result FetchResponse × Session
  get policy url s =
      let (first, s') = admit policy url s in
      elim first [
        | failed e ↦ (failed e, s')
        | ok target ↦ hops policy.max_redirects policy target s'
      ]
