-- ===== src/Fetch/Client/Bounds.antt =====
-- How much `Fetcher` of app/fetch/client.py reads and sends.
use mathlib.Core.Path.{subst}
use lead_pipe.Prelude.{
  Option, none, some, ℕ, zero, suc, ◌+◌, ◌*◌, ◌≤◌, ◌≡◌, true, false, List, [], ◌∷◌, ◌++◌, arith,
  inl, inr, length, Option-cases, Bool-cases, ltb, some_eq,
}
use lead_pipe.Prelude.Texts.{Text}
use lead_pipe.Libraries.{Urls}
use lead_pipe.Fetch.Network.{
  FetchPolicy, value_error, response_too_large, ok, failed, Stream, Network,
}
use lead_pipe.Fetch.Client.Safe.{Result-cases}
use lead_pipe.Fetch.Urls.{origin_of, ensure_safe_url}
use lead_pipe.Fetch.Robots.{cached}
use lead_pipe.Fetch.Client.{
  FetchResponse, Session, gather, declares_too_much, read_body, read, attempts, request, rules_for,
  check_robots, admit, admit_joined, hops, get, redirect_after, is_retried,
}

gather-le :
    (limit : ℕ) (so_far : List ℕ) (chunks : List (List ℕ)) (content : List ℕ)
    → length so_far ≤ limit
    → gather limit so_far chunks ≡ some content
    → length content ≤ limit
unfolding gather
gather-le limit so_far [] content h e = rw⁻¹ (some_eq e) h
gather-le limit so_far (c ∷ cs) content h e = elim (Bool-cases (ltb limit (length (so_far ++ c)))) [
  | inl x ↦ absurd (ground arith)
  | inr x ↦ gather-le limit (so_far ++ c) cs content (ground arith) (ground arith)
]

abbrev response : Stream → List ℕ → FetchResponse
response s content = record {
  url = s.url;
  status_code = s.status_code;
  content = content;
  location = s.location;
}

-- A response that is returned is no larger than the limit, whatever its header declares.
pub read_body-le :
    (limit : ℕ) (s : Stream) (r : FetchResponse)
    → read_body limit s ≡ ok r
    → length r.content ≤ limit
unfolding read_body
read_body-le limit s r h = elim (Option-cases (declares_too_much limit s.content_length)) [
  | inl e ↦ absurd (let k : failed value_error ≡ ok r = rw (read_body, e) at h in cc)
  | inr (true, e) ↦ absurd (let k : failed response_too_large ≡ ok r = rw (read_body, e) at h in cc)
  | inr (false, e) ↦ elim (Option-cases (gather limit [] s.chunks)) [
    | inl g ↦ absurd (let k : failed response_too_large ≡ ok r = rw (read_body, e, g) at h in cc)
    | inr (content, g) ↦
        let k : ok (response s content) ≡ ok r = rw (read_body, e, g) at h in
        let same : response s content ≡ r = cc in
        subst (λ (x : FetchResponse). length x.content ≤ limit) same
          (gather-le limit [] s.chunks content (omega arith) g)
  ]
]

module _ ⦃n : Network⦄ ⦃w : Urls⦄ (policy : FetchPolicy) where
  abbrev pub sent : Session → ℕ
  sent s = length s.requested

  attempts-le : (k : ℕ) (url : Text) (s : Session) → sent (attempts k policy url s).1 ≤ sent s + k
  unfolding attempts read
  attempts-le zero url s = omega arith
  attempts-le (suc k) url s = elim (Bool-cases (is_retried (read policy url s).0)) [
    | inl e ↦ rw e (omega (arith, attempts-le k url (read policy url s).1))
    | inr e ↦ rw e (omega arith)
  ]

  rules_for-le : (origin : Text) (s : Session) → sent (rules_for policy origin s).1 ≤ sent s + 1
  unfolding read rules_for
  rules_for-le origin s =
      elim (Option-cases (cached policy origin (n.clock (length s.requested)) s.cache)) [
        | inl e ↦ rw (rules_for, e) (omega arith)
        | inr (rules, e) ↦ rw (rules_for, e) (omega arith)
      ]

  check_robots-le : (url : Text) (s : Session) → sent (check_robots policy url s).1 ≤ sent s + 1
  unfolding check_robots
  check_robots-le url s = elim (Bool-cases policy.respect_robots) [
    | inr e ↦ rw (e, check_robots) (omega arith)
    | inl e ↦ elim (Option-cases (origin_of url)) [
      | inl o ↦ rw (e, check_robots, o) (omega arith)
      | inr (origin, o) ↦ ground (arith, rules_for-le origin s)
    ]
  ]

  admit-le : (url : Text) (s : Session) → sent (admit policy url s).1 ≤ sent s + 1
  unfolding admit
  admit-le url s = elim (Result-cases (ensure_safe_url url policy)) [
    | inl (e, x) ↦ rw (admit, x) (omega arith)
    | inr (target, x) ↦ rw (admit, x) (check_robots-le target s)
  ]

  admit_joined-le :
      (url : Option Text) (s : Session) → sent (admit_joined policy url s).1 ≤ sent s + 1
  unfolding admit_joined
  admit_joined-le none s = omega arith
  admit_joined-le (some url) s = admit-le url s

  -- the requests of one hop: its attempts, and one for robots.txt
  abbrev pub per_hop : ℕ
  per_hop = policy.retries + 2

  hops-le :
      (k : ℕ) (url : Text) (s : Session)
      → sent (hops k policy url s).1 + 1 ≤ sent s + suc k * per_hop
  unfolding hops request
  hops-le zero url s =
      let done = attempts-le (policy.retries + 1) url s in
      elim (Option-cases (redirect_after (request policy url s).0)) [
        | inl e ↦ rw (hops, e) (omega (arith, done))
        | inr (l, e) ↦ rw (hops, e) (omega (arith, done))
      ]
  hops-le (suc k) url s =
      let done = attempts-le (policy.retries + 1) url s in
      let rest : per_hop ≤ suc k * per_hop = omega arith in
      elim (Option-cases (redirect_after (request policy url s).0)) [
        | inl e ↦ rw (hops, e) (omega (arith, done))
        | inr (l, e) ↦
            let at = w.urljoin url l in
            let s' = (request policy url s).1 in
            let next = admit_joined-le at s' in
            elim (Result-cases (admit_joined policy at s').0) [
              | inl (x, y) ↦ rw (hops, e, y) (omega (arith, done, next))
              | inr (target, y) ↦
                  rw (hops, e, y)
                    (omega (arith, done, next, hops-le k target (admit_joined policy at s').1))
            ]
      ]

  -- A fetch ends, and sends at most the attempts of one request and one for robots.txt, for its url
  -- and for each of the redirects that the policy allows.
  pub get-le :
      (url : Text) (s : Session)
      → sent (get policy url s).1 ≤ sent s + (policy.max_redirects + 1) * (policy.retries + 2)
  unfolding get
  get-le url s = elim (Result-cases (admit policy url s).0) [
    | inl (e, y) ↦ rw (get, y) (omega (arith, admit-le url s))
    | inr (target, y) ↦
        rw (get, y)
          (omega
            (arith, admit-le url s, hops-le policy.max_redirects target (admit policy url s).1))
  ]
