-- ===== src/Fetch/Client/Safe.antt =====
-- What `Fetcher` of app/fetch/client.py sends requests to, and how many.
use lead_pipe.Prelude.{
  Option, none, some, ℕ, zero, suc, ◌+◌, ◌≡◌, refl, arith, ◌⊎◌, inl, inr, All, length, Option-cases,
  Bool-cases,
}
use mathlib.Core.Path.{subst}
use lead_pipe.Prelude.Texts.{Text}
use lead_pipe.Libraries.{Urls}
use lead_pipe.Fetch.Network.{FetchPolicy, FetchError, Result, ok, failed, Network}
use lead_pipe.Fetch.Urls.{origin_of, ensure_safe_url}
use lead_pipe.Fetch.Robots.{cached}
use lead_pipe.Fetch.Client.{
  Session, read, attempts, request, robots_url, rules_for, check_robots, admit, admit_joined, hops,
  get, redirect_after, is_retried,
}

pub Result-cases :
    {A : Type 0} (r : Result A) → ((e : FetchError) × (r ≡ failed e)) ⊎ ((a : A) × (r ≡ ok a))
Result-cases (failed e) = inl (e, refl)
Result-cases (ok a) = inr (a, refl)

module _ ⦃n : Network⦄ ⦃w : Urls⦄ (policy : FetchPolicy) where
  -- The check of addresses lets the url pass.
  abbrev pub IsSafe : Text → Type 0
  IsSafe url = ensure_safe_url url policy ≡ ok url

  -- The url is safe, or it is the robots.txt of the origin of one that is.
  abbrev pub IsAllowed : Text → Type 0
  IsAllowed url =
      IsSafe url
      ⊎ ((page : Text) × (origin : Text) × IsSafe page
          × (origin_of page ≡ some origin)
          × (url ≡ robots_url origin))

  abbrev pub AllAllowed : Session → Type 0
  AllAllowed s = All IsAllowed s.requested

  ensure_same : (url target : Text) → ensure_safe_url url policy ≡ ok target → url ≡ target
  unfolding ensure_safe_url
  ensure_same url target h = ground arith

  IsSafe-ensure : (url target : Text) → ensure_safe_url url policy ≡ ok target → IsSafe target
  IsSafe-ensure url target h =
      subst (λ u. ensure_safe_url u policy ≡ ok target) (ensure_same url target h) h

  attempts-AllAllowed :
      (k : ℕ) (url : Text) (s : Session)
      → IsAllowed url
      → AllAllowed s
      → AllAllowed (attempts k policy url s).1
  unfolding attempts read
  attempts-AllAllowed zero url s safe h = h
  attempts-AllAllowed (suc k) url s safe h = elim (Bool-cases (is_retried (read policy url s).0)) [
    | inl e ↦ rw e (attempts-AllAllowed k url (read policy url s).1 safe (safe, h))
    | inr e ↦ rw e (safe, h)
  ]

  rules_for-AllAllowed :
      (page origin : Text) (s : Session)
      → IsSafe page
      → origin_of page ≡ some origin
      → AllAllowed s
      → AllAllowed (rules_for policy origin s).1
  unfolding read rules_for
  rules_for-AllAllowed page origin s safe o h =
      elim (Option-cases (cached policy origin (n.clock (length s.requested)) s.cache)) [
        | inl e ↦ rw (rules_for, e) (inr (page, origin, safe, o, refl), h)
        | inr (rules, e) ↦ rw (rules_for, e) h
      ]

  check_robots-AllAllowed :
      (url : Text) (s : Session)
      → IsSafe url
      → AllAllowed s
      → AllAllowed (check_robots policy url s).1
  unfolding check_robots ensure_safe_url
  check_robots-AllAllowed url s safe h = elim (Bool-cases policy.respect_robots) [
    | inr e ↦ rw (e, check_robots) h
    | inl e ↦ elim (Option-cases (origin_of url)) [
      | inl o ↦ rw (e, check_robots, o) h
      | inr (origin, o) ↦ rw (e, check_robots, o) (rules_for-AllAllowed url origin s safe o h)
    ]
  ]

  admit-AllAllowed : (url : Text) (s : Session) → AllAllowed s → AllAllowed (admit policy url s).1
  unfolding admit
  admit-AllAllowed url s h = elim (Result-cases (ensure_safe_url url policy)) [
    | inl (e, x) ↦ rw (admit, x) h
    | inr (target, x) ↦
        rw (admit, x) (check_robots-AllAllowed target s (IsSafe-ensure url target x) h)
  ]

  admit-IsSafe :
      (url target : Text) (s : Session) → (admit policy url s).0 ≡ ok target → IsSafe target
  unfolding admit
  admit-IsSafe url target s h = elim (Result-cases (ensure_safe_url url policy)) [
    | inl (e, x) ↦ absurd (let k : failed e ≡ ok target = rw (admit, x) at h in cc)
    | inr (t, x) ↦
        let (refused, s') = check_robots policy t s in
        elim (Option-cases (check_robots policy t s).0) [
          | inl y ↦
              let k : ok t ≡ ok target = rw (admit, x, y) at h in
              let same : t ≡ target = cc in subst IsSafe same (IsSafe-ensure url t x)
          | inr (e, y) ↦ absurd (let k : failed e ≡ ok target = rw (admit, x, y) at h in cc)
        ]
  ]

  admit_joined-AllAllowed :
      (url : Option Text) (s : Session) → AllAllowed s → AllAllowed (admit_joined policy url s).1
  unfolding admit_joined
  admit_joined-AllAllowed none s h = h
  admit_joined-AllAllowed (some url) s h = admit-AllAllowed url s h

  admit_joined-IsSafe :
      (url : Option Text) (target : Text) (s : Session)
      → (admit_joined policy url s).0 ≡ ok target
      → IsSafe target
  unfolding admit_joined
  admit_joined-IsSafe none target s h = cc
  admit_joined-IsSafe (some url) target s h = admit-IsSafe url target s h

  hops-AllAllowed :
      (k : ℕ) (url : Text) (s : Session)
      → IsSafe url
      → AllAllowed s
      → AllAllowed (hops k policy url s).1
  unfolding hops request
  hops-AllAllowed zero url s safe h =
      let done = attempts-AllAllowed (policy.retries + 1) url s (inl safe) h in
      elim (Option-cases (redirect_after (request policy url s).0)) [
        | inl e ↦ rw (hops, e) done
        | inr (l, e) ↦ rw (hops, e) done
      ]
  hops-AllAllowed (suc k) url s safe h =
      let done = attempts-AllAllowed (policy.retries + 1) url s (inl safe) h in
      elim (Option-cases (redirect_after (request policy url s).0)) [
        | inl e ↦ rw (hops, e) done
        | inr (l, e) ↦
            let at = w.urljoin url l in
            let s' = (request policy url s).1 in
            let next = admit_joined-AllAllowed at s' done in
            elim (Result-cases (admit_joined policy at s').0) [
              | inl (x, y) ↦ rw (hops, e, y) next
              | inr (target, y) ↦
                  rw (hops, e, y)
                    (hops-AllAllowed k target (admit_joined policy at s').1
                      (admit_joined-IsSafe at target s' y) next)
            ]
      ]

  -- Whatever servers answer, and through all redirects and retries, a fetch sends requests only to
  -- urls that the check of addresses lets pass, and to the robots.txt of their origins.
  pub get-AllAllowed : (url : Text) (s : Session) → AllAllowed s → AllAllowed (get policy url s).1
  unfolding get
  get-AllAllowed url s h = elim (Result-cases (admit policy url s).0) [
    | inl (e, y) ↦ rw (get, y) (admit-AllAllowed url s h)
    | inr (target, y) ↦
        rw (get, y)
          (hops-AllAllowed policy.max_redirects target (admit policy url s).1
            (admit-IsSafe url target s y) (admit-AllAllowed url s h))
  ]
