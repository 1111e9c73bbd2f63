-- ===== src/Fetch/Urls/Public.antt =====
-- What `ensure_safe_url` of app/fetch/urls.py lets pass.
use lead_pipe.Prelude.{
  ◌≡◌, ◌≢◌, true, false, not, some, List, [], ◌∷◌, arith, any, Option-cases, Bool-cases, inl, inr,
}
use lead_pipe.Prelude.Texts.{Text, mem_text, truthy}
use lead_pipe.Libraries.{Urls, SplitUrl}
use lead_pipe.Fetch.Network.{FetchPolicy, ok, failed, unsafe_url, Network}
use lead_pipe.Fetch.Urls.{
  allowed_schemes, ensure_safe_url, safe_parts, safe_host, all_public, is_public_address,
}

-- The host of a url has addresses, and every one of them is public.
pub record IsPublicHost ⦃n : Network⦄ (host : Text) : Type 0 where
  pub named : truthy host ≡ true
  pub addresses : List Text
  pub resolved : n.resolver host ≡ some addresses
  pub resolves : addresses ≢ []
  pub public_only : any (λ a. not (is_public_address a)) addresses ≡ false

module _ ⦃n : Network⦄ ⦃w : Urls⦄ where
  all_public-any :
      (addresses : List Text)
      → all_public addresses ≡ true
      → (addresses ≢ []) × (any (λ a. not (is_public_address a)) addresses ≡ false)
  all_public-any [] h = cc
  all_public-any (a ∷ rest) h = (λ e. cc, ground arith)

  safe_host-IsPublicHost :
      (host : Text) (policy : FetchPolicy)
      → policy.allow_private_hosts ≡ false
      → truthy host ≡ true
      → safe_host host policy ≡ true
      → IsPublicHost host
  safe_host-IsPublicHost host policy private named h = elim (Option-cases (n.resolver host)) [
    | inl e ↦ absurd (ground arith)
    | inr (addresses, e) ↦
        let (some_there, public) = all_public-any addresses (ground arith) in
        record {
          named = named;
          addresses = addresses;
          resolved = e;
          resolves = some_there;
          public_only = public;
        }
  ]

  -- what the parts of a safe url are
  abbrev pub IsSafeParts : SplitUrl → Type 0
  IsSafeParts parts =
      (mem_text parts.scheme allowed_schemes ≡ true)
      × ((host : Text) × (parts.hostname ≡ some host) × IsPublicHost host)

  safe_parts-IsSafeParts :
      (parts : SplitUrl) (policy : FetchPolicy)
      → policy.allow_private_hosts ≡ false
      → safe_parts parts policy ≡ true
      → IsSafeParts parts
  safe_parts-IsSafeParts parts policy private h = elim (Option-cases parts.hostname) [
    | inl e ↦ absurd (ground arith)
    | inr (host, e) ↦
        let named : truthy host ≡ true = ground arith in
        let safe : safe_host host policy ≡ true = ground arith in
        (ground arith, (host, e, safe_host-IsPublicHost host policy private named safe))
  ]

  -- Where private hosts are not allowed, a url that the check lets pass is returned as it is, is one of
  -- http or https, and its host has addresses, every one of which is public.
  pub ensure_safe_url-IsSafeParts :
      (url target : Text) (policy : FetchPolicy)
      → policy.allow_private_hosts ≡ false
      → ensure_safe_url url policy ≡ ok target
      → (url ≡ target) × ((parts : SplitUrl) × (w.urlsplit url ≡ some parts) × IsSafeParts parts)
  unfolding ensure_safe_url
  ensure_safe_url-IsSafeParts url target policy private h = elim (Option-cases (w.urlsplit url)) [
    | inl e ↦ absurd (ground arith)
    | inr (parts, e) ↦ elim (Bool-cases (safe_parts parts policy)) [
      | inl safe ↦
          let k : ok url ≡ ok target = rw (ensure_safe_url, e, safe) at h in
          (cc, (parts, e, safe_parts-IsSafeParts parts policy private safe))
      | inr unsafe ↦
          absurd
            (let k : failed unsafe_url ≡ ok target = rw (ensure_safe_url, e, unsafe) at h in cc)
    ]
  ]
