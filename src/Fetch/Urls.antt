-- ===== src/Fetch/Urls.antt =====
-- app/fetch/urls.py
pub mod Public
use lead_pipe.Prelude.{
  ℕ, Bool, true, false, not, ◌&&◌, ◌||◌, Option, none, some, List, [], ◌∷◌, any, if◌then◌else◌,
}
use lead_pipe.Prelude.Texts.{Text, codes, mem_text, truthy}
use lead_pipe.Libraries.{Urls, SplitUrl}
use lead_pipe.Fetch.Network.{
  FetchPolicy, FetchError, unsafe_url, value_error, Result, ok, failed, Address, Network,
}

abbrev pub allowed_schemes : List Text
allowed_schemes = codes "http" ∷ codes "https" ∷ []

-- `none` where `urlsplit` raises
unfoldable pub origin_of : ⦃w : Urls⦄ → Text → Option Text
origin_of ⦃w⦄ url = elim (w.urlsplit url) [
  | none ↦ none
  | some parts ↦ some (w.urlunsplit parts.scheme parts.netloc [] [] [])
]

abbrev pub is_global : Address → Bool
is_global a = not (
    a.is_private || a.is_loopback || a.is_link_local || a.is_reserved || a.is_multicast
    || a.is_unspecified)

module _ ⦃n : Network⦄ where
  unfoldable pub is_public_address : Text → Bool
  is_public_address value = elim (n.ip_address value) [ none ↦ false | some a ↦ is_global a ]

  -- the addresses are there, and every one is public
  abbrev pub all_public : List Text → Bool
  all_public [] = false
  all_public (a ∷ rest) = not (any (λ x. not (is_public_address x)) (a ∷ rest))

  abbrev pub safe_host : Text → FetchPolicy → Bool
  safe_host host policy =
      if policy.allow_private_hosts
      then true
      else elim (n.resolver host) [ none ↦ false | some addresses ↦ all_public addresses ]

  abbrev pub safe_parts : SplitUrl → FetchPolicy → Bool
  safe_parts parts policy =
      mem_text parts.scheme allowed_schemes
      && elim parts.hostname [ none ↦ false | some host ↦ truthy host && safe_host host policy ]

  unfoldable pub ensure_safe_url : ⦃w : Urls⦄ → Text → FetchPolicy → Result Text
  ensure_safe_url ⦃w⦄ url policy = elim (w.urlsplit url) [
    | none ↦ failed value_error
    | some parts ↦ if safe_parts parts policy then ok url else failed unsafe_url
  ]
