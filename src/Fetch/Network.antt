-- ===== src/Fetch/Network.antt =====
-- app/fetch/policy.py and app/fetch/errors.py, and what app/fetch asks of httpx, of the resolver, of
-- `ipaddress` and of `urllib.robotparser`, as parameters.
use lead_pipe.Prelude.{ℕ, Bool, Option, List}
use lead_pipe.Prelude.Ratios.{Ratio}
use lead_pipe.Prelude.Texts.{Text}

-- the fields that decide what is fetched; times are in microseconds
pub record FetchPolicy : Type 0 where
  pub max_response_bytes : ℕ
  pub max_redirects : ℕ
  pub retries : ℕ
  pub respect_robots : Bool
  pub robots_ttl : ℕ
  pub allow_private_hosts : Bool
  pub user_agent : Text

-- the errors that a fetch raises; `value_error` is that of `urlsplit` and of `int`
pub data FetchError : Type 0 where
  unsafe_url robots_disallowed response_too_large too_many_redirects gave_up value_error :
      FetchError

pub data Result {ℓ} (A : Type ℓ) : Type ℓ where
  ok : A → Result A
  failed : FetchError → Result A

-- the properties of `ipaddress.ip_address(value)`
pub record Address : Type 0 where
  pub is_private : Bool
  pub is_loopback : Bool
  pub is_link_local : Bool
  pub is_reserved : Bool
  pub is_multicast : Bool
  pub is_unspecified : Bool

-- an answer while its body is read: a chunk is its bytes; `content_length` is the header, and what
-- `int` makes of it
pub record Stream : Type 0 where
  pub url : Text
  pub status_code : ℕ
  pub location : Option Text
  pub content_length : Option (Option ℕ)
  pub chunks : List (List ℕ)

pub record Network : Type 1 where
  -- what the n-th request gives: `none` is an error of the transport or the protocol
  pub send : ℕ → Text → Option Stream
  -- the addresses of a host: `none` is an `OSError`
  pub resolver : Text → Option (List Text)
  -- `none` is a `ValueError`
  pub ip_address : Text → Option Address
  pub decode : List ℕ → Text
  -- the clock after n requests
  pub clock : ℕ → ℕ
  pub Parser : Type 0
  pub parse : Text → Parser
  pub can_fetch : Parser → Text → Text → Bool
  pub crawl_delay : Parser → Text → Option Ratio
