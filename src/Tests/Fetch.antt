-- ===== src/Tests/Fetch.antt =====
-- The theorems on app/fetch at concrete inputs.
use lead_pipe.Prelude.{
  ℕ, ◌+◌, ◌*◌, ◌≤◌, ◌≡◌, refl, true, false, none, some, [], ◌∷◌, arith, length, ◌==◌, if◌then◌else◌,
}
use lead_pipe.Prelude.Texts.{codes, text_eq, mem_text}
use lead_pipe.Domain.{get as dict_get, put}
use lead_pipe.Libraries.{SplitUrl}
use lead_pipe.Tests.Instances.{urls}
use lead_pipe.Fetch.Network.{FetchPolicy, Address, Stream, Network}
use lead_pipe.Fetch.Urls.{ensure_safe_url, is_public_address}
use lead_pipe.Fetch.Urls.Public.{IsSafeParts, ensure_safe_url-IsSafeParts}
use lead_pipe.Fetch.Client.{FetchResponse, Session, gather, read_body, get}
use lead_pipe.Fetch.Client.Safe.{AllAllowed, get-AllAllowed}
use lead_pipe.Fetch.Client.Bounds.{sent, get-le, read_body-le}
use lead_pipe.Fetch.Limits.{Call, next_allowed, wait}
use lead_pipe.Fetch.Limits.Spacing.{no_more, wait-spaced}

abbrev outside : Address
outside = record {
  is_private = false;
  is_loopback = false;
  is_link_local = false;
  is_reserved = false;
  is_multicast = false;
  is_unspecified = false;
}

-- the page redirects, and the second one answers
abbrev page : ℕ → Stream
page n = record {
  url = codes "acme.fi";
  status_code = if n == 0 then 302 else 200;
  location = some (codes "acme.fi/en");
  content_length = none;
  chunks = (1 ∷ 2 ∷ []) ∷ (3 ∷ []) ∷ [];
}

instance abbrev pub network : Network
network = record {
  send = λ n url. some (page n);
  resolver = λ host. some (codes "93.184.216.34" ∷ []);
  ip_address = λ value. some outside;
  decode = λ content. content;
  clock = λ n. n * 1000000;
  Parser = Unit;
  parse = λ body. tt;
  can_fetch = λ parser agent url. true;
  crawl_delay = λ parser agent. none;
}

abbrev pub policy : FetchPolicy
policy = record {
  max_response_bytes = 5000000;
  max_redirects = 5;
  retries = 2;
  respect_robots = true;
  robots_ttl = 3600000000;
  allow_private_hosts = false;
  user_agent = codes "LeadPipe";
}

abbrev pub idle : Session
idle = record { requested = []; cache = [] }

get-AllAllowed_example : AllAllowed policy (get policy (codes "acme.fi") idle).1
get-AllAllowed_example = get-AllAllowed policy (codes "acme.fi") idle tt

get-le_example :
    sent policy (get policy (codes "acme.fi") idle).1 ≤ sent policy idle + (5 + 1) * (2 + 2)
get-le_example = get-le policy (codes "acme.fi") idle

abbrev body : FetchResponse
body = record {
  url = codes "acme.fi";
  status_code = 200;
  content = 1 ∷ 2 ∷ 3 ∷ [];
  location = some (codes "acme.fi/en");
}

read_body-le_example : length body.content ≤ 10
unfolding read_body gather
read_body-le_example = read_body-le 10 (page 1) body refl

ensure_safe_url-IsSafeParts_example :
    (codes "acme.fi" ≡ codes "acme.fi")
    × ((parts : SplitUrl) × (urls.urlsplit (codes "acme.fi") ≡ some parts) × IsSafeParts parts)
unfolding ensure_safe_url mem_text text_eq is_public_address
ensure_safe_url-IsSafeParts_example =
    ensure_safe_url-IsSafeParts (codes "acme.fi") (codes "acme.fi") policy refl refl

-- the first call does not sleep, and the second one does, and wakes a little late
abbrev first_call : Call
first_call = record {
  host = codes "acme.fi";
  min_interval = 0;
  now = 1000000;
  wake = λ delay. 1000000 + delay;
}

abbrev second_call : Call
second_call = record {
  host = codes "acme.fi";
  min_interval = 0;
  now = 1200000;
  wake = λ delay. 1200500 + delay;
}

wait-spaced_example : (2000000 ≤ 1200000 + 800000) × (2000000 ≤ 2000500)
unfolding wait next_allowed dict_get put text_eq
wait-spaced_example =
    wait-spaced 1000000 first_call second_call [] (wait 1000000 first_call []).throttle
      (omega arith) (omega arith) no_more refl (λ delay. omega arith)
