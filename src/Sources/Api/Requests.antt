-- ===== src/Sources/Api/Requests.antt =====
-- What the adapter of app/sources/api_source.py sends, and how much.
use native.Mathlib.Nat.{le_refl}
use lead_pipe.Prelude.{
  ℕ, zero, suc, ◌+◌, ◌*◌, ◌≤◌, ◌≡◌, refl, Option, none, some, List, [], ◌∷◌, arith, length, inl,
  inr, ◌⊎◌, Bool-cases,
}
use lead_pipe.Prelude.Texts.{Text, mem_text}
use lead_pipe.Libraries.{Urls, Values}
use lead_pipe.Config.{SourceConfig}
use lead_pipe.Fetch.Network.{FetchPolicy, FetchError, Network}
use lead_pipe.Fetch.Client.{Session, get}
use lead_pipe.Fetch.Client.Safe.{AllAllowed, get-AllAllowed}
use lead_pipe.Fetch.Client.Bounds.{sent, get-le}
use lead_pipe.Pipeline.Run.{Failure}
use lead_pipe.Sources.Loading.{Loaded, loaded, unusable, load_text}
use lead_pipe.Sources.Api.{ApiOptions, load, page_of, next_url, pages, collect, first_url}

pub Loaded-cases :
    {A : Type 0} (r : Loaded A) → ((f : Failure) × (r ≡ unusable f)) ⊎ ((a : A) × (r ≡ loaded a))
Loaded-cases (unusable f) = inl (f, refl)
Loaded-cases (loaded a) = inr (a, refl)

module _ ⦃n : Network⦄ ⦃w : Urls⦄ ⦃v : Values⦄ (describe : FetchError → Text)
    (config : SourceConfig) (options : ApiOptions) (policy : FetchPolicy) (collected_at : ℕ) where
  -- A step of the loop, and what it leaves to the rest: nothing, or the session after one load.
  module _ (P : ℕ → Session → Type 0) (stop : (k : ℕ) (s : Session) → P (suc k) s → P k s)
      (fetch : (k : ℕ) (url : Text) (s : Session) → P (suc k) s → P k (get policy url s).1) where
    spent : (k : ℕ) (s : Session) → P k s → P zero s
    spent zero s h = h
    spent (suc k) s h = spent k s (stop k s h)

    pages-left :
        (k : ℕ) (url : Option (Option Text)) (seen : List Text) (s : Session)
        → P k s
        → P zero (pages describe config options policy collected_at k url seen s).1
    unfolding pages load load_text
    pages-left zero none seen s h = h
    pages-left zero (some url) seen s h = h
    pages-left (suc k) none seen s h = spent (suc k) s h
    pages-left (suc k) (some none) seen s h = spent (suc k) s h
    pages-left (suc k) (some (some url)) seen s h = elim (Bool-cases (mem_text url seen)) [
      | inl e ↦ rw (e, pages) (spent (suc k) s h)
      | inr e ↦
          let (answer, s') = load describe config options policy collected_at url s in
          let kept = fetch k url s h in
          elim (Loaded-cases (
            page_of describe config options policy collected_at url
              (load describe config options policy collected_at url s).0)) [
                | inl (f, x) ↦ rw (e, pages, x) (spent k _ kept)
                | inr ((items, payload), x) ↦
                    rw (e, pages, x)
                      (pages-left k (next_url options payload url (length items)) (url ∷ seen) _
                        kept)
              ]
    ]

  pub collect-AllAllowed :
      (s : Session)
      → AllAllowed policy s
      → AllAllowed policy (collect describe config options policy collected_at s).1
  unfolding collect
  collect-AllAllowed s h =
      pages-left (λ k. AllAllowed policy) (λ k s h. h) (λ k url s h. get-AllAllowed policy url s h)
        options.max_pages (first_url options) [] s h

  abbrev per_page : ℕ
  per_page = (policy.max_redirects + 1) * (policy.retries + 2)

  -- Whatever the pages link to, the collection ends, and it sends at most the requests of one fetch for
  -- each of the pages that the options allow.
  pub collect-sent_le :
      (s : Session)
      → sent policy (collect describe config options policy collected_at s).1
        ≤ sent policy s + options.max_pages * ((policy.max_redirects + 1) * (policy.retries + 2))
  unfolding collect
  collect-sent_le s =
      let limit = sent policy s + options.max_pages * per_page in
      let left =
        pages-left (λ k t. sent policy t + k * per_page ≤ limit) (λ k t h. omega arith)
          (λ k url t h. omega (arith, get-le policy url t)) options.max_pages (first_url options) []
          s (le_refl _) in
      omega (arith, left)
