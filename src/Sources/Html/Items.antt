-- ===== src/Sources/Html/Items.antt =====
-- `max_items` of app/sources/html_source.py.
use lead_pipe.Prelude.{
  ℕ, zero, suc, ◌+◌, ◌≤◌, ◌<◌, ◌≡◌, false, ◌&&◌, Option, none, some, List, [], ◌∷◌, inl, inr, arith,
  length, length-append, ltb, leb, Bool-cases,
}
use lead_pipe.Prelude.Texts.{Text, mem_text}
use lead_pipe.Libraries.{Urls, Markup}
use lead_pipe.Config.{SourceConfig}
use lead_pipe.Fetch.Network.{FetchPolicy, FetchError, Network}
use lead_pipe.Fetch.Client.{Session}
use lead_pipe.Sources.Loading.{load_text}
use lead_pipe.Sources.Api.Requests.{Loaded-cases}
use lead_pipe.Sources.Html.{
  HtmlOptions, next_url, to_record, is_full, entries, parsed, pages, collect,
}

module _ ⦃n : Network⦄ ⦃w : Urls⦄ ⦃m : Markup⦄ (describe : FetchError → Text) (refused : Text)
    (config : SourceConfig) (options : HtmlOptions) (policy : FetchPolicy) (collected_at : ℕ)
    (limit : ℕ) (limited : options.max_items ≡ some limit) where
  -- so long as the collection is not full, the next entry is within the limit
  within :
      (emitted : ℕ)
      → 0 < limit
      → is_full describe refused config options policy collected_at emitted ≡ false
      → emitted < limit
  within emitted positive e =
      let k : (ltb 0 limit && leb limit emitted) ≡ false = rw limited at e in ground (arith, k)

  -- The entries that are yielded are counted, and a collection that is not full is below the limit.
  entries-le :
      (nodes : List m.Node) (url : Text) (emitted : ℕ) (s : Session)
      → emitted < limit
      → let (items, full, total) =
          (entries describe refused config options policy collected_at nodes url emitted s).0 in
        (emitted + length items ≤ limit)
        × (full ≡ false → (total ≡ emitted + length items) × (total < limit))
  unfolding entries
  entries-le [] url emitted s h = (omega arith, λ e. (omega arith, h))
  entries-le (node ∷ nodes) url emitted s h =
      elim (Bool-cases
        (is_full describe refused config options policy collected_at (suc emitted))) [
          | inl e ↦ rw (e, entries) (omega arith, λ full. absurd (ground arith))
          | inr e ↦
              let s' =
                (to_record describe refused config options policy collected_at node url s).1 in
              let rest =
                entries-le nodes url (suc emitted) s' (within (suc emitted) (omega arith) e) in
              rw (e, entries)
                (omega (arith, rest.0), λ f. (omega (arith, (rest.1 f).0), (rest.1 f).1))
        ]

  pages-le :
      (k : ℕ) (url : Option (Option Text)) (seen : List Text) (emitted : ℕ) (s : Session)
      → emitted < limit
      → emitted
          + length
              (pages describe refused config options policy collected_at k url seen emitted
                s).0.items
        ≤ limit
  unfolding pages
  pages-le zero none seen emitted s h = omega arith
  pages-le zero (some url) seen emitted s h = omega arith
  pages-le (suc k) none seen emitted s h = omega arith
  pages-le (suc k) (some none) seen emitted s h = omega arith
  pages-le (suc k) (some (some url)) seen emitted s h = elim (Bool-cases (mem_text url seen)) [
    | inl e ↦ rw (e, pages) (omega arith)
    | inr e ↦
        let s' = (load_text describe config.name policy url s).1 in
        elim (Loaded-cases (
          parsed describe refused config options policy collected_at
            (load_text describe config.name policy url s).0)) [
              | inl (f, x) ↦ rw (e, pages, x) (omega arith)
              | inr ((page, nodes), x) ↦
                  let listed = entries-le nodes url emitted s' h in
                  elim (Bool-cases
                    (entries describe refused config options policy collected_at nodes url emitted
                      s').0.1) [
                        | inl y ↦ rw (e, pages, x, y) listed.0
                        | inr y ↦
                            let found =
                              entries describe refused config options policy collected_at nodes url
                                emitted s' in
                            let (same, below) = listed.1 y in
                            let rest =
                              pages-le k (next_url options page url) (url ∷ seen) found.0.2 found.1
                                below in
                            rw (e, pages, x, y, length-append) (omega (arith, rest, same))
                      ]
            ]
  ]

  -- Where the options set a limit on the entries, and it is not 0, which means none, the collection
  -- yields no more items than that, over all its pages and however many entries they list.
  pub collect-items_le :
      (s : Session)
      → 0 < limit
      → length (collect describe refused config options policy collected_at s).0.items ≤ limit
  unfolding collect
  collect-items_le s positive =
      omega (arith, pages-le options.max_pages (some (some options.url)) [] 0 s positive)
