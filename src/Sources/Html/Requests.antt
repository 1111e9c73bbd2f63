-- ===== src/Sources/Html/Requests.antt =====
-- What the adapter of app/sources/html_source.py sends.
use lead_pipe.Prelude.{
  ℕ, zero, suc, Option, none, some, List, [], ◌∷◌, inl, inr, Option-cases, Bool-cases,
}
use lead_pipe.Prelude.Texts.{Text, mem_text}
use lead_pipe.Libraries.{Urls, Markup}
use lead_pipe.Config.{SourceConfig}
use lead_pipe.Fetch.Network.{FetchPolicy, FetchError, Network}
use lead_pipe.Fetch.Client.{Session, get}
use lead_pipe.Fetch.Client.Safe.{AllAllowed, get-AllAllowed}
use lead_pipe.Sources.Loading.{load_text}
use lead_pipe.Sources.Api.Requests.{Loaded-cases}
use lead_pipe.Sources.Html.{
  HtmlOptions, extract_all, detail_url, next_url, to_record, is_full, entries, parsed, pages,
  collect,
}

module _ ⦃n : Network⦄ ⦃w : Urls⦄ ⦃m : Markup⦄ (describe : FetchError → Text) (refused : Text)
    (config : SourceConfig) (options : HtmlOptions) (policy : FetchPolicy) (collected_at : ℕ) where
  -- What every fetch keeps, the collection keeps.
  module _ (P : Session → Type 0)
      (fetch : (url : Text) (s : Session) → P s → P (get policy url s).1) where
    to_record-keeps :
        (node : m.Node) (url : Text) (s : Session)
        → P s
        → P (to_record describe refused config options policy collected_at node url s).1
    unfolding to_record load_text
    to_record-keeps node url s h = elim (Option-cases (extract_all config.mapping node)) [
      | inl x ↦ rw (to_record, x) h
      | inr (fields, x) ↦ elim (Option-cases (detail_url options node url)) [
        | inl y ↦ rw (to_record, x, y) h
        | inr (none, y) ↦ rw (to_record, x, y) h
        | inr (some target, y) ↦ rw (to_record, x, y) (fetch target s h)
      ]
    ]

    entries-keeps :
        (nodes : List m.Node) (url : Text) (emitted : ℕ) (s : Session)
        → P s
        → P (entries describe refused config options policy collected_at nodes url emitted s).1
    unfolding entries
    entries-keeps [] url emitted s h = h
    entries-keeps (node ∷ nodes) url emitted s h =
        let s' = (to_record describe refused config options policy collected_at node url s).1 in
        let one = to_record-keeps node url s h in
        elim (Bool-cases
          (is_full describe refused config options policy collected_at (suc emitted))) [
            | inl e ↦ rw (e, entries) one
            | inr e ↦ rw (e, entries) (entries-keeps nodes url (suc emitted) s' one)
          ]

    pages-keeps :
        (k : ℕ) (url : Option (Option Text)) (seen : List Text) (emitted : ℕ) (s : Session)
        → P s
        → P (pages describe refused config options policy collected_at k url seen emitted s).1
    unfolding pages load_text
    pages-keeps zero none seen emitted s h = h
    pages-keeps zero (some url) seen emitted s h = h
    pages-keeps (suc k) none seen emitted s h = h
    pages-keeps (suc k) (some none) seen emitted s h = h
    pages-keeps (suc k) (some (some url)) seen emitted s h = elim (Bool-cases (mem_text url seen)) [
      | inl e ↦ rw (e, pages) h
      | inr e ↦
          let (body, s') = load_text describe config.name policy url s in
          let got = fetch url s h in
          elim (Loaded-cases (
            parsed describe refused config options policy collected_at
              (load_text describe config.name policy url s).0)) [
                | inl (f, x) ↦ rw (e, pages, x) got
                | inr ((page, nodes), x) ↦
                    let listed = entries-keeps nodes url emitted _ got in
                    elim (Bool-cases
                      (entries describe refused config options policy collected_at nodes url emitted
                        (load_text describe config.name policy url s).1).0.1) [
                          | inl y ↦ rw (e, pages, x, y) listed
                          | inr y ↦
                              rw (e, pages, x, y)
                                (pages-keeps k (next_url options page url) (url ∷ seen) _ _ listed)
                        ]
              ]
    ]

  pub collect-AllAllowed :
      (s : Session)
      → AllAllowed policy s
      → AllAllowed policy (collect describe refused config options policy collected_at s).1
  unfolding collect
  collect-AllAllowed s h =
      pages-keeps (AllAllowed policy) (get-AllAllowed policy) options.max_pages
        (some (some options.url)) [] 0 s h
