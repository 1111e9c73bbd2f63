-- ===== src/Api/Lists/One.antt =====
-- `get_lead` of app/api/routes.py reads a page of one lead; it finds what the table has.
use lead_pipe.Prelude.{
  ℕ, ◌-◌, ◌≤◌, ◌<◌, ◌≡◌, refl, ap, sym, max, false, Option, none, some, List, [], ◌∷◌, map, arith,
  inl, inr, ◌==◌, ltb, take, All, Bool-cases, not_some,
}
use lead_pipe.Prelude.Unicode.{Unicode}
use lead_pipe.Prelude.Ints.{ℤ, pos, negsuc}
use lead_pipe.Prelude.Keyset.{Rising, above, Over}
use lead_pipe.Prelude.Tables.{select, find}
use lead_pipe.Db.{Db, Lead}
use lead_pipe.Db.Platform.{Platform}
use lead_pipe.Repositories.Leads.{get}
use lead_pipe.Repositories.Leads.Pages.{exported, conditions, page-above, source_names}
use lead_pipe.Repositories.Leads.Provenance.{provenance}
use lead_pipe.Api.Schemas.{LeadDetail, lead_detail}
use lead_pipe.Api.Lists.{Settings, page_size, no_filter, detailed, get_lead}

-- A page is at least one lead and at most the larger of the two sizes that are set, if both are one at
-- least, whatever limit a client asks for.
pub page_size-within :
    (settings : Settings) (limit : Option ℤ) (n : ℕ)
    → 0 < settings.default_page_size
    → 0 < settings.max_page_size
    → page_size settings limit ≡ some n
    → (0 < n) × (n ≤ max settings.default_page_size settings.max_page_size)
unfolding page_size
page_size-within settings none n h k e = ground arith
page_size-within settings (some (negsuc m)) n h k e = absurd (not_some e)
page_size-within settings (some (pos m)) n h k e = ground arith

module _ ⦃u : Unicode⦄ ⦃g : Platform⦄ where
  all-rows : (db : Db) (rows : List Lead) → select (conditions no_filter db) rows ≡ rows
  unfolding select conditions
  all-rows db [] = refl
  all-rows db (l ∷ ls) = ap (λ xs. l ∷ xs) (all-rows db ls)

  not_later :
      (id : ℕ) (rows : List Lead) (n : ℕ)
      → id ≤ n
      → Over (λ l. l.id) n rows
      → find (λ l. l.id == id) rows ≡ none
  unfolding find
  not_later id [] n h o = refl
  not_later id (l ∷ ls) n h o =
      let e : (l.id == id) ≡ false = ground arith in rw (e, not_later id ls n h o.1) refl

  -- the lead in full, if there is one
  abbrev pub in_full : Db → Option Lead → Option LeadDetail
  in_full db none = none
  in_full db (some l) = some (lead_detail l (source_names db l) (provenance l.id db))

  first-above :
      (id : ℕ) (db : Db) (rows : List Lead)
      → All (λ l. 0 < l.id) rows
      → Rising (λ l. l.id) rows
      → detailed id db (map (exported db) (take 1 (above (λ l. l.id) (id - 1) rows)))
        ≡ in_full db (find (λ l. l.id == id) rows)
  unfolding select find
  first-above id db [] p r = refl
  first-above id db (l ∷ ls) p r = elim (Bool-cases (ltb (id - 1) l.id)) [
    | inr e ↦
        let other : (l.id == id) ≡ false = ground (arith, p.0) in
        rw (e, other) (first-above id db ls p.1 r.1)
    | inl e ↦ elim (Bool-cases (l.id == id)) [
      | inl f ↦
          let same : l.id ≡ id = ground arith in
          rw (e, f)
            (ap (λ n. some (lead_detail l (source_names db l) (provenance n db))) (sym same))
      | inr f ↦
          let past : id ≤ l.id = ground (arith, p.0) in
          rw (e, f, not_later id ls l.id past r.0) refl
    ]
  ]

  -- Where ids rise from one on, the lead that is read by its id is the one of the table with that id,
  -- in full, and there is none exactly if the table has none.
  pub get_lead-get :
      (id : ℕ) (db : Db)
      → All (λ l. 0 < l.id) db.leads.rows
      → Rising (λ l. l.id) db.leads.rows
      → get_lead id db ≡ in_full db (get id db)
  unfolding get_lead get
  get_lead-get id db positive rising =
      rw (page-above no_filter 1 (id - 1) db rising, all-rows db db.leads.rows)
        (first-above id db db.leads.rows positive rising)
