-- ===== src/Api/Lists/Cursors.antt =====
-- What a client of app/api/routes.py reads: the leads page by page, and one lead by its id.
use lead_pipe.Prelude.{
  ℕ, zero, suc, ◌<◌, ◌≡◌, ◌∙◌, refl, ap, true, false, Option, none, some, List, [], ◌∷◌, ◌++◌, map,
  arith, inl, inr, ◌==◌, ltb, length, length-map, map-append, length-take-le, take, All, Bool-cases,
  if◌then◌else◌,
}
use lead_pipe.Prelude.Unicode.{Unicode}
use lead_pipe.Prelude.Keyset.{
  Rising, above, above_all, Over-select, Rising-select, last_id, length-select-le, rounds,
  rounds_lem,
}
use lead_pipe.Prelude.Tables.{select}
use lead_pipe.Domain.{LeadFilter}
use lead_pipe.Db.{Db, Lead}
use lead_pipe.Db.Platform.{Platform}
use lead_pipe.Repositories.Leads.Pages.{exported, conditions, page, page-above}
use lead_pipe.Api.Schemas.{LeadOut, lead_out, Page}
use lead_pipe.Api.Lists.{last, page_of, list_leads}

last-last_id :
    {A : Type 0} (f : Lead → A) (l : Lead) (ls : List Lead) (a : ℕ)
    → (m : Lead) × (last (map f (l ∷ ls)) ≡ some (f m)) × (m.id ≡ last_id (λ x. x.id) a (l ∷ ls))
last-last_id f l [] a = (l, refl, refl)
last-last_id f l (k ∷ ks) a = last-last_id f k ks l.id

module _ ⦃u : Unicode⦄ ⦃g : Platform⦄ where
  abbrev pub out : Db → Lead → LeadOut
  out db l = lead_out (exported db l)

  -- the pages that a client reads when it follows the cursors, so many at most
  abbrev pub follow : ℕ → LeadFilter → ℕ → ℕ → Db → Option (List LeadOut)
  follow zero f limit cursor db = some []
  follow (suc k) f limit cursor db = elim (list_leads f limit cursor db) [
    | none ↦ none
    | some p ↦ elim p.next_cursor [
      | none ↦ some p.items
      | some next ↦ elim (follow k f limit next db) [
        | none ↦ none
        | some rest ↦ some (p.items ++ rest)
      ]
    ]
  ]

  -- a page, as its rows decide
  abbrev answered : ℕ → ℕ → Db → List Lead → Option (Page LeadOut)
  answered limit cursor db rows = some (record {
    items = map (out db) rows;
    limit = limit;
    next_cursor = if length rows == limit then some (last_id (λ l. l.id) cursor rows) else none;
  })

  answered-rows :
      (limit cursor : ℕ) (db : Db) (rows : List Lead)
      → 0 < limit
      → page_of (λ l. l.id) limit (map (out db) rows) ≡ answered limit cursor db rows
  answered-rows limit cursor db [] h = let e : (0 == limit) ≡ false = ground arith in rw e refl
  answered-rows limit cursor db (l ∷ ls) h =
      let (m, same, at) = last-last_id (out db) l ls cursor in
      elim (Bool-cases (length (l ∷ ls) == limit)) [
        | inl e ↦ rw (length-map (out db) ls, e, same, at) refl
        | inr e ↦ rw (length-map (out db) ls, e) refl
      ]

  list_leads-answered :
      (f : LeadFilter) (limit cursor : ℕ) (db : Db)
      → 0 < limit
      → Rising (λ l. l.id) db.leads.rows
      → list_leads f limit cursor db
        ≡ answered limit cursor db
            (take limit (above (λ l. l.id) cursor (select (conditions f db) db.leads.rows)))
  unfolding list_leads
  list_leads-answered f limit cursor db h rising =
      rw⁻¹ (page-above f limit cursor db rising)
        (answered-rows limit cursor db (page f limit cursor db) h)

  follow-rounds :
      (k : ℕ) (f : LeadFilter) (n c : ℕ) (db : Db)
      → 0 < n
      → Rising (λ l. l.id) db.leads.rows
      → follow k f n c db
        ≡ some (map (out db) (rounds (λ l. l.id) k n c (select (conditions f db) db.leads.rows)))
  unfolding rounds
  follow-rounds zero f n c db h rising = refl
  follow-rounds (suc k) f n c db h rising =
      let ys = select (conditions f db) db.leads.rows in
      let rows = take n (above (λ l. l.id) c ys) in
      let short = length-take-le n (above (λ l. l.id) c ys) in
      elim (Bool-cases (length rows == n)) [
        | inl e ↦
            let more : ltb (length rows) n ≡ false = ground arith in
            rw
              (
                follow,
                list_leads-answered f n c db h rising,
                e,
                follow-rounds k f n (last_id (λ l. l.id) c rows) db h rising,
                more,
                map-append (out db) rows,
              )
              refl
        | inr e ↦
            let done : ltb (length rows) n ≡ true = ground arith in
            rw (follow, list_leads-answered f n c db h rising, e, done) refl
      ]

  -- With pages of one lead at least, ids that rise from one on, and more pages allowed than there are
  -- leads: a client that follows the cursors until there is none reads each lead that the filter asks
  -- for, once and in the order of the ids, and no answer is an error.
  pub follow-select :
      (pages : ℕ) (f : LeadFilter) (limit : ℕ) (db : Db)
      → 0 < limit
      → All (λ l. 0 < l.id) db.leads.rows
      → Rising (λ l. l.id) db.leads.rows
      → length db.leads.rows < pages
      → follow pages f limit 0 db ≡ some (map (out db) (select (conditions f db) db.leads.rows))
  follow-select pages f limit db some_rows positive rising enough =
      let ys = select (conditions f db) db.leads.rows in
      let whole : above (λ l. l.id) 0 ys ≡ ys =
        above_all (λ l. l.id) 0 ys
          (Over-select (λ l. l.id) 0 (conditions f db) db.leads.rows positive) in
      let few : length (above (λ l. l.id) 0 ys) < pages =
        rw whole (omega (arith, length-select-le (conditions f db) db.leads.rows)) in
      follow-rounds pages f limit 0 db some_rows rising
      ∙ ap (λ ls. some (map (out db) ls))
          (rounds_lem (λ l. l.id) pages limit 0 ys some_rows
              (Rising-select (λ l. l.id) (conditions f db) db.leads.rows rising) few
            ∙ whole)
