-- ===== src/Repositories/Leads/Pages.antt =====
-- `page`, `iter_export` and `count` of app/repositories/leads.py: leads by a filter, in pages, ordered by id. A page is
-- its leads; `exported` adds to a lead the names of its sources, which the statement selects beside it.
use lead_pipe.Prelude.{
  ℕ, zero, suc, ◌<◌, ◌≡◌, ◌∙◌, refl, ap, Bool, true, false, ◌&&◌, Option, none, some, List, [], ◌∷◌,
  ◌++◌, arith, ◌==◌, ltb, leb, any, take, length, All, if◌then◌else◌,
}
use lead_pipe.Prelude.Unicode.{Unicode}
use lead_pipe.Prelude.Texts.{Text, text_eq, opt_text_eq, truthy}
use lead_pipe.Prelude.Tables.{select, find, count}
use lead_pipe.Prelude.Orders.{ascending, sort_by}
use lead_pipe.Prelude.Keyset.{
  sort_by-Rising, Rising, above, last_id, rounds, rounds_lem, select-and, length-select-le,
  Rising-select, above_all, Over-select,
}
use lead_pipe.Domain.{LeadFilter, ValidationStatus}
use lead_pipe.Db.{Db, Lead, Source, SourceRecord}
use lead_pipe.Db.Platform.{Platform}
use lead_pipe.Repositories.Leads.{of_lead}

-- a condition that is asked for only where the filter has a value that is not empty
abbrev if_text : Option Text → (Text → Bool) → Bool
if_text none p = true
if_text (some v) p = if truthy v then p v else true

abbrev if_given {ℓ} : {A : Type ℓ} → Option A → (A → Bool) → Bool
if_given none p = true
if_given (some v) p = p v

abbrev same_status : ValidationStatus → ValidationStatus → Bool
same_status ValidationStatus.valid ValidationStatus.valid = true
same_status ValidationStatus.invalid ValidationStatus.invalid = true
same_status ValidationStatus.unknown ValidationStatus.unknown = true
same_status _ _ = false

abbrev lowered_is : ⦃g : Platform⦄ → Option Text → Text → Bool
lowered_is none city = false
lowered_is ⦃g⦄ (some c) city = text_eq (g.lower c) city

-- the lead has a record from the source of that name
abbrev from_source : Db → Lead → Text → Bool
from_source db l name =
    any
      (λ r. of_lead l.id r && any (λ s. s.id == r.source_id && text_eq s.name name) db.sources.rows)
      db.records.rows

pub record LeadExport : Type 0 where
  pub lead : Lead
  pub sources : List Text

abbrev names_of : List Source → List SourceRecord → List Text
names_of sources [] = []
names_of sources (r ∷ rs) =
    let rest = names_of sources rs in
    elim (find (λ s. s.id == r.source_id) sources) [ none ↦ rest | some s ↦ s.name ∷ rest ]

-- `_source_names`
unfoldable pub source_names : ⦃g : Platform⦄ → Db → Lead → List Text
source_names ⦃g⦄ db l =
    g.distinct (names_of db.sources.rows (select (of_lead l.id) db.records.rows))

abbrev pub exported : ⦃g : Platform⦄ → Db → Lead → LeadExport
exported db l = record { lead = l; sources = source_names db l }

module _ ⦃u : Unicode⦄ ⦃g : Platform⦄ where
  -- `_conditions`, all of them
  unfoldable pub conditions : LeadFilter → Db → Lead → Bool
  conditions f db l =
      if_text f.country (λ c. opt_text_eq l.country (some c))
      && if_text f.city (λ c. lowered_is l.city (u.lower c))
      && if_given f.validation_status (λ s. same_status l.validation_status s)
      && if_given f.created_from (λ t. leb t l.created_at)
      && if_given f.created_to (λ t. leb l.created_at t)
      && if_text f.source (from_source db l)

  unfoldable pub page : LeadFilter → ℕ → ℕ → Db → List Lead
  page f limit after_id db = take limit (
      sort_by ascending (λ l. l.id)
        (select (λ l. ltb after_id l.id && conditions f db l) db.leads.rows))

  -- the loop of `iter_export`, with so many pages at most
  unfoldable pub export_after : ℕ → LeadFilter → ℕ → ℕ → Db → List Lead
  export_after zero f batch_size after_id db = []
  export_after (suc k) f batch_size after_id db =
      let rows = page f batch_size after_id db in
      let rest = export_after k f batch_size (last_id (λ l. l.id) after_id rows) db in
      if ltb 0 (length rows)
      then (if ltb (length rows) batch_size then rows else rows ++ rest)
      else []

  unfoldable pub iter_export : ℕ → LeadFilter → ℕ → Db → List Lead
  iter_export pages f batch_size db = export_after pages f batch_size 0 db

  unfoldable pub count_leads : LeadFilter → Db → ℕ
  count_leads f db = count (conditions f db) db.leads.rows

  pub page-above :
      (f : LeadFilter) (limit a : ℕ) (db : Db)
      → Rising (λ l. l.id) db.leads.rows
      → page f limit a db
        ≡ take limit (above (λ l. l.id) a (select (conditions f db) db.leads.rows))
  unfolding page
  page-above f limit a db rising = ap (take limit) (
      sort_by-Rising (λ l. l.id) _ (Rising-select (λ l. l.id) _ db.leads.rows rising)
      ∙ select-and (λ l. ltb a l.id) (conditions f db) db.leads.rows)

  nonempty_page :
      (n : ℕ) (rows rest : List Lead)
      → 0 < n
      → (if ltb 0 (length rows) then (if ltb (length rows) n then rows else rows ++ rest) else [])
        ≡ (if ltb (length rows) n then rows else rows ++ rest)
  nonempty_page n [] rest h = ground arith
  nonempty_page n (x ∷ rows) rest h = ground arith

  export-rounds :
      (k : ℕ) (f : LeadFilter) (n a : ℕ) (db : Db)
      → 0 < n
      → Rising (λ l. l.id) db.leads.rows
      → export_after k f n a db ≡ rounds (λ l. l.id) k n a (select (conditions f db) db.leads.rows)
  unfolding export_after rounds
  export-rounds zero f n a db h rising = refl
  export-rounds (suc k) f n a db h rising =
      let rows = page f n a db in
      nonempty_page n rows (export_after k f n (last_id (λ l. l.id) a rows) db) h
      ∙ rw
          (export-rounds k f n (last_id (λ l. l.id) a rows) db h rising, page-above f n a db rising)
          refl

  -- With batches of one lead at least, ids that rise from one on, and more pages allowed than there are
  -- leads, the export yields each lead that the filter asks for, once and in the order of the ids.
  pub iter_export-select :
      (pages : ℕ) (f : LeadFilter) (batch_size : ℕ) (db : Db)
      → 0 < batch_size
      → All (λ l. 0 < l.id) db.leads.rows
      → Rising (λ l. l.id) db.leads.rows
      → length db.leads.rows < pages
      → iter_export pages f batch_size db ≡ select (conditions f db) db.leads.rows
  unfolding iter_export
  iter_export-select pages f batch_size db some_rows positive rising enough =
      let ys = select (conditions f db) db.leads.rows in
      let whole : above (λ l. l.id) 0 ys ≡ ys =
        above_all (λ l. l.id) 0 ys
          (Over-select (λ l. l.id) 0 (conditions f db) db.leads.rows positive) in
      let few : length (above (λ l. l.id) 0 ys) < pages =
        rw whole (omega (arith, length-select-le (conditions f db) db.leads.rows)) in
      export-rounds pages f batch_size 0 db some_rows rising
      ∙ rounds_lem (λ l. l.id) pages batch_size 0 ys some_rows
          (Rising-select (λ l. l.id) (conditions f db) db.leads.rows rising) few
      ∙ whole
