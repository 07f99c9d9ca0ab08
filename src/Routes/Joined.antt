-- ===== src/Routes/Joined.antt =====
-- apps/api/routers/changes.py, `list_changes`: what the join with the flaggers keeps.
use mathlib.Core.List.{Perm}
use mathlib.Core.List.Perm
use dsa_api.Base.{
  ◌⊎◌, Bool, ℕ, ◌*◌, ◌≤◌, ◌≡◌, ◌≢◌, refl, sym, ap, subst, ◌∙◌, arith, true, Option, none, List, [],
  ◌∷◌, ◌++◌, map, filter_by, length, All, leb,
}
use dsa_api.Models.{Time, TrustedFlaggerOrm, TrustedFlaggerEventOrm}
use dsa_api.Ingest.Table.{find, IsTable}
use dsa_api.Routes.Tables.{Database, Reply, ok, error, in_bounds, page_of}
use dsa_api.Routes.Paging.{pages}
use dsa_api.Routes.Sorted.{IsSorted, IsApart, pages-sorted}
use dsa_api.Routes.Changes.{
  ChangeRow, joined_with, joined, is_since, effective_since, ChangePage, list_changes,
}

-- The events of rows.
abbrev pub events_of_rows : List ChangeRow → List TrustedFlaggerEventOrm
events_of_rows = map (λ c. c.event)

-- The foreign key of the events.
abbrev pub HasFlagger : List TrustedFlaggerOrm → TrustedFlaggerEventOrm → Type 0
HasFlagger rows e = find e.tf_id rows ≢ none

joined_with-none :
    (e : TrustedFlaggerEventOrm) (rows : List TrustedFlaggerOrm)
    → find e.tf_id rows ≡ none
    → joined_with e rows ≡ []
unfolding joined_with find
joined_with-none e [] h = refl
joined_with-none e (row ∷ rows) h = ground (arith, joined_with-none e rows)

-- An event joins with exactly one row.
joined_with-one :
    (e : TrustedFlaggerEventOrm) (rows : List TrustedFlaggerOrm)
    → IsTable rows
    → find e.tf_id rows ≢ none
    → events_of_rows (joined_with e rows) ≡ e ∷ []
unfolding joined_with find
joined_with-one e [] t h = absurd (h refl)
joined_with-one e (row ∷ rows) t h = ground (arith, joined_with-one e rows, joined_with-none e rows)

events_of_rows-append :
    (xs ys : List ChangeRow) → events_of_rows (xs ++ ys) ≡ events_of_rows xs ++ events_of_rows ys
events_of_rows-append [] ys = refl
events_of_rows-append (x ∷ xs) ys = ap (λ es. x.event ∷ es) (events_of_rows-append xs ys)

-- The join neither loses an event nor repeats one.
pub events-joined :
    (events : List TrustedFlaggerEventOrm) (rows : List TrustedFlaggerOrm)
    → IsTable rows
    → All (HasFlagger rows) events
    → events_of_rows (joined events rows) ≡ events
unfolding joined
events-joined [] rows t h = refl
events-joined (e ∷ events) rows t h =
    events_of_rows-append (joined_with e rows) (joined events rows)
    ∙ rw (joined_with-one e rows t h.0, events-joined events rows t h.1) refl

events-is_since :
    (since : Time) (cs : List ChangeRow)
    → events_of_rows (filter_by (is_since since) cs)
      ≡ filter_by (λ e. leb since e.occurred_at) (events_of_rows cs)
events-is_since since [] = refl
events-is_since since (c ∷ cs) = ground (arith, events-is_since since cs)

abbrev pub change_total : Reply ChangePage → ℕ
change_total (ok found) = found.page.total
change_total (error status) = 0

abbrev pub change_items : Reply ChangePage → List ChangeRow
change_items (ok found) = found.page.items
change_items (error status) = []

change_set : IsSet ChangeRow
change_set = hlevel

-- ORDER BY the time of the event, descending.
abbrev pub newer : ChangeRow → ChangeRow → Bool
newer a b = leb b.event.occurred_at a.event.occurred_at

leb_refl : (n : ℕ) → leb n n ≡ true
leb_refl n = ground arith

module _ (since : Option Time) (limit : ℕ) (now : Time) (db : Database) where
  -- The rows of the query without its pages.
  abbrev pub found : List ChangeRow
  found = filter_by (is_since (effective_since since now)) (joined db.events db.flaggers)

  abbrev recent : List TrustedFlaggerEventOrm
  recent = filter_by (λ e. leb (effective_since since now) e.occurred_at) db.events

  found-recent :
      IsTable db.flaggers → All (HasFlagger db.flaggers) db.events → events_of_rows found ≡ recent
  found-recent t h =
      events-is_since (effective_since since now) (joined db.events db.flaggers)
      ∙ ap (filter_by (λ e. leb (effective_since since now) e.occurred_at))
          (events-joined db.events db.flaggers t h)

  page_items :
      (newest_first : List ChangeRow → List ChangeRow) (offset : ℕ)
      → in_bounds 500 limit ≡ true
      → change_items (list_changes newest_first since limit offset now db)
        ≡ page_of limit offset (newest_first found)
  unfolding list_changes
  page_items newest_first offset h = rw h refl

  page_total :
      (newest_first : List ChangeRow → List ChangeRow)
      → in_bounds 500 limit ≡ true
      → change_total (list_changes newest_first since limit 0 now db) ≡ length found
  unfolding list_changes
  page_total newest_first h = rw h refl

  -- Pages of one size within the bounds, one after the other from the first, as many as the
  -- total asks for, list each event since the given time exactly once, if no id is twice in the
  -- table, every event has its row there, every query sorts the rows by their times, and there is
  -- one page only or no two rows have one time.
  pub list_changes-pages :
      (newest_first : ℕ → List ChangeRow → List ChangeRow) (n : ℕ)
      → ((q : ℕ) → Perm (newest_first q found) found)
      → ((q : ℕ) → IsSorted newer (newest_first q found))
      → (n ≤ 1) ⊎ IsApart newer found
      → in_bounds 500 limit ≡ true
      → IsTable db.flaggers
      → All (HasFlagger db.flaggers) db.events
      → change_total (list_changes (newest_first 0) since limit 0 now db) ≤ n * limit
      → Perm
          (map
            (λ c. c.event)
            (pages
              (λ offset.
                change_items (list_changes (newest_first offset) since limit offset now db))
              limit
              0
              n))
          (filter_by (λ e. leb (effective_since since now) e.occurred_at) db.events)
  list_changes-pages newest_first n permutes sorts apart bounds t h enough =
      let whole =
        pages-sorted change_set newer (λ c. leb_refl c.event.occurred_at) _ newest_first found limit
          n permutes sorts apart (λ offset. page_items (newest_first offset) offset bounds)
          (omega (arith, enough, page_total (newest_first 0) bounds)) in
      subst (λ rows. Perm (map (λ c. c.event) rows) recent) (sym whole)
        (subst (λ es. Perm (events_of_rows (newest_first 0 found)) es) (found-recent t h)
          (Perm.map (λ c. c.event) (permutes 0)))
