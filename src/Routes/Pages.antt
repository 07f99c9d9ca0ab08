-- ===== src/Routes/Pages.antt =====
-- apps/api/routers/trusted_flaggers.py, `list_trusted_flaggers`: its pages, one after the other.
use mathlib.Core.List.{Perm}
use dsa_api.Base.{
  ◌⊎◌, ℕ, ◌*◌, ◌≤◌, ◌≡◌, refl, sym, subst, Bool, true, List, [], filter_by, length, arith,
}
use dsa_api.Models.{TrustedFlaggerOrm}
use dsa_api.Text.{Text}
use dsa_api.Normalize.Chars.{Unicode}
use dsa_api.Routes.Tables.{Database, Reply, ok, error, page_of, Paged, in_bounds}
use dsa_api.Routes.Paging.{pages}
use dsa_api.Routes.Sorted.{IsSorted, IsApart, pages-sorted}
use dsa_api.Routes.Listing.{Filters, matches, list_trusted_flaggers}

abbrev pub items_of {ℓ} : {A : Type ℓ} → Reply (Paged A) → List A
items_of (ok page) = page.items
items_of (error status) = []

abbrev pub total_of : Reply (Paged TrustedFlaggerOrm) → ℕ
total_of (ok page) = page.total
total_of (error status) = 0

row_set : IsSet TrustedFlaggerOrm
row_set = hlevel

-- ORDER BY the name, in a collation.
abbrev pub name_le : (Text → Text → Bool) → TrustedFlaggerOrm → TrustedFlaggerOrm → Bool
name_le collate a b = collate a.name b.name

module _ (unicode : Unicode) (ilike : Text → Text → Bool)
    (by_name : List TrustedFlaggerOrm → List TrustedFlaggerOrm) (f : Filters) (db : Database) where
  page_items :
      (limit offset : ℕ)
      → in_bounds 200 limit ≡ true
      → items_of (list_trusted_flaggers unicode ilike by_name f limit offset db)
        ≡ page_of limit offset (by_name (filter_by (matches unicode ilike f) db.flaggers))
  unfolding list_trusted_flaggers
  page_items limit offset h = rw h refl

  page_total :
      (limit offset : ℕ)
      → in_bounds 200 limit ≡ true
      → total_of (list_trusted_flaggers unicode ilike by_name f limit offset db)
        ≡ length (filter_by (matches unicode ilike f) db.flaggers)
  unfolding list_trusted_flaggers
  page_total limit offset h = rw h refl

-- The rows of the query without its pages.
abbrev pub matching : Unicode → (Text → Text → Bool) → Filters → Database → List TrustedFlaggerOrm
matching unicode ilike f db = filter_by (matches unicode ilike f) db.flaggers

module _ (unicode : Unicode) (ilike collate : Text → Text → Bool)
    (by_name : ℕ → List TrustedFlaggerOrm → List TrustedFlaggerOrm) (f : Filters)
    (db : Database) where
  -- Pages of one size within the bounds, one after the other from the first, as many as the
  -- total asks for, are together the matching rows as one query sorts them, and list each
  -- matching row exactly as often as the table has it, if every query sorts the rows by name,
  -- each in its own order of rows with one name, and one page is enough or no two matching rows
  -- have names that the collation takes for equal.
  pub list_trusted_flaggers-pages :
      (limit n : ℕ)
      → ((s : Text) → collate s s ≡ true)
      → ((q : ℕ) → Perm (by_name q (matching unicode ilike f db)) (matching unicode ilike f db))
      → ((q : ℕ) → IsSorted (name_le collate) (by_name q (matching unicode ilike f db)))
      → (n ≤ 1) ⊎ IsApart (name_le collate) (matching unicode ilike f db)
      → in_bounds 200 limit ≡ true
      → total_of (list_trusted_flaggers unicode ilike (by_name 0) f limit 0 db) ≤ n * limit
      → (pages
            (λ offset.
              items_of (list_trusted_flaggers unicode ilike (by_name offset) f limit offset db))
            limit
            0
            n
          ≡ by_name 0 (matching unicode ilike f db))
        × Perm
            (pages
              (λ offset.
                items_of (list_trusted_flaggers unicode ilike (by_name offset) f limit offset db))
              limit
              0
              n)
            (matching unicode ilike f db)
  list_trusted_flaggers-pages limit n reflexive permutes sorts apart h enough =
      let found = matching unicode ilike f db in
      let whole =
        pages-sorted row_set (name_le collate) (λ a. reflexive a.name) _ by_name found limit n
          permutes sorts apart
          (λ offset. page_items unicode ilike (by_name offset) f db limit offset h)
          (omega (arith, enough, page_total unicode ilike (by_name 0) f db limit 0 h)) in
      (whole, subst (λ rows. Perm rows found) (sym whole) (permutes 0))
