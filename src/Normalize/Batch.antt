-- ===== src/Normalize/Batch.antt =====
-- apps/scraper/parse.py, `normalize_rows`: no row is lost, and what is kept is good.
use dsa_api.Base.{◌≡◌, refl, subst, List, [], ◌∷◌, All, arith}
use dsa_api.Models.{Uuid, ScrapedTrustedFlagger}
use dsa_api.Text.{Text}
use dsa_api.Json.{Json, null, boolean, number, string, array, object, entries}
use dsa_api.Normalize.Chars.{Unicode}
use dsa_api.Normalize.Rows.{
  Row, RowError, normalize_item, Result, ok, bad_row, crashed, with_row, normalize_rows,
}
use dsa_api.Normalize.Valid.{IsNormalized, normalize_row-IsNormalized, ok_injective}

module _ (unicode : Unicode) (uuid5 : Text → Uuid) (row_hash : Row → Result Text) where
  -- Row by row, in order: a row is kept as the row that it is normalized to, which is as
  -- `normalize_row` promises, or its own error is listed.
  pub data IsPartition : List Json → List ScrapedTrustedFlagger → List RowError → Type 0 where
    all_done : IsPartition [] [] []
    keeps :
        {raw : Json} {rows : List Json} {tf : ScrapedTrustedFlagger}
        {tfs : List ScrapedTrustedFlagger} {errors : List RowError}
        → normalize_item unicode uuid5 row_hash raw ≡ ok tf
        → IsNormalized unicode uuid5 row_hash tf
        → IsPartition rows tfs errors
        → IsPartition (raw ∷ rows) (tf ∷ tfs) errors
    lists :
        {raw : Json} {rows : List Json} {e : RowError} {tfs : List ScrapedTrustedFlagger}
        {errors : List RowError}
        → normalize_item unicode uuid5 row_hash raw ≡ bad_row e
        → IsPartition rows tfs errors
        → IsPartition (raw ∷ rows) tfs (e ∷ errors)

  pub partition-IsNormalized :
      {rows : List Json} {tfs : List ScrapedTrustedFlagger} {errors : List RowError}
      → IsPartition rows tfs errors
      → All (IsNormalized unicode uuid5 row_hash) tfs
  partition-IsNormalized all_done = tt
  partition-IsNormalized (keeps e good rest) = (good, partition-IsNormalized rest)
  partition-IsNormalized (lists e rest) = partition-IsNormalized rest

  item-IsNormalized :
      (raw : Json) (tf : ScrapedTrustedFlagger)
      → normalize_item unicode uuid5 row_hash raw ≡ ok tf
      → IsNormalized unicode uuid5 row_hash tf
  unfolding normalize_item
  item-IsNormalized (object members) tf h =
      normalize_row-IsNormalized unicode uuid5 row_hash (entries members) tf h
  item-IsNormalized null tf h = absurd (grind arith)
  item-IsNormalized (boolean b) tf h = absurd (grind arith)
  item-IsNormalized (number n) tf h = absurd (grind arith)
  item-IsNormalized (string s) tf h = absurd (grind arith)
  item-IsNormalized (array a) tf h = absurd (grind arith)

  kept :
      (raw : Json) (rows : List Json) (rest : List ScrapedTrustedFlagger × List RowError)
      (r : Result ScrapedTrustedFlagger) (found : List ScrapedTrustedFlagger × List RowError)
      → normalize_item unicode uuid5 row_hash raw ≡ r
      → IsPartition rows rest.0 rest.1
      → with_row unicode uuid5 row_hash r (ok rest) ≡ ok found
      → IsPartition (raw ∷ rows) found.0 found.1
  kept raw rows rest (ok tf) found e p h =
      subst (λ (f : List ScrapedTrustedFlagger × List RowError). IsPartition (raw ∷ rows) f.0 f.1)
        (ok_injective _ found h) (keeps e (item-IsNormalized raw tf e) p)
  kept raw rows rest (bad_row e) found eq p h =
      subst (λ (f : List ScrapedTrustedFlagger × List RowError). IsPartition (raw ∷ rows) f.0 f.1)
        (ok_injective _ found h) (lists eq p)
  kept raw rows rest crashed found e p h = absurd (grind arith)

  with_row-ok :
      (r : Result ScrapedTrustedFlagger)
      (rest : Result (List ScrapedTrustedFlagger × List RowError))
      (found : List ScrapedTrustedFlagger × List RowError)
      → with_row unicode uuid5 row_hash r rest ≡ ok found
      → (x : List ScrapedTrustedFlagger × List RowError) × (rest ≡ ok x)
        × (with_row unicode uuid5 row_hash r (ok x) ≡ ok found)
  with_row-ok (ok tf) (ok x) found h = (x, refl, h)
  with_row-ok (bad_row e) (ok x) found h = (x, refl, h)
  with_row-ok (ok tf) (bad_row e) found h = absurd (grind arith)
  with_row-ok (ok tf) crashed found h = absurd (grind arith)
  with_row-ok (bad_row e) (bad_row f) found h = absurd (grind arith)
  with_row-ok (bad_row e) crashed found h = absurd (grind arith)
  with_row-ok crashed rest found h = absurd (grind arith)

  -- If no exception goes through, then, row by row and in order, every raw row is kept as the
  -- row that it is normalized to, which is as the check of a single row promises, or its own
  -- error is listed, and nothing else is kept or listed.
  pub normalize_rows-IsPartition :
      (rows : List Json) (found : List ScrapedTrustedFlagger × List RowError)
      → normalize_rows unicode uuid5 row_hash rows ≡ ok found
      → IsPartition rows found.0 found.1
  unfolding normalize_rows
  normalize_rows-IsPartition [] found h =
      subst (λ (f : List ScrapedTrustedFlagger × List RowError). IsPartition [] f.0 f.1)
        (ok_injective _ found h) all_done
  normalize_rows-IsPartition (raw ∷ rows) found h =
      let r = normalize_item unicode uuid5 row_hash raw in
      let split = with_row-ok r (normalize_rows unicode uuid5 row_hash rows) found h in
      kept raw rows split.0 r found refl (normalize_rows-IsPartition rows split.0 split.1) split.2
