-- ===== src/Normalize/Hashes.antt =====
-- core/normalize.py: `compute_row_hash`.
use dsa_api.Base.{Option, none, some, List, ℕ}
use dsa_api.Text.{Text}
use dsa_api.Normalize.Rows.{Row, Result, ok, crashed}

-- `dumps` is `json.dumps` with sorted keys and no spaces, `encode` the encoding in UTF-8, which
-- raises for a lone surrogate, and `sha256` the digest in hexadecimal.
module _ (dumps : Row → Text) (encode : Text → Option (List ℕ)) (sha256 : List ℕ → Text) where
  abbrev digest_of : Option (List ℕ) → Result Text
  digest_of none = crashed
  digest_of (some bytes) = ok (sha256 bytes)

  unfoldable pub compute_row_hash : Row → Result Text
  compute_row_hash raw = digest_of (encode (dumps raw))
