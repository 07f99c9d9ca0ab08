-- ===== src/Routes/Lookup.antt =====
-- apps/api/routers/trusted_flaggers.py, `_extract_host` and `lookup_trusted_flagger`.
use dsa_api.Base.{
  ℕ, ◌+◌, Bool, true, false, not, Option, none, some, List, [], ◌++◌, filter_by, length, ◌==◌,
  if◌then◌else◌,
}
use dsa_api.Models.{Time, TrustedFlaggerOrm}
use dsa_api.Text.{Text, text, is_empty, strip, contains}
use dsa_api.Normalize.Chars.{Unicode}
use dsa_api.Api.Probes.{Call, gave, raised}
use dsa_api.Routes.Tables.{Database, Reply, ok, error, str_eq, data_updated_at}
use dsa_api.Routes.Listing.{is_true}

-- A parameter that is there and not empty.
abbrev pub is_given : Option Text → Bool
is_given none = false
is_given (some s) = not (is_empty s)

abbrev pub one_if : Bool → ℕ
one_if true = 1
one_if false = 0

-- `len(provided)`
abbrev pub provided : (email domain website : Option Text) → ℕ
provided email domain website =
    one_if (is_given email) + one_if (is_given domain) + one_if (is_given website)

abbrev pub or_empty : Option Text → Text
or_empty none = []
or_empty (some s) = s

pub record FoundRows : Type 0 where
  pub rows : List TrustedFlaggerOrm
  pub total : ℕ
  pub updated : Option Time

-- `hostname` is `urlparse(…).hostname`, which may raise ValueError.
module _ (unicode : Unicode) (hostname : Text → Call (Option Text)) where
  abbrev lowered : Call (Option Text) → Option Text
  lowered raised = none
  lowered (gave none) = none
  lowered (gave (some host)) = if is_empty host then none else some (unicode.lower host)

  unfoldable pub extract_host : Text → Option Text
  extract_host url =
      let candidate = strip url in
      if is_empty candidate
      then none
      else lowered (
          hostname
            (if contains (text "://") candidate then candidate else text "https://" ++ candidate))

abbrev pub found_rows : Database → (TrustedFlaggerOrm → Bool) → Reply FoundRows
found_rows db test = ok (record {
  rows = filter_by test db.flaggers;
  total = length (filter_by test db.flaggers);
  updated = data_updated_at db.runs;
})

-- `db_lower` is the database's `lower`.
module _ (db_lower : Text → Text) where
  abbrev pub has_email : Text → TrustedFlaggerOrm → Bool
  has_email email row = is_true (λ have. str_eq (db_lower have) email) row.email

  abbrev pub has_domain : Text → TrustedFlaggerOrm → Bool
  has_domain domain row = is_true (λ have. str_eq (db_lower have) domain) row.email_domain

  abbrev pub found_host : Database → Option Text → Reply FoundRows
  found_host db none = error 400
  found_host db (some host) = if is_empty host then error 400 else found_rows db (has_domain host)

  unfoldable pub lookup_trusted_flagger :
      Unicode
      → (Text → Call (Option Text))
      → (email domain website : Option Text) → Database
      → Reply FoundRows
  lookup_trusted_flagger unicode hostname email domain website db =
      if provided email domain website == 1
      then (if is_given email
          then found_rows db (has_email (unicode.lower (strip (or_empty email))))
          else if is_given domain
          then found_rows db (has_domain (unicode.lower (strip (or_empty domain))))
          else found_host db (extract_host unicode hostname (or_empty website)))
      else error 400
