-- ===== src/Routes/Waitlist.antt =====
-- apps/api/routers/waitlist.py.
use dsa_api.Base.{
  ℕ, Bool, true, false, not, ◌&&◌, ◌||◌, Option, none, some, [], ◌∷◌, length, leb, ltb, ◌==◌,
  if◌then◌else◌,
}
use dsa_api.Text.{Text, is_empty, is_space, strip}
use dsa_api.Normalize.Chars.{Unicode}
use dsa_api.Watchdog.Check.{Posted, answered, failed}
use dsa_api.Routes.Tables.{Reply, ok, error}
use dsa_api.Routes.Lookup.{is_given}

pub record WaitlistIn : Type 0 where
  pub email : Text
  pub company : Option Text

-- `[^@\s]`
abbrev pub is_plain : ℕ → Bool
is_plain c = not (c == 64 || is_space c)

-- The longest part of plain characters, and the rest.
unfoldable pub plain_run : Text → Text × Text
plain_run [] = ([], [])
plain_run (c ∷ s) =
    let rest = plain_run s in if is_plain c then (c ∷ rest.0, rest.1) else ([], c ∷ s)

-- A dot with a character after it.
unfoldable pub dot_then : Text → Bool
dot_then [] = false
dot_then (c ∷ s) = c == 46 && not (is_empty s) || dot_then s

-- `$`: the end, or a line feed that ends the text.
abbrev pub is_end : Text → Bool
is_end [] = true
is_end (c ∷ []) = c == 10
is_end (c ∷ d ∷ s) = false

-- `[^@\s]+\.[^@\s]+$`
abbrev pub match_host : Text × Text → Bool
match_host ([], rest) = false
match_host (c ∷ run, rest) = dot_then run && is_end rest

-- `^[^@\s]+@` and the host.
abbrev pub match_local : Text × Text → Bool
match_local ([], rest) = false
match_local (c ∷ run, []) = false
match_local (c ∷ run, d ∷ rest) = d == 64 && match_host (plain_run rest)

-- `_EMAIL_RE.match(s)`
unfoldable pub match_email : Text → Bool
match_email s = match_local (plain_run s)

unfoldable pub clean_email : Unicode → Text → Option Text
clean_email unicode raw =
    let email = unicode.lower (strip raw) in
    if ltb 254 (length email) || not (match_email email) then none else some email

-- The statuses of the provider that are surfaced; an exception of the client is the framework's 500.
unfoldable pub contact_reply : Posted → Reply {0} Unit
contact_reply failed = error 500
contact_reply (answered status) =
    if (status == 401 || status == 403) || leb 500 status then error 502 else ok tt

-- What follows the check of the address, with the test of the honeypot.
abbrev pub checked_email : Bool → Posted → Option Text → Reply {0} Unit × Option Text
checked_email tripped posted none = (error 422, none)
checked_email tripped posted (some email) =
    if tripped then (ok tt, none) else (contact_reply posted, some email)

-- The reply, and the address that was sent to the provider.
unfoldable pub join_waitlist :
    Unicode
    → (api_key audience_id : Option Text) → WaitlistIn
    → Posted
    → Reply {0} Unit × Option Text
join_waitlist unicode api_key audience_id body posted =
    if is_given api_key && is_given audience_id
    then checked_email (is_given body.company) posted (clean_email unicode body.email)
    else (error 503, none)
