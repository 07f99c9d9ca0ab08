-- ===== src/Settings/Database.antt =====
-- core/config.py: `normalize_database_url`.
use dsa_api.Base.{Bool, true, false, ◌&&◌, ◌||◌, List, [], ◌∷◌, map, if◌then◌else◌}
use dsa_api.Text.{Text, text, text_discrete, contains}

-- `SplitResult`
pub record Parts : Type 0 where
  pub scheme : Text
  pub netloc : Text
  pub path : Text
  pub query : Text
  pub fragment : Text

-- What `urllib.parse` does; `parse_qsl` keeps blank values.
pub record UrlLib : Type 0 where
  pub urlsplit : Text → Parts
  pub urlunsplit : Parts → Text
  pub parse_qsl : Text → List (Text × Text)
  pub urlencode : List (Text × Text) → Text

unfoldable pub is_text : Text → Text → Bool
is_text a b = elim (text_discrete a b) [ yes _ ↦ true | no _ ↦ false ]

-- `s.endswith(p)`
unfoldable pub ends_with : Text → Text → Bool
ends_with p [] = is_text [] p
ends_with p (c ∷ s) = is_text (c ∷ s) p || ends_with p s

unfoldable pub driver_scheme : Text → Text
driver_scheme scheme =
    if is_text scheme (text "postgres") || is_text scheme (text "postgresql")
    then text "postgresql+asyncpg"
    else scheme

unfoldable pub ssl_pair : Text × Text → Text × Text
ssl_pair (k, v) = ((if is_text k (text "sslmode") then text "ssl" else k), v)

module _ (lib : UrlLib) where
  unfoldable pub new_query : (scheme query : Text) → Text
  new_query scheme query =
      if ends_with (text "+asyncpg") scheme && contains (text "sslmode=") query
      then lib.urlencode (map ssl_pair (lib.parse_qsl query))
      else query

  -- The parts that are put together again.
  abbrev pub new_parts : Parts → Parts
  new_parts p = record p {
    scheme = driver_scheme p.scheme;
    query = new_query (driver_scheme p.scheme) p.query;
  }

  unfoldable pub normalize_database_url : Text → Text
  normalize_database_url url =
      let parts = lib.urlsplit url in
      let new = new_parts parts in
      if is_text new.scheme parts.scheme && is_text new.query parts.query
      then url
      else lib.urlunsplit new
