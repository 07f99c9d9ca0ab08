-- ===== src/Settings/Tests.antt =====
-- The address of a managed database.
use dsa_api.Base.{◌≡◌, refl, [], ◌∷◌, map}
use dsa_api.Text.{Text, text, text_discrete, starts_with, contains}
use dsa_api.Settings.Database.{
  Parts, UrlLib, is_text, ends_with, driver_scheme, ssl_pair, new_query, new_parts,
  normalize_database_url,
}
use dsa_api.Settings.Twice.{normalize_database_url_twice}

abbrev managed : Text
managed = text "postgresql://h/db?sslmode=require"

abbrev rewritten : Text
rewritten = text "postgresql+asyncpg://h/db?ssl=require"

abbrev parts_of : Text → Text → Parts
parts_of scheme query = record {
  scheme = scheme;
  netloc = text "h";
  path = text "/db";
  query = query;
  fragment = [];
}

-- The library on these two addresses.
abbrev lib : UrlLib
lib = record {
  urlsplit = λ url. elim (text_discrete url managed) [
    | yes _ ↦ parts_of (text "postgresql") (text "sslmode=require")
    | no _ ↦ parts_of (text "postgresql+asyncpg") (text "ssl=require")
  ];
  urlunsplit = λ parts. rewritten;
  parse_qsl = λ query. elim (text_discrete query (text "sslmode=require")) [
    | yes _ ↦ (text "sslmode", text "require") ∷ []
    | no _ ↦ (text "ssl", text "require") ∷ []
  ];
  urlencode = λ kvs. text "ssl=require";
}

program : Unit {0}
unfolding text_discrete starts_with contains is_text ends_with driver_scheme ssl_pair new_query
    normalize_database_url
program = tt

managed-rewritten : normalize_database_url lib managed ≡ rewritten
unfolding program
managed-rewritten = refl

parts_back :
    lib.urlsplit (lib.urlunsplit (new_parts lib (lib.urlsplit managed)))
    ≡ new_parts lib (lib.urlsplit managed)
unfolding program
parts_back = refl

pairs_back :
    lib.parse_qsl (lib.urlencode (map ssl_pair (lib.parse_qsl (lib.urlsplit managed).query)))
    ≡ map ssl_pair (lib.parse_qsl (lib.urlsplit managed).query)
unfolding program
pairs_back = refl

normalize_database_url_twice_example :
    normalize_database_url lib (normalize_database_url lib managed)
    ≡ normalize_database_url lib managed
normalize_database_url_twice_example =
    normalize_database_url_twice lib managed parts_back pairs_back
