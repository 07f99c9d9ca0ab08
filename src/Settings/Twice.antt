-- ===== src/Settings/Twice.antt =====
-- core/config.py, `normalize_database_url`: once is enough.
use mathlib.Core.Path.{ap₂}
use dsa_api.Base.{
  ◌≡◌, ◌⊎◌, refl, sym, ap, ◌∙◌, Bool, true, false, ◌&&◌, Bool-cases, inl, inr, List, [], ◌∷◌, map,
  arith, if◌then◌else◌,
}
use dsa_api.Text.{Text, text, contains}
use dsa_api.Settings.Database.{
  Parts, UrlLib, is_text, ends_with, driver_scheme, ssl_pair, new_query, new_parts,
  normalize_database_url,
}

is_text_self : (s : Text) → is_text s s ≡ true
unfolding is_text
is_text_self s = ground arith

driver_scheme_twice : (scheme : Text) → driver_scheme (driver_scheme scheme) ≡ driver_scheme scheme
unfolding driver_scheme is_text
driver_scheme_twice scheme = ground arith

ssl_pair_twice : (kv : Text × Text) → ssl_pair (ssl_pair kv) ≡ ssl_pair kv
unfolding ssl_pair is_text
ssl_pair_twice kv = ground arith

map-ssl_pair : (kvs : List (Text × Text)) → map ssl_pair (map ssl_pair kvs) ≡ map ssl_pair kvs
map-ssl_pair [] = refl
map-ssl_pair (kv ∷ kvs) = ap₂ ◌∷◌ (ssl_pair_twice kv) (map-ssl_pair kvs)

-- Two tests that hold.
both_same :
    (a b c d : Text) (x y : Text)
    → a ≡ b
    → c ≡ d
    → (if is_text a b && is_text c d then x else y) ≡ x
unfolding is_text
both_same a b c d x y h g = ground arith

if_same : (test : Bool) (x : Text) → (if test then x else x) ≡ x
if_same true x = refl
if_same false x = refl

module _ (lib : UrlLib) where
  renamed_query :
      (test again : Bool) (query renamed renamed_again : Text)
      → renamed_again ≡ renamed
      → (if test then (if again then renamed_again else renamed) else query)
        ≡ (if test then renamed else query)
  renamed_query true true query renamed renamed_again h = h
  renamed_query true false query renamed renamed_again h = refl
  renamed_query false again query renamed renamed_again h = refl

  query_twice :
      (scheme query : Text)
      → lib.parse_qsl (lib.urlencode (map ssl_pair (lib.parse_qsl query)))
        ≡ map ssl_pair (lib.parse_qsl query)
      → new_query lib scheme (new_query lib scheme query) ≡ new_query lib scheme query
  unfolding new_query
  query_twice scheme query h =
      elim (Bool-cases (ends_with (text "+asyncpg") scheme && contains (text "sslmode=") query)) [
        | inl e ↦ rw e (
            renamed_query
              (ends_with (text "+asyncpg") scheme
                && contains (text "sslmode=") (lib.urlencode (map ssl_pair (lib.parse_qsl query))))
              true (lib.urlencode (map ssl_pair (lib.parse_qsl query))) _ _
              (ap (λ kvs. lib.urlencode (map ssl_pair kvs)) h
                ∙ ap lib.urlencode (map-ssl_pair (lib.parse_qsl query)))
            ∙ if_same _ _)
        | inr e ↦ rw (e, e) refl
      ]

  settled_url :
      (url : Text) (p : Parts)
      → lib.urlsplit url ≡ p
      → driver_scheme p.scheme ≡ p.scheme
      → new_query lib (driver_scheme p.scheme) p.query ≡ p.query
      → normalize_database_url lib url ≡ url
  unfolding normalize_database_url
  settled_url url p split scheme query = rw split (both_same _ _ _ _ _ _ scheme query)

  -- The url as it is, or its new parts.
  url_cases :
      (url : Text)
      → (normalize_database_url lib url ≡ url)
        ⊎ (normalize_database_url lib url ≡ lib.urlunsplit (new_parts lib (lib.urlsplit url)))
  unfolding normalize_database_url
  url_cases url = ground arith

  -- An address of the database that is normalized is not changed by normalizing it again, if
  -- the parts and the pairs that were put together come back.
  pub normalize_database_url_twice :
      (url : Text)
      → lib.urlsplit (lib.urlunsplit (new_parts lib (lib.urlsplit url)))
        ≡ new_parts lib (lib.urlsplit url)
      → lib.parse_qsl (lib.urlencode (map ssl_pair (lib.parse_qsl (lib.urlsplit url).query)))
        ≡ map ssl_pair (lib.parse_qsl (lib.urlsplit url).query)
      → normalize_database_url lib (normalize_database_url lib url) ≡ normalize_database_url lib url
  normalize_database_url_twice url split query = elim (url_cases url) [
    | inl e ↦ ap (normalize_database_url lib) e
    | inr e ↦
        let p = lib.urlsplit url in
        let scheme = driver_scheme p.scheme in
        ap (normalize_database_url lib) e
        ∙ settled_url (lib.urlunsplit (new_parts lib p)) (new_parts lib p) split
            (driver_scheme_twice p.scheme)
            (ap (λ z. new_query lib z (new_query lib scheme p.query)) (driver_scheme_twice p.scheme)
              ∙ query_twice scheme p.query query)
        ∙ sym e
  ]
