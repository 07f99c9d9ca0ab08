-- ===== src/Wiring/Tests.antt =====
-- A process that is asked for a session before and after its environment has the addresses.
use dsa_api.Base.{◌≡◌, refl, true, none, some, [], ◌∷◌, List, map}
use dsa_api.Text.{Text, text, text_discrete, contains, starts_with}
use dsa_api.Settings.Database.{
  UrlLib, is_text, ends_with, driver_scheme, new_query, normalize_database_url,
}
use dsa_api.Settings.Fields.{Source, settings_of, get_settings}
use dsa_api.Wiring.Deps.{
  Drivers, started, make_engine, make_session_factory, from_url, get_engine, get_session_factory,
  get_db_session, get_redis, Ask, for_session, for_redis, answer_ask, answer_all,
}
use dsa_api.Wiring.Fits.{IsShared, Keeps}
use dsa_api.Wiring.Shared.{answer_all-IsShared}
use dsa_api.Wiring.Sentry.{init_sentry}

program : Unit {0}
unfolding text_discrete is_text contains starts_with ends_with driver_scheme new_query
    normalize_database_url settings_of get_settings make_engine make_session_factory from_url
    get_engine get_session_factory get_db_session get_redis answer_ask answer_all init_sentry
program = tt

-- A library that takes every address as a path.
abbrev paths : UrlLib
paths = record {
  urlsplit = λ url. record { scheme = []; netloc = []; path = url; query = []; fragment = [] };
  urlunsplit = λ parts. parts.path;
  parse_qsl = λ query. [];
  urlencode = λ pairs. [];
}

abbrev pub nothing_set : Source
nothing_set = record {
  variable = λ name. none;
  to_int = λ s. none;
  to_bool = λ s. none;
  urls = paths;
}

-- Every variable but the numbers and the Boolean has the same text.
abbrev pub all_set : Text → Source
all_set value = record nothing_set {
  variable = λ name. some value;
  to_int = λ s. some 7;
  to_bool = λ s. some true;
}

abbrev pub drivers : Drivers
drivers = record { takes_database = λ url. true; takes_redis = λ url. true }

abbrev asks : List Ask
asks =
    for_session nothing_set
    ∷ for_session (all_set (text "a"))
    ∷ for_session (all_set (text "b"))
    ∷ for_redis (all_set (text "c"))
    ∷ []

unset-raises : (answer_all drivers (for_session nothing_set ∷ []) started).sessions ≡ []
unfolding program
unset-raises = refl

first-kept :
    map (λ f. f.bind.database_url) (answer_all drivers asks started).sessions
    ≡ text "a" ∷ text "a" ∷ []
unfolding program
first-kept = refl

two-made : (answer_all drivers asks started).made ≡ 2
unfolding program
two-made = refl

answer_all-IsShared_example :
    IsShared (answer_all drivers asks started)
    × Keeps
        (answer_all drivers asks started)
        (answer_all drivers asks (answer_all drivers asks started))
answer_all-IsShared_example = answer_all-IsShared drivers asks asks
