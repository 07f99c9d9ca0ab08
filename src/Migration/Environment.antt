-- ===== src/Migration/Environment.antt =====
-- migrations/env.py: the environment in which Alembic runs the migrations, as the list of what it
-- does, and whether it ends without an exception.
use dsa_api.Base.{Bool, true, false, Option, none, some, List, [], ◌∷◌, ◌++◌, if◌then◌else◌}
use dsa_api.Text.{Text}
use dsa_api.Settings.Fields.{Settings}

pub data Act : Type 0 where
  configured_url : Text → Act
  connected : Text → Act
  configured_connection : Text → Act
  begun : Act
  migrated : Act
  committed : Act
  rolled_back : Act
  closed : Act
  disposed : Act

-- The options of Alembic: what `set_main_option` stores of a text, and what is read of it, by
-- `get_main_option` or as part of the section; nothing where an exception is raised.
pub record Ini : Type 0 where
  pub set_main_option : Text → Option Text
  pub get_main_option : Text → Option Text

-- The database and its driver, and the scripts of the migrations: what raises no exception.
pub record Target : Type 0 where
  pub takes_database : Text → Bool
  pub connects : Bool
  pub migrates : Bool
  pub commits : Bool

abbrev pub Trace : Type 0
Trace = List Act × Bool

module _ (ini : Ini) where
  abbrev pub read_option : Option Text → Option Text
  read_option none = none
  read_option (some raw) = ini.get_main_option raw

  -- The address that is set and read again.
  abbrev pub injected_url : Option Settings → Option Text
  injected_url none = none
  injected_url (some s) = read_option (ini.set_main_option s.database_url)

module _ (target : Target) where
  -- `with context.begin_transaction(): context.run_migrations()`
  unfoldable pub transaction : Trace
  transaction =
      if target.migrates
      then (if target.commits
          then (begun ∷ migrated ∷ committed ∷ [], true)
          else (begun ∷ migrated ∷ [], false))
      else (begun ∷ rolled_back ∷ [], false)

  unfoldable pub run_migrations_offline : Text → Trace
  run_migrations_offline url = (configured_url url ∷ transaction.0, transaction.1)

  unfoldable pub do_run_migrations : Text → Trace
  do_run_migrations url = (configured_connection url ∷ transaction.0, transaction.1)

  -- The engine is disposed of only where nothing raised.
  unfoldable pub run_async_migrations : Text → Trace
  run_async_migrations url =
      if target.takes_database url
      then (if target.connects
          then (
            connected url
                ∷ ((do_run_migrations url).0
                    ++ (if (do_run_migrations url).1 then closed ∷ disposed ∷ [] else closed ∷ [])),
            (do_run_migrations url).1,
          )
          else ([], false))
      else ([], false)

  abbrev pub run_migrations : Bool → Text → Trace
  run_migrations offline url =
      if offline then run_migrations_offline url else run_async_migrations url

  abbrev pub run_or_raise : Bool → Option Text → Trace
  run_or_raise offline none = ([], false)
  run_or_raise offline (some url) = run_migrations offline url

  -- The module: `settings` is what `get_settings` gives, and `offline` the mode.
  unfoldable pub environment : Ini → Bool → Option Settings → Trace
  environment ini offline settings = run_or_raise offline (injected_url ini settings)
