-- ===== src/Migration/Online.antt =====
-- migrations/env.py: when the migrations are committed, and what is done then.
use dsa_api.Base.{
  ℕ, ◌≡◌, inl, inr, refl, sym, ◌∙◌, Bool, true, false, ◌&&◌, not, ◌||◌, Bool-cases, Option, none,
  some, List, [], ◌∷◌, All, All-append, arith, if◌then◌else◌,
}
use dsa_api.Text.{Text, text, contains}
use dsa_api.Settings.Fields.{Settings}
use dsa_api.Wiring.Deps.{Engine, Drivers, make_engine}
use dsa_api.Migration.Environment.{
  Act, configured_url, connected, configured_connection, begun, migrated, committed, closed,
  disposed, Ini, Target, Trace, transaction, run_migrations_offline, do_run_migrations,
  run_async_migrations, run_migrations, run_or_raise, injected_url, environment,
}

-- What a run at an address does from end to end.
abbrev pub full_run : Bool → Text → List Act
full_run true url = configured_url url ∷ begun ∷ migrated ∷ committed ∷ []
full_run false url =
    connected url
    ∷ configured_connection url
    ∷ begun
    ∷ migrated
    ∷ committed
    ∷ closed
    ∷ disposed
    ∷ []

abbrev pub Uncommitted : Act → Type 0
Uncommitted committed = ⊥
Uncommitted act = Unit {0}

-- A percent sign, and no doubled one nor one before a parenthesis.
abbrev pub has_lone_percent : Text → Bool
has_lone_percent v = contains (text "%") v && not (contains (text "%%") v || contains (text "%(") v)

module _ (target : Target) where
  -- The migrations and their commit go well, and on line the driver and the database as well.
  abbrev pub is_ready : Bool → Text → Bool
  is_ready offline url =
      target.migrates && target.commits && (offline || target.takes_database url && target.connects)

  run_migrations-ended :
      (offline : Bool) (url : Text) → (run_migrations target offline url).1 ≡ is_ready offline url
  unfolding run_migrations_offline do_run_migrations run_async_migrations transaction
  run_migrations-ended true url = ground arith
  run_migrations-ended false url = ground arith

  run_migrations-full :
      (offline : Bool) (url : Text)
      → is_ready offline url ≡ true
      → (run_migrations target offline url).0 ≡ full_run offline url
  unfolding run_migrations_offline do_run_migrations run_async_migrations transaction
  run_migrations-full true url h = ground arith
  run_migrations-full false url h = ground arith

  transaction-Uncommitted :
      (target.migrates && target.commits) ≡ false → All Uncommitted (transaction target).0
  unfolding transaction
  transaction-Uncommitted h = elim (Bool-cases target.migrates) [
    | inl m ↦ elim (Bool-cases target.commits) [
      | inl c ↦ absurd (ground arith)
      | inr c ↦ rw (m, c) (tt, (tt, tt))
    ]
    | inr m ↦ rw m (tt, (tt, tt))
  ]

  closing-Uncommitted :
      (b : Bool) → All Uncommitted (if b then closed ∷ disposed ∷ [] else closed ∷ [])
  closing-Uncommitted true = (tt, (tt, tt))
  closing-Uncommitted false = (tt, tt)

  async-Uncommitted :
      (url : Text)
      → is_ready false url ≡ false
      → All Uncommitted (run_async_migrations target url).0
  unfolding run_async_migrations do_run_migrations transaction
  async-Uncommitted url h = elim (Bool-cases (target.takes_database url)) [
    | inr t ↦ rw t tt
    | inl t ↦ elim (Bool-cases target.connects) [
      | inr c ↦ rw (t, c) tt
      | inl c ↦
          rw (t, c)
            (
              tt,
              (
                tt,
                All-append Uncommitted (transaction target).0 _
                    (transaction-Uncommitted (ground arith))
                    (closing-Uncommitted (transaction target).1),
              ),
            )
    ]
  ]

  run_migrations-Uncommitted :
      (offline : Bool) (url : Text)
      → is_ready offline url ≡ false
      → All Uncommitted (run_migrations target offline url).0
  unfolding run_migrations_offline
  run_migrations-Uncommitted true url h = (tt, transaction-Uncommitted (ground arith))
  run_migrations-Uncommitted false url h = async-Uncommitted url h

  -- The address is there, and all goes well with it.
  abbrev pub goes_well : Bool → Option Text → Bool
  goes_well offline none = false
  goes_well offline (some url) = is_ready offline url

  -- What is done, by whether all goes well.
  abbrev pub Does : Bool → Option Text → Trace → Type 0
  Does offline injected t =
      (t.1 ≡ goes_well offline injected)
      × (t.1 ≡ true → (url : Text) × (injected ≡ some url) × (t.0 ≡ full_run offline url))
      × (t.1 ≡ false → All Uncommitted t.0)

  run-Does :
      (offline : Bool) (injected : Option Text)
      → Does offline injected (run_or_raise target offline injected)
  run-Does offline none = (refl, (λ h. absurd (grind arith)), (λ h. tt))
  run-Does offline (some url) =
      let ended = run_migrations-ended offline url in
      (
        ended,
        (λ h. (url, refl, run_migrations-full offline url (sym ended ∙ h))),
        (λ h. run_migrations-Uncommitted offline url (sym ended ∙ h)),
      )

  module _ (ini : Ini) where
    -- Alembic's environment ends without an exception exactly if the settings give an address
    -- that the options give back, the scripts run and are committed, and, on line, the driver
    -- takes the address and the database connects; then the scripts are run once, at that
    -- address, in one transaction that is committed, and otherwise nothing is committed.
    pub environment-Does :
        (offline : Bool) (settings : Option Settings)
        → Does offline (injected_url ini settings) (environment target ini offline settings)
    unfolding environment
    environment-Does offline settings = run-Does offline (injected_url ini settings)

    -- If the address of the database has a percent sign, and none that is doubled or before a
    -- parenthesis, the migrations raise before they do anything, on line and off, while the API
    -- makes its engine with that address, if the options refuse such a text and the driver takes
    -- it.
    pub environment_percent :
        (offline : Bool) (s : Settings) (serial : ℕ) (drivers : Drivers)
        → ((v : Text) → has_lone_percent v ≡ true → ini.set_main_option v ≡ none)
        → has_lone_percent s.database_url ≡ true
        → drivers.takes_database s.database_url ≡ true
        → (environment target ini offline (some s) ≡ ([], false))
          × ((e : Engine) × (make_engine drivers serial s.database_url s.database_pool_size
                  s.database_max_overflow
                ≡ some e)
              × (e.database_url ≡ s.database_url))
    unfolding environment make_engine
    environment_percent offline s serial drivers refuses lone takes =
        (rw (refuses s.database_url lone) refl, rw takes (_, refl, refl))
