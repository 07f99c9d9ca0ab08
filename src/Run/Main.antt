-- ===== src/Run/Main.antt =====
-- apps/scraper/__main__.py, `main`: the process of the scraper, from its environment to its exit.
use dsa_api.Base.{
  ℕ, ◌≡◌, ◌⊎◌, inl, inr, refl, sym, subst, arith, Bool, true, Bool-cases, Option, none, some,
  if◌then◌else◌,
}
use dsa_api.Enums.{ScrapeRunStatus}
use dsa_api.Settings.Fields.{Settings, Source, settings_of, get_settings}
use dsa_api.Wiring.Deps.{
  SessionFactory, RedisClient, Drivers, started, make_engine, from_url, get_engine,
  get_session_factory, get_redis,
}
use dsa_api.Wiring.Sentry.{SentryInit, init_sentry}
use dsa_api.Run.Scrape.{World, Outside, returned}
use dsa_api.Run.Faults.{Untouched}
use dsa_api.Run.Exit.{Says, amain, amain-Tells}

-- What a process leaves: the world, its exit code and the call that started Sentry.
pub record Exited : Type 0 where
  pub world : World
  pub code : ℕ
  pub sentry : Option SentryInit

-- `_amain`, by what the two getters give: an exception that nothing catches ends the process with 1.
abbrev pub run_with : Option SessionFactory → Option RedisClient → Outside → World → World × ℕ
run_with (some factory) (some redis) o w = amain o w
run_with (some factory) none o w = (w, 1)
run_with none redis o w = (w, 1)

abbrev pub exit_with : Option SentryInit → World × ℕ → Exited
exit_with sentry ended = record { world = ended.0; code = ended.1; sentry = sentry }

module _ (drivers : Drivers) (sentry_starts : SentryInit → Bool) (env : Source) (o : Outside)
    (w : World) where
  -- `_amain` in a process that has read its settings.
  unfoldable pub amain_from : Settings → World × ℕ
  amain_from settings =
      let asked = get_session_factory drivers env (record started { settings = some settings }) in
      run_with asked.session_factory (get_redis drivers env asked).redis o w

  -- Sentry is started, if it is asked for, and only then does the run begin.
  abbrev pub after_sentry : Settings → Option SentryInit → Exited
  after_sentry settings none = exit_with none (amain_from settings)
  after_sentry settings (some init) =
      if sentry_starts init
      then exit_with (some init) (amain_from settings)
      else exit_with (some init) (w, 1)

  abbrev pub main_with : Option Settings → Exited
  main_with none = exit_with none (w, 1)
  main_with (some settings) = after_sentry settings (init_sentry settings)

  unfoldable pub main : Exited
  main = main_with (get_settings env none)

  -- The clients that the settings ask for are there.
  abbrev pub IsServed : Settings → Type 0
  IsServed settings =
      (drivers.takes_database settings.database_url ≡ true)
      × (drivers.takes_redis settings.redis_url ≡ true)

  -- The run has ended well, whole or in part, and its row says so.
  abbrev pub Ran : ℕ → World → Type 0
  Ran code v =
      ((code ≡ 0) × Says o ScrapeRunStatus.success v)
      ⊎ ((code ≡ 2) × Says o ScrapeRunStatus.partial v)

  -- With the settings of the environment, their clients, and Sentry as they ask for it.
  pub record IsRun (settings : Settings) (e : Exited) : Type 0 where
    pub read : settings_of env ≡ some settings
    pub served : IsServed settings
    pub watched : e.sentry ≡ init_sentry settings
    pub ran : Ran e.code e.world

  abbrev pub Ends : Exited → Type 0
  Ends e = ((e.code ≡ 1) × Untouched w e.world) ⊎ ((settings : Settings) × IsRun settings e)

  amain_from-cases :
      (settings : Settings)
      → (amain_from settings ≡ (w, 1)) ⊎ (IsServed settings × (amain_from settings ≡ amain o w))
  unfolding amain_from get_session_factory get_engine get_redis make_engine from_url get_settings
  amain_from-cases settings = ground arith

  stopped-Ends : (sentry : Option SentryInit) → Ends (exit_with sentry (w, 1))
  stopped-Ends sentry = inl (
    refl,
    record { same_flaggers = refl; same_events = refl; same_time = refl; same_published = refl },
  )

  module _ (closes : o.aclose ≡ returned tt) where
    ran-Ends :
        (settings : Settings) (sentry : Option SentryInit)
        → settings_of env ≡ some settings
        → IsServed settings
        → sentry ≡ init_sentry settings
        → Ends (exit_with sentry (amain o w))
    ran-Ends settings sentry read served watched = elim (amain-Tells o w closes) [
      | inl stopped ↦ inl stopped
      | inr ran ↦
          inr (settings, record { read = read; served = served; watched = watched; ran = ran })
    ]

    amain_from-Ends :
        (settings : Settings) (sentry : Option SentryInit)
        → settings_of env ≡ some settings
        → sentry ≡ init_sentry settings
        → Ends (exit_with sentry (amain_from settings))
    amain_from-Ends settings sentry read watched = elim (amain_from-cases settings) [
      | inl stopped ↦
          subst (λ ended. Ends (exit_with sentry ended)) (sym stopped) (stopped-Ends sentry)
      | inr (served, same) ↦
          subst (λ ended. Ends (exit_with sentry ended)) (sym same)
            (ran-Ends settings sentry read served watched)
    ]

    after_sentry-Ends :
        (settings : Settings) (sentry : Option SentryInit)
        → settings_of env ≡ some settings
        → sentry ≡ init_sentry settings
        → Ends (after_sentry settings sentry)
    after_sentry-Ends settings none read watched = amain_from-Ends settings none read watched
    after_sentry-Ends settings (some init) read watched = elim (Bool-cases (sentry_starts init)) [
      | inl yes_starts ↦ rw yes_starts (amain_from-Ends settings (some init) read watched)
      | inr no_start ↦ rw no_start (stopped-Ends (some init))
    ]

    main_with-Ends : (kept : Option Settings) → settings_of env ≡ kept → Ends (main_with kept)
    main_with-Ends none read = stopped-Ends none
    main_with-Ends (some settings) read =
        after_sentry-Ends settings (init_sentry settings) read refl

    -- The process of the scraper exits with 1, with the table, the changelog, the time stamp
    -- and the published data as before, or its environment gives settings, whose addresses the
    -- two drivers take, Sentry is started as they ask for it, and the code is 0 with a row of
    -- the run that says success, or 2 with one that says partial, if the closing of the client
    -- of the run does not raise.
    pub main-Ends : Ends main
    unfolding main get_settings
    main-Ends = main_with-Ends (settings_of env) refl
