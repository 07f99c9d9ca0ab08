-- ===== src/Wiring/Shared.antt =====
-- apps/api/deps.py: the objects of a process fit together, and stay.
use dsa_api.Base.{
  ℕ, ◌≡◌, refl, sym, subst, ◌∙◌, inl, inr, Bool-cases, Option, none, some, List, [], ◌∷◌,
}
use dsa_api.Settings.Fields.{Settings, Source}
use dsa_api.Wiring.Deps.{
  Engine, SessionFactory, RedisClient, Process, Drivers, started, make_engine, from_url,
  ask_settings, with_engine, engine_unless, get_engine, factory_unless, get_session_factory,
  get_db_session, with_redis, redis_unless, get_redis, Ask, for_settings, for_engine, for_session,
  for_redis, answer_ask, answer_all,
}
use dsa_api.Wiring.Fits.{
  with_factory-Goes, open_session-Goes, EngineFits, RedisFits, FactoryFits, IsShared, Keeps, Goes,
  Keeps-refl, Keeps-trans, none-Stays, none-FactoryFits, ask_settings-Goes,
}

module _ (drivers : Drivers) where
  make_engine_fits :
      (serial : ℕ) (s : Settings)
      → EngineFits
          (some s)
          (make_engine drivers serial s.database_url s.database_pool_size s.database_max_overflow)
  unfolding make_engine
  make_engine_fits serial s = elim (Bool-cases (drivers.takes_database s.database_url)) [
    | inl e ↦ rw e (refl, refl, refl)
    | inr e ↦ rw e tt
  ]

  from_url_fits :
      (serial : ℕ) (s : Settings) → RedisFits (some s) (from_url drivers serial s.redis_url)
  unfolding from_url
  from_url_fits serial s = elim (Bool-cases (drivers.takes_redis s.redis_url)) [
    | inl e ↦ rw e refl
    | inr e ↦ rw e tt
  ]

  with_engine-Goes :
      (o : Option Settings) (p : Process)
      → p.settings ≡ o
      → p.engine ≡ none
      → IsShared p
      → Goes p (with_engine drivers o p)
  with_engine-Goes none p e n h = (h, Keeps-refl p)
  with_engine-Goes (some s) p e n h = (
    record {
      engine_fits =
          subst (λ z. EngineFits z (with_engine drivers (some s) p).engine) (sym e)
            (make_engine_fits p.made s);
      redis_fits = h.redis_fits;
      factory_fits =
          none-FactoryFits _ p.session_factory
            (subst (λ z. FactoryFits z p.session_factory) n h.factory_fits);
      one_factory = h.one_factory;
    },
    record {
      same_settings = λ a q. q;
      same_engine = none-Stays p.engine _ n;
      same_factory = λ a q. q;
      same_redis = λ a q. q;
    },
  )

  with_redis-Goes :
      (o : Option Settings) (p : Process)
      → p.settings ≡ o
      → p.redis ≡ none
      → IsShared p
      → Goes p (with_redis drivers o p)
  with_redis-Goes none p e n h = (h, Keeps-refl p)
  with_redis-Goes (some s) p e n h = (
    record {
      engine_fits = h.engine_fits;
      redis_fits =
          subst (λ z. RedisFits z (with_redis drivers (some s) p).redis) (sym e)
            (from_url_fits p.made s);
      factory_fits = h.factory_fits;
      one_factory = h.one_factory;
    },
    record {
      same_settings = λ a q. q;
      same_engine = λ a q. q;
      same_factory = λ a q. q;
      same_redis = none-Stays p.redis _ n;
    },
  )

  engine_unless-Goes :
      (o : Option Engine) (env : Source) (p : Process)
      → p.engine ≡ o
      → IsShared p
      → Goes p (engine_unless drivers o env p)
  engine_unless-Goes (some engine) env p e h = (h, Keeps-refl p)
  engine_unless-Goes none env p e h =
      let asked = ask_settings-Goes env p h in
      let made = with_engine-Goes _ (ask_settings env p) refl e asked.0 in
      (made.0, Keeps-trans asked.1 made.1)

  redis_unless-Goes :
      (o : Option RedisClient) (env : Source) (p : Process)
      → p.redis ≡ o
      → IsShared p
      → Goes p (redis_unless drivers o env p)
  redis_unless-Goes (some client) env p e h = (h, Keeps-refl p)
  redis_unless-Goes none env p e h =
      let asked = ask_settings-Goes env p h in
      let made = with_redis-Goes _ (ask_settings env p) refl e asked.0 in
      (made.0, Keeps-trans asked.1 made.1)

  with_engine-factory :
      (o : Option Settings) (p : Process)
      → (with_engine drivers o p).session_factory ≡ p.session_factory
  with_engine-factory none p = refl
  with_engine-factory (some s) p = refl

  engine_unless-factory :
      (o : Option Engine) (env : Source) (p : Process)
      → (engine_unless drivers o env p).session_factory ≡ p.session_factory
  engine_unless-factory (some engine) env p = refl
  engine_unless-factory none env p = with_engine-factory _ (ask_settings env p)

  factory_unless-Goes :
      (o : Option SessionFactory) (env : Source) (p : Process)
      → p.session_factory ≡ o
      → IsShared p
      → Goes p (factory_unless drivers o env p)
  unfolding get_engine
  factory_unless-Goes (some factory) env p e h = (h, Keeps-refl p)
  factory_unless-Goes none env p e h =
      let asked = engine_unless-Goes p.engine env p refl h in
      let made =
        with_factory-Goes _ (get_engine drivers env p) refl
          (engine_unless-factory p.engine env p ∙ e) asked.0 in
      (made.0, Keeps-trans asked.1 made.1)

  answer_ask-Goes : (ask : Ask) (p : Process) → IsShared p → Goes p (answer_ask drivers ask p)
  unfolding answer_ask get_engine get_db_session get_session_factory get_redis
  answer_ask-Goes (for_settings env) p h = ask_settings-Goes env p h
  answer_ask-Goes (for_engine env) p h = engine_unless-Goes p.engine env p refl h
  answer_ask-Goes (for_redis env) p h = redis_unless-Goes p.redis env p refl h
  answer_ask-Goes (for_session env) p h =
      let asked = factory_unless-Goes p.session_factory env p refl h in
      let opened = open_session-Goes _ (get_session_factory drivers env p) refl asked.0 in
      (opened.0, Keeps-trans asked.1 opened.1)

  answer_all-Goes :
      (asks : List Ask) (p : Process) → IsShared p → Goes p (answer_all drivers asks p)
  unfolding answer_all
  answer_all-Goes [] p h = (h, Keeps-refl p)
  answer_all-Goes (ask ∷ asks) p h =
      let one = answer_ask-Goes ask p h in
      let rest = answer_all-Goes asks (answer_ask drivers ask p) one.0 in
      (rest.0, Keeps-trans one.1 rest.1)

  started-IsShared : IsShared started
  started-IsShared = record {
    engine_fits = tt;
    redis_fits = tt;
    factory_fits = tt;
    one_factory = tt;
  }

  -- Whatever is asked for in a process, and whatever its environment is at the time, all
  -- sessions are of one factory, whose engine is that of the process, the engine and the client
  -- of Redis have the addresses and sizes of the settings, and whatever was once made stays.
  pub answer_all-IsShared :
      (asks more : List Ask)
      → IsShared (answer_all drivers asks started)
        × Keeps
            (answer_all drivers asks started)
            (answer_all drivers more (answer_all drivers asks started))
  answer_all-IsShared asks more =
      let first = answer_all-Goes asks started started-IsShared in
      (first.0, (answer_all-Goes more (answer_all drivers asks started) first.0).1)
