-- ===== src/Wiring/Deps.antt =====
-- apps/api/deps.py, with `make_engine` and `make_session_factory` of core/db.py: the objects of a
-- process, each made at the first call for it.
use dsa_api.Base.{ℕ, ◌+◌, Bool, true, false, Option, none, some, List, [], ◌∷◌, if◌then◌else◌}
use dsa_api.Text.{Text}
use dsa_api.Settings.Fields.{Settings, Source, get_settings}

-- An engine, by what it is made of; `serial` tells engines apart.
pub record Engine : Type 0 where
  pub serial : ℕ
  pub database_url : Text
  pub pool_size : ℕ
  pub max_overflow : ℕ
  pub pool_pre_ping : Bool

-- The factory of sessions; a session is known by its factory.
pub record SessionFactory : Type 0 where
  pub bind : Engine
  pub expire_on_commit : Bool

pub record RedisClient : Type 0 where
  pub serial : ℕ
  pub redis_url : Text
  pub decode_responses : Bool

-- A process: the caches, the sessions that were opened, and how many engines and clients were made.
pub record Process : Type 0 where
  pub settings : Option Settings
  pub engine : Option Engine
  pub session_factory : Option SessionFactory
  pub redis : Option RedisClient
  pub sessions : List SessionFactory
  pub made : ℕ

abbrev pub started : Process
started = record {
  settings = none;
  engine = none;
  session_factory = none;
  redis = none;
  sessions = [];
  made = 0;
}

-- Which addresses the two libraries take; they raise at the others.
pub record Drivers : Type 0 where
  pub takes_database : Text → Bool
  pub takes_redis : Text → Bool

unfoldable pub make_session_factory : Engine → SessionFactory
make_session_factory engine = record { bind = engine; expire_on_commit = false }

-- `get_settings`; its result is the cache after it.
abbrev pub ask_settings : Source → Process → Process
ask_settings env p = record p { settings = get_settings env p.settings }

-- `get_db_session`, after the call for the factory: a session is opened.
abbrev pub open_session : Option SessionFactory → Process → Process
open_session none p = p
open_session (some factory) p = record p { sessions = factory ∷ p.sessions }

abbrev pub with_factory : Option Engine → Process → Process
with_factory none p = p
with_factory (some e) p = record p { session_factory = some (make_session_factory e) }

module _ (drivers : Drivers) where
  unfoldable pub make_engine :
      ℕ → (database_url : Text) → (pool_size max_overflow : ℕ) → Option Engine
  make_engine serial database_url pool_size max_overflow =
      if drivers.takes_database database_url
      then some (record {
        serial = serial;
        database_url = database_url;
        pool_size = pool_size;
        max_overflow = max_overflow;
        pool_pre_ping = true;
      })
      else none

  -- `aioredis.from_url`, as `get_redis` calls it.
  unfoldable pub from_url : ℕ → Text → Option RedisClient
  from_url serial url =
      if drivers.takes_redis url
      then some (record { serial = serial; redis_url = url; decode_responses = false })
      else none

  -- The body of `get_engine`, after the call for the settings.
  abbrev pub with_engine : Option Settings → Process → Process
  with_engine none p = p
  with_engine (some s) p = record p {
    engine = make_engine p.made s.database_url s.database_pool_size s.database_max_overflow;
    made = p.made + 1;
  }

  abbrev pub engine_unless : Option Engine → Source → Process → Process
  engine_unless (some e) env p = p
  engine_unless none env p = let asked = ask_settings env p in with_engine asked.settings asked

  unfoldable pub get_engine : Source → Process → Process
  get_engine env p = engine_unless p.engine env p

  abbrev pub factory_unless : Option SessionFactory → Source → Process → Process
  factory_unless (some f) env p = p
  factory_unless none env p = let asked = get_engine env p in with_factory asked.engine asked

  unfoldable pub get_session_factory : Source → Process → Process
  get_session_factory env p = factory_unless p.session_factory env p

  unfoldable pub get_db_session : Source → Process → Process
  get_db_session env p =
      let asked = get_session_factory env p in open_session asked.session_factory asked

  abbrev pub with_redis : Option Settings → Process → Process
  with_redis none p = p
  with_redis (some s) p = record p { redis = from_url p.made s.redis_url; made = p.made + 1 }

  abbrev pub redis_unless : Option RedisClient → Source → Process → Process
  redis_unless (some c) env p = p
  redis_unless none env p = let asked = ask_settings env p in with_redis asked.settings asked

  unfoldable pub get_redis : Source → Process → Process
  get_redis env p = redis_unless p.redis env p

-- The calls of the module, each with the environment of its time.
pub data Ask : Type 0 where
  for_settings : Source → Ask
  for_engine : Source → Ask
  for_session : Source → Ask
  for_redis : Source → Ask

module _ (drivers : Drivers) where
  unfoldable pub answer_ask : Ask → Process → Process
  answer_ask (for_settings env) p = ask_settings env p
  answer_ask (for_engine env) p = get_engine drivers env p
  answer_ask (for_session env) p = get_db_session drivers env p
  answer_ask (for_redis env) p = get_redis drivers env p

  unfoldable pub answer_all : List Ask → Process → Process
  answer_all [] p = p
  answer_all (ask ∷ asks) p = answer_all asks (answer_ask ask p)
