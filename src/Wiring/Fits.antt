-- ===== src/Wiring/Fits.antt =====
-- apps/api/deps.py: what it is for the objects of a process to fit together, and to stay.
use dsa_api.Base.{◌≡◌, refl, sym, subst, Option, none, some, List, [], ◌∷◌, All, arith}
use dsa_api.Settings.Fields.{Settings, Source, settings_of, cached, get_settings}
use dsa_api.Wiring.Deps.{
  Engine, SessionFactory, RedisClient, Process, make_session_factory, ask_settings, with_factory,
  open_session,
}

-- The engine has the address and the sizes of the settings.
abbrev pub EngineFits : Option Settings → Option Engine → Type 0
EngineFits settings none = Unit
EngineFits none (some e) = ⊥
EngineFits (some s) (some e) =
    (e.database_url ≡ s.database_url)
    × (e.pool_size ≡ s.database_pool_size)
    × (e.max_overflow ≡ s.database_max_overflow)

abbrev pub RedisFits : Option Settings → Option RedisClient → Type 0
RedisFits settings none = Unit
RedisFits none (some c) = ⊥
RedisFits (some s) (some c) = c.redis_url ≡ s.redis_url

-- The factory is that of the engine.
abbrev pub FactoryFits : Option Engine → Option SessionFactory → Type 0
FactoryFits engine none = Unit
FactoryFits none (some f) = ⊥
FactoryFits (some e) (some f) = f ≡ make_session_factory e

pub record IsShared (p : Process) : Type 0 where
  pub engine_fits : EngineFits p.settings p.engine
  pub redis_fits : RedisFits p.settings p.redis
  pub factory_fits : FactoryFits p.engine p.session_factory
  pub one_factory : All (λ f. p.session_factory ≡ some f) p.sessions

-- What was made stays.
abbrev pub Stays {ℓ} : {A : Type ℓ} → Option A → Option A → Type ℓ
Stays {A} old new = (a : A) → old ≡ some a → new ≡ some a

pub record Keeps (p q : Process) : Type 0 where
  pub same_settings : Stays p.settings q.settings
  pub same_engine : Stays p.engine q.engine
  pub same_factory : Stays p.session_factory q.session_factory
  pub same_redis : Stays p.redis q.redis

pub Keeps-refl : (p : Process) → Keeps p p
Keeps-refl p = record {
  same_settings = λ a e. e;
  same_engine = λ a e. e;
  same_factory = λ a e. e;
  same_redis = λ a e. e;
}

pub Keeps-trans : {p q r : Process} → Keeps p q → Keeps q r → Keeps p r
Keeps-trans f g = record {
  same_settings = λ a e. g.same_settings a (f.same_settings a e);
  same_engine = λ a e. g.same_engine a (f.same_engine a e);
  same_factory = λ a e. g.same_factory a (f.same_factory a e);
  same_redis = λ a e. g.same_redis a (f.same_redis a e);
}

pub none-Stays {ℓ} : {A : Type ℓ} (old new : Option A) → old ≡ none → Stays old new
none-Stays old new n a e = absurd (grind arith)

pub cached-Stays {ℓ} : {A : Type ℓ} (old made : Option A) → Stays old (cached old made)
cached-Stays (some b) made a e = e
cached-Stays none made a e = absurd (grind arith)

pub cached-EngineFits :
    (old made : Option Settings) (engine : Option Engine)
    → EngineFits old engine
    → EngineFits (cached old made) engine
cached-EngineFits old made none h = tt
cached-EngineFits none made (some e) h = absurd h
cached-EngineFits (some s) made (some e) h = h

pub cached-RedisFits :
    (old made : Option Settings) (redis : Option RedisClient)
    → RedisFits old redis
    → RedisFits (cached old made) redis
cached-RedisFits old made none h = tt
cached-RedisFits none made (some c) h = absurd h
cached-RedisFits (some s) made (some c) h = h

pub none-FactoryFits :
    (engine : Option Engine) (factory : Option SessionFactory)
    → FactoryFits none factory
    → FactoryFits engine factory
none-FactoryFits engine none h = tt
none-FactoryFits engine (some f) h = absurd h

-- A process after a call, and what the call keeps.
abbrev pub Goes : Process → Process → Type 0
Goes p q = IsShared q × Keeps p q

pub ask_settings-Goes : (env : Source) (p : Process) → IsShared p → Goes p (ask_settings env p)
unfolding get_settings
ask_settings-Goes env p h = (
  record {
    engine_fits = cached-EngineFits p.settings (settings_of env) p.engine h.engine_fits;
    redis_fits = cached-RedisFits p.settings (settings_of env) p.redis h.redis_fits;
    factory_fits = h.factory_fits;
    one_factory = h.one_factory;
  },
  record {
    same_settings = cached-Stays p.settings (settings_of env);
    same_engine = λ a e. e;
    same_factory = λ a e. e;
    same_redis = λ a e. e;
  },
)

no_sessions :
    (factory new : Option SessionFactory) (sessions : List SessionFactory)
    → factory ≡ none
    → All (λ f. factory ≡ some f) sessions
    → All (λ f. new ≡ some f) sessions
no_sessions factory new [] n h = tt
no_sessions factory new (f ∷ fs) n h = absurd (grind arith)

pub with_factory-Goes :
    (o : Option Engine) (p : Process)
    → p.engine ≡ o
    → p.session_factory ≡ none
    → IsShared p
    → Goes p (with_factory o p)
with_factory-Goes none p e n h = (h, Keeps-refl p)
with_factory-Goes (some engine) p e n h = (
  record {
    engine_fits = h.engine_fits;
    redis_fits = h.redis_fits;
    factory_fits = subst (λ z. FactoryFits z (some (make_session_factory engine))) (sym e) refl;
    one_factory = no_sessions p.session_factory _ p.sessions n h.one_factory;
  },
  record {
    same_settings = λ a q. q;
    same_engine = λ a q. q;
    same_factory = none-Stays p.session_factory _ n;
    same_redis = λ a q. q;
  },
)

pub open_session-Goes :
    (o : Option SessionFactory) (p : Process)
    → p.session_factory ≡ o
    → IsShared p
    → Goes p (open_session o p)
open_session-Goes none p e h = (h, Keeps-refl p)
open_session-Goes (some factory) p e h = (
  record {
    engine_fits = h.engine_fits;
    redis_fits = h.redis_fits;
    factory_fits = h.factory_fits;
    one_factory = (e, h.one_factory);
  },
  record {
    same_settings = λ a q. q;
    same_engine = λ a q. q;
    same_factory = λ a q. q;
    same_redis = λ a q. q;
  },
)
