-- ===== src/RateLimit/Zset.antt =====
-- The Redis sorted set of one key, as core/ratelimit.py uses it: entries in the order of their
-- scores, and the time at which the key expires. Redis drops a key once its time has come.
use dsa_api.Base.{
  ℕ, ◌+◌, Option, none, some, List, [], ◌∷◌, filter_by, leb, ltb, length, if◌then◌else◌,
}

-- Times and scores are in ticks, `ticks` of them to a second.
abbrev pub Tick : Type 0
Tick = ℕ

pub record Entry : Type 0 where
  pub member : ℕ
  pub score : Tick

pub record Zset : Type 0 where
  pub entries : List Entry
  pub expires : Option Tick

abbrev pub no_key : Zset
no_key = record { entries = []; expires = none }

-- The key as a command at time `now` finds it.
unfoldable pub live : Tick → Zset → Zset
live now z = elim z.expires [ none ↦ z | some t ↦ if leb t now then no_key else z ]

-- `ZREMRANGEBYSCORE key -inf cutoff`: the bound is inclusive. `none` is a cutoff below zero.
unfoldable pub zremrangebyscore : Option Tick → Zset → Zset
zremrangebyscore none z = z
zremrangebyscore (some cutoff) z = record z {
  entries = filter_by (λ e. ltb cutoff e.score) z.entries;
}

-- `ZCARD key`
unfoldable pub zcard : Zset → ℕ
zcard z = length z.entries

-- The place of a new entry: behind the scores that are not above its own.
unfoldable pub insert : Entry → List Entry → List Entry
insert e [] = e ∷ []
insert e (x ∷ xs) = let rest = insert e xs in if leb x.score e.score then x ∷ rest else e ∷ x ∷ xs

-- `ZADD key score member` with a new member.
unfoldable pub zadd : Entry → Zset → Zset
unfolding insert
zadd e z = record z { entries = insert e z.entries }

-- `EXPIRE key seconds` at time `now`.
unfoldable pub expire : Tick → Tick → Zset → Zset
expire now span z = record z { expires = some (now + span) }

-- `ZRANGE key 0 0 WITHSCORES`
unfoldable pub zrange_first : Zset → Option Entry
zrange_first z = elim z.entries [ [] ↦ none | e ∷ _ ↦ some e ]
