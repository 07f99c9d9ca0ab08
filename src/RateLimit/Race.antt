-- ===== src/RateLimit/Race.antt =====
-- Several checks of one key at once: the count and the write are two round trips, and any number
-- of other commands may come between them.
use dsa_api.Base.{
  true, false, sym, subst, inl, inr, Bool-cases, ℕ, suc, ◌+◌, ◌≤◌, ◌<◌, ◌≡◌, refl, Option, none,
  some, List, [], ◌∷◌, arith, length, length-filter_by,
}
use dsa_api.RateLimit.Zset.{
  Tick, Entry, Zset, no_key, live, zremrangebyscore, zcard, insert, zadd, expire,
}
use dsa_api.RateLimit.Check.{LimitConfig, cutoff, read_phase, write_phase, check_limit}

-- The key, and how many checks have counted too few requests to refuse and have not yet written.
pub record Shared : Type 0 where
  pub key : Zset
  pub pending : ℕ

module _ (cfg : LimitConfig) (workers : ℕ) where
  -- The first round trip, after which `check_limit` goes on to write or refuses, and the second, of
  -- a check that goes on. `workers` bounds the checks under way.
  pub data Step (s : Shared) : Shared → Type 0 where
    pass :
        (now : Tick) (token : ℕ)
        → (check_limit cfg now token s.key).1.allowed ≡ true
        → s.pending < workers
        → Step s (record { key = (read_phase cfg now s.key).0; pending = suc s.pending })
    refuse :
        (now : Tick) (token : ℕ)
        → (check_limit cfg now token s.key).1.allowed ≡ false
        → Step s (record { key = (read_phase cfg now s.key).0; pending = s.pending })
    write :
        (now : Tick) (token left : ℕ)
        → s.pending ≡ suc left
        → Step s (record { key = write_phase cfg now token s.key; pending = left })

  pub data Reach (s : Shared) : Shared → Type 0 where
    here : Reach s s
    next : {t u : Shared} → Reach s t → Step t u → Reach s u

  zcard-live : (now : Tick) (z : Zset) → zcard (live now z) ≤ zcard z
  unfolding zcard live
  zcard-live now z = ground arith

  zcard-zremrangebyscore : (c : Option Tick) (z : Zset) → zcard (zremrangebyscore c z) ≤ zcard z
  unfolding zcard zremrangebyscore
  zcard-zremrangebyscore none z = omega arith
  zcard-zremrangebyscore (some c) z = length-filter_by _ z.entries

  zcard-read_phase :
      (now : Tick) (z : Zset)
      → ((read_phase cfg now z).1 ≡ zcard (read_phase cfg now z).0)
        × (zcard (read_phase cfg now z).0 ≤ zcard z)
  unfolding read_phase
  zcard-read_phase now z =
      (refl, omega (arith, zcard-zremrangebyscore (cutoff cfg now) (live now z), zcard-live now z))

  length-insert : (e : Entry) (es : List Entry) → length (insert e es) ≡ suc (length es)
  unfolding insert
  length-insert e [] = refl
  length-insert e (x ∷ es) = ground (arith, length-insert e es)

  zcard-write_phase :
      (now : Tick) (token : ℕ) (z : Zset) → zcard (write_phase cfg now token z) ≤ suc (zcard z)
  unfolding write_phase zadd expire zcard live
  zcard-write_phase now token z =
      ground (arith, length-insert (record { member = token; score = now }) (live now z).entries)

  allowed_lt :
      (now : Tick) (token : ℕ) (z : Zset)
      → (check_limit cfg now token z).1.allowed ≡ true
      → (read_phase cfg now z).1 < cfg.max_requests
  unfolding check_limit
  allowed_lt now token z h = ground arith

  allowed_key :
      (now : Tick) (token : ℕ) (z : Zset)
      → (check_limit cfg now token z).1.allowed ≡ true
      → (check_limit cfg now token z).0 ≡ write_phase cfg now token (read_phase cfg now z).0
  unfolding check_limit
  allowed_key now token z h = ground arith

  refused_key :
      (now : Tick) (token : ℕ) (z : Zset)
      → (check_limit cfg now token z).1.allowed ≡ false
      → (check_limit cfg now token z).0 ≡ (read_phase cfg now z).0
  unfolding check_limit
  refused_key now token z h = ground arith

  -- A check that is alone takes its two steps, or its one.
  pub check_limit-Reach :
      (now : Tick) (token : ℕ) (z : Zset)
      → 0 < workers
      → Reach
          (record { key = z; pending = 0 })
          (record { key = (check_limit cfg now token z).0; pending = 0 })
  check_limit-Reach now token z w = elim (Bool-cases (check_limit cfg now token z).1.allowed) [
    | inl e ↦
        subst (λ k. Reach (record { key = z; pending = 0 }) (record { key = k; pending = 0 }))
          (sym (allowed_key now token z e))
          (next (next here (pass now token e w)) (write now token 0 refl))
    | inr e ↦
        subst (λ k. Reach (record { key = z; pending = 0 }) (record { key = k; pending = 0 }))
          (sym (refused_key now token z e)) (next here (refuse now token e))
  ]

  abbrev IsBounded : Shared → Type 0
  IsBounded s = (s.pending ≤ workers) × (zcard s.key + s.pending + 1 ≤ cfg.max_requests + workers)

  Step-IsBounded : {s t : Shared} → Step s t → IsBounded s → IsBounded t
  Step-IsBounded {s} (pass now token e room) h =
      omega (arith, zcard-read_phase now s.key, allowed_lt now token s.key e)
  Step-IsBounded {s} (refuse now token e) h = omega (arith, zcard-read_phase now s.key)
  Step-IsBounded {s} (write now token left e) h = omega (arith, zcard-write_phase now token s.key)

  Reach-IsBounded : {s t : Shared} → Reach s t → IsBounded s → IsBounded t
  Reach-IsBounded here h = h
  Reach-IsBounded (next r st) h = Step-IsBounded st (Reach-IsBounded r h)

  -- With at most a given positive number of checks of a key under way at once, the key never
  -- holds more entries than the maximum plus one less than that number.
  pub Reach-zcard-le :
      {s : Shared}
      → 0 < workers
      → Reach (record { key = no_key; pending = 0 }) s
      → zcard s.key + 1 ≤ cfg.max_requests + workers
  unfolding zcard
  Reach-zcard-le w r = omega (arith, (Reach-IsBounded r (omega arith)))
