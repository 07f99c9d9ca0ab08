-- ===== src/RateLimit/Window.antt =====
-- What a sliding window means: how many of the admitted requests are younger than the window.
use dsa_api.Base.{
  ℕ, suc, ◌+◌, ◌≤◌, ◌≡◌, refl, Option, none, some, List, [], ◌∷◌, arith, filter_by, leb, ltb,
  length, All, if◌then◌else◌,
}
use dsa_api.RateLimit.Zset.{Tick, Entry, insert}
use dsa_api.RateLimit.Check.{LimitConfig, window, cutoff}

-- How many of the admission times lie within the window that ends now.
unfoldable pub in_window : LimitConfig → Tick → List Tick → ℕ
in_window cfg now [] = 0
in_window cfg now (t ∷ ts) =
    let rest = in_window cfg now ts in if ltb now (t + window cfg) then suc rest else rest

-- How many admission times lie in the span of one window's length that starts behind `a`.
unfoldable pub in_span : LimitConfig → Tick → List Tick → ℕ
in_span cfg a [] = 0
in_span cfg a (t ∷ ts) =
    let rest = in_span cfg a ts in
    if ltb a t then (if leb t (a + window cfg) then suc rest else rest) else rest

-- The entries that `ZREMRANGEBYSCORE` leaves, counted.
unfoldable pub kept : LimitConfig → Tick → List Entry → ℕ
kept cfg now [] = 0
kept cfg now (e ∷ es) =
    let rest = kept cfg now es in if ltb now (e.score + window cfg) then suc rest else rest

abbrev pub surviving : Option Tick → List Entry → List Entry
surviving none es = es
surviving (some c) es = filter_by (λ e. ltb c e.score) es

module _ (cfg : LimitConfig) where
  pub length-surviving :
      (now : Tick) (es : List Entry) → length (surviving (cutoff cfg now) es) ≡ kept cfg now es
  unfolding kept
  length-surviving now [] = ground arith
  length-surviving now (e ∷ es) = ground (arith, length-surviving now es)

  pub kept-surviving :
      (now later : Tick) (es : List Entry)
      → now ≤ later
      → kept cfg later (surviving (cutoff cfg now) es) ≡ kept cfg later es
  unfolding kept
  kept-surviving now later [] h = ground arith
  kept-surviving now later (e ∷ es) h = ground (arith, kept-surviving now later es h)

  pub kept-insert :
      (now : Tick) (e : Entry) (es : List Entry)
      → kept cfg now (insert e es) ≡ kept cfg now (e ∷ es)
  unfolding kept insert
  kept-insert now e [] = refl
  kept-insert now e (x ∷ es) = ground (arith, kept-insert now e es)

  pub in_window_old :
      (last now : Tick) (ts : List Tick)
      → All (λ t. t ≤ last) ts
      → last + window cfg ≤ now
      → in_window cfg now ts ≡ 0
  unfolding in_window
  in_window_old last now [] h g = refl
  in_window_old last now (t ∷ ts) h g = ground (arith, in_window_old last now ts h.1)
