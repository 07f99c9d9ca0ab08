-- ===== src/Watchdog/Silent.antt =====
-- apps/scraper/watchdog.py: when the watchdog is content.
use dsa_api.Base.{◌+◌, ◌≤◌, ◌≡◌, refl, ap, ◌↔◌, ◌⊎◌, inl, inr, Option, none, some, arith}
use dsa_api.Models.{Time}
use dsa_api.Text.{Text}
use dsa_api.Watchdog.Check.{
  Posted, IsoTime, aware, naive, invalid, Watched, stale_threshold, age_alert, watch_parsed, watch,
  exit_code_of,
}

pub age_alert_iff :
    (now last_dt : Time) → (age_alert now last_dt ≡ none) ↔ (now ≤ stale_threshold + last_dt)
age_alert_iff now last_dt = ground arith

module _ (fromisoformat : Text → IsoTime) where
  -- Redis holds a readable time, with its zone, that is no more than 24 hours ago.
  pub record IsFresh (now : Time) (stored : Option (Option Text)) : Type 0 where
    pub last : Text
    pub last_dt : Time
    pub held : stored ≡ some (some last)
    pub readable : fromisoformat last ≡ aware last_dt
    pub recent : now ≤ stale_threshold + last_dt

  -- The read raises, or the time has no zone.
  abbrev pub IsBroken : Option (Option Text) → Type 0
  IsBroken stored =
      (stored ≡ none) ⊎ ((last : Text) × (stored ≡ some (some last)) × (fromisoformat last ≡ naive))

  module _ (url : Option Text) (posted : Posted) where
    -- No message, and exit code 0.
    abbrev pub IsContent : Watched → Type 0
    IsContent w = (w.alert ≡ none) × (exit_code_of w.ending ≡ 0)

    parsed-IsFresh :
        (now : Time) (last : Text) (t : IsoTime)
        → fromisoformat last ≡ t
        → IsContent (watch_parsed fromisoformat url posted now last t)
        → IsFresh now (some (some last))
    unfolding exit_code_of
    parsed-IsFresh now last naive e h = absurd (grind arith)
    parsed-IsFresh now last invalid e h = absurd (grind arith)
    parsed-IsFresh now last (aware last_dt) e h = record {
      last = last;
      last_dt = last_dt;
      held = refl;
      readable = e;
      recent = (age_alert_iff now last_dt).0 (ground arith);
    }

    watch-IsFresh :
        (now : Time) (stored : Option (Option Text))
        → IsContent (watch fromisoformat url posted now stored)
        → IsFresh now stored
    unfolding watch exit_code_of
    watch-IsFresh now none h = absurd (grind arith)
    watch-IsFresh now (some none) h = absurd (grind arith)
    watch-IsFresh now (some (some last)) h = parsed-IsFresh now last (fromisoformat last) refl h

    pub held-watch :
        (now : Time) (last : Text) (t : IsoTime)
        → fromisoformat last ≡ t
        → watch fromisoformat url posted now (some (some last))
          ≡ watch_parsed fromisoformat url posted now last t
    unfolding watch
    held-watch now last t e = ap (watch_parsed fromisoformat url posted now last) e

    fresh-watch :
        (now : Time) (stored : Option (Option Text))
        → IsFresh now stored
        → IsContent (watch fromisoformat url posted now stored)
    unfolding exit_code_of
    fresh-watch now stored f = rw f.held (
        rw (held-watch now f.last (aware f.last_dt) f.readable)
          (rw ((age_alert_iff now f.last_dt).1 f.recent) (refl, refl)))

    parsed-IsBroken :
        (now : Time) (last : Text) (t : IsoTime)
        → exit_code_of (watch_parsed fromisoformat url posted now last t).ending ≡ 1
        → t ≡ naive
    unfolding exit_code_of
    parsed-IsBroken now last t h = ground arith

    watch-IsBroken :
        (now : Time) (stored : Option (Option Text))
        → exit_code_of (watch fromisoformat url posted now stored).ending ≡ 1
        → IsBroken stored
    unfolding watch exit_code_of
    watch-IsBroken now none h = inl refl
    watch-IsBroken now (some none) h = absurd (omega arith)
    watch-IsBroken now (some (some last)) h =
        inr (last, refl, parsed-IsBroken now last (fromisoformat last) h)

    broken-watch :
        (now : Time) (stored : Option (Option Text))
        → IsBroken stored
        → exit_code_of (watch fromisoformat url posted now stored).ending ≡ 1
    unfolding watch exit_code_of
    broken-watch now stored (inl e) = rw e refl
    broken-watch now stored (inr (last, e, h)) = rw e (rw h refl)

    -- The watchdog has no message and exits with 0 exactly if Redis holds a readable time, with
    -- its zone, that is no more than 24 hours ago; it exits with 1 exactly if the read raises or
    -- the time has no zone.
    pub watch_iff :
        (now : Time) (stored : Option (Option Text))
        → (IsContent (watch fromisoformat url posted now stored) ↔ IsFresh now stored)
          × ((exit_code_of (watch fromisoformat url posted now stored).ending ≡ 1)
              ↔ IsBroken stored)
    watch_iff now stored = (
      (watch-IsFresh now stored, fresh-watch now stored),
      (watch-IsBroken now stored, broken-watch now stored),
    )
