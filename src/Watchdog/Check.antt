-- ===== src/Watchdog/Check.antt =====
-- apps/scraper/watchdog.py, `_amain` and `main`, with core/notify.py, `notify_slack`.
use dsa_api.Base.{ℕ, ◌*◌, ◌-◌, Bool, false, Option, none, some, ltb, ◌==◌, if◌then◌else◌}
use dsa_api.Models.{Time}
use dsa_api.Text.{Text, is_empty}

-- What the webhook's server does: answer with a status, or let the client raise.
pub data Posted : Type 0 where
  answered : ℕ → Posted
  failed : Posted

-- `notify_slack`: the number of posts, and whether one was taken. No exception leaves it.
unfoldable pub notify_slack : Option Text → Posted → ℕ × Bool
notify_slack none posted = (0, false)
notify_slack (some url) (answered status) = if is_empty url then (0, false) else (1, status == 200)
notify_slack (some url) failed = if is_empty url then (0, false) else (1, false)

-- The three messages.
pub data Alert : Type 0 where
  no_scrape : Alert
  unparseable : Text → Alert
  stale : ℕ → Alert

-- What `datetime.fromisoformat` gives, or that it raises `ValueError`.
pub data IsoTime : Type 0 where
  aware : Time → IsoTime
  naive : IsoTime
  invalid : IsoTime

-- How `_amain` ends.
pub data Ending : Type 0 where
  exited : ℕ → Ending
  crashed : Ending

-- A run: its message, the posts to the webhook, and its end.
pub record Watched : Type 0 where
  pub alert : Option Alert
  pub posts : ℕ
  pub ending : Ending

-- 24 hours, in microseconds.
abbrev pub stale_threshold : ℕ
stale_threshold = 86400 * 1000000

-- An age below zero is not stale.
abbrev pub age_alert : Time → Time → Option Alert
age_alert now last_dt =
    if ltb stale_threshold (now - last_dt) then some (stale (now - last_dt)) else none

module _ (fromisoformat : Text → IsoTime) (slack_webhook_url : Option Text) (posted : Posted) where
  -- The message, sent; the run ends with 0 whatever comes of it.
  abbrev pub ends_with_alert : Option Alert → Watched
  ends_with_alert none = record { alert = none; posts = 0; ending = exited 0 }
  ends_with_alert (some message) = record {
    alert = some message;
    posts = (notify_slack slack_webhook_url posted).0;
    ending = exited 0;
  }

  abbrev pub crash : Watched
  crash = record { alert = none; posts = 0; ending = crashed }

  -- The subtraction of a time without a zone raises.
  abbrev pub watch_parsed : Time → Text → IsoTime → Watched
  watch_parsed now last (aware last_dt) = ends_with_alert (age_alert now last_dt)
  watch_parsed now last naive = crash
  watch_parsed now last invalid = ends_with_alert (some (unparseable last))

  -- `_amain`, by what `read_data_updated_at` gives; nothing where it raises.
  unfoldable pub watch : Time → Option (Option Text) → Watched
  watch now none = crash
  watch now (some none) = ends_with_alert (some no_scrape)
  watch now (some (some last)) = watch_parsed now last (fromisoformat last)

-- `main`: the exit code of the process; an exception that is not caught gives 1.
unfoldable pub exit_code_of : Ending → ℕ
exit_code_of (exited code) = code
exit_code_of crashed = 1
