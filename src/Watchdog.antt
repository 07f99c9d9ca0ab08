-- ===== src/Watchdog.antt =====
-- apps/scraper/watchdog.py, `_amain`, and core/notify.py, `notify_slack`.
pub mod Check
mod Silent
mod Relay
mod Tests
