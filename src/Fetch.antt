-- ===== src/Fetch.antt =====
-- apps/scraper/fetch.py: the GET with retries and growing pauses.
pub mod Attempts
mod Rounds
mod Tests
