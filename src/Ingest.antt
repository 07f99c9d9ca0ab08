-- ===== src/Ingest.antt =====
-- apps/scraper/ingest.py: one scrape, from the fetched rows to the tables.
pub mod Compare
pub mod Diff
pub mod Reconcile
pub mod Table
pub mod Entity
pub mod Events
pub mod Loops
pub mod Sweep
pub mod Keys
pub mod Settle
pub mod Tally
pub mod Outcome
pub mod Repeat
pub mod History
mod Reordered
mod Unordered
pub mod Tests
