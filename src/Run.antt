-- ===== src/Run.antt =====
-- apps/scraper/ingest.py, `run_ingest`: one scrape from the first row of the run to its result.
pub mod Scrape
pub mod Faults
pub mod Marked
pub mod Steps
pub mod Done
pub mod Always
pub mod Exit
mod Main
pub mod Sources
pub mod Mirror
pub mod Tests
pub mod SourceTests
mod MainTests
