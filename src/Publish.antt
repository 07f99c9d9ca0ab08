-- ===== src/Publish.antt =====
-- apps/scraper/publish.py: the commit and the push of the exported data.
pub mod Git
mod Pushed
mod Tests
