-- ===== src/Export.antt =====
-- apps/scraper/export.py: the open data.
pub mod Dicts
pub mod Files
mod Quiet
mod Tests
