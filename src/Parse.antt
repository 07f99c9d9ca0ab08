-- ===== src/Parse.antt =====
-- apps/scraper/parse.py: the address in the page, and the envelope of the answer.
pub mod Page
pub mod Envelope
mod Pieces
mod Scripts
mod Found
mod Accepted
mod Tests
