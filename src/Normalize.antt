-- ===== src/Normalize.antt =====
-- core/normalize.py: from a raw row of the EU's interface to a scraped row.
pub mod Chars
pub mod Areas
mod Strip
mod Calendar
mod Dedup
pub mod Batch
mod Tests
pub mod Hashes
pub mod Valid
mod Unquote
mod Split
mod Suffix
pub mod Country
pub mod Rows
pub mod Dates
pub mod Emails
