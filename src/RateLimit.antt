-- ===== src/RateLimit.antt =====
-- core/ratelimit.py: the sliding window, over the sorted set that Redis keeps for a key.
pub mod Zset
pub mod Check
pub mod Window
pub mod Refines
pub mod Spans
pub mod Retry
pub mod Race
mod Tests
