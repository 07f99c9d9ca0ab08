-- ===== src/Wiring.antt =====
-- apps/api/deps.py, core/db.py and core/observability.py: the objects that a process shares.
pub mod Deps
mod Fits
mod Shared
pub mod Sentry
pub mod Tests
