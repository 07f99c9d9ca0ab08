-- ===== src/Migration.antt =====
-- migrations/versions/edce10f23379_initial_schema.py: the schema of the three tables; and
-- migrations/env.py: the environment that runs the scripts.
pub mod Catalog
mod Apart
pub mod Statements
pub mod Metadata
pub mod Schema
pub mod Environment
mod Online
mod Tests
mod OnlineTests
