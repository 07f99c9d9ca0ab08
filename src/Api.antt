-- ===== src/Api.antt =====
-- apps/api/main.py: the middleware and the routes that the application itself declares.
pub mod Http
pub mod Client
pub mod Probes
pub mod Meter
mod Refusal
mod Within
mod Quota
pub mod Creation
pub mod App
mod Headed
mod Outage
pub mod Visits
mod Reached
mod Throughput
mod Tests
