-- ===== src/Routes.antt =====
-- apps/api/routers: what the routes read of the tables and answer.
pub mod Tables
pub mod Listing
pub mod Paging
mod Sorted
pub mod Pages
pub mod Lookup
pub mod Refused
pub mod Changes
pub mod Joined
mod Complete
mod CompleteTests
pub mod Stats
pub mod Tallies
pub mod Badges
pub mod Freshness
pub mod Waitlist
pub mod Addresses
pub mod Subscribed
pub mod Serialize
pub mod Servable
pub mod Replies
pub mod Shown
mod Served
mod ServedTests
mod Tests
