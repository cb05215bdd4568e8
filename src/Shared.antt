-- ===== src/Shared.antt =====
-- src/shared: what the parts of the service share that is pure: the shop's working hours.
pub mod Clock
pub mod Schedule
pub mod ScheduleLaws
pub mod Windows
pub mod Intervals
pub mod WindowLaws
pub mod WorkedTime
mod Tests
