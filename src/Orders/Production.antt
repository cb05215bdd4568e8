-- ===== src/Orders/Production.antt =====
-- src/modules/orders/production.py: the working time of an order, read off the events of the shop floor.
pub mod Days
pub mod Union
pub mod DayLaws
pub mod DayTotals
pub mod Segments
pub mod SegmentLaws
pub mod Live
mod Tests
