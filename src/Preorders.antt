-- ===== src/Preorders.antt =====
-- src/modules/preorders: a quote from its draft to the order that the client confirms.
pub mod Quote
pub mod Calls
pub mod Closed
pub mod Moves
pub mod Kept
pub mod Reached
mod Tests
