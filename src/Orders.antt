-- ===== src/Orders.antt =====
-- src/modules/orders: the life of an order, from its payment to its delivery.
pub mod Status
pub mod Text
pub mod Model
pub mod Doubles
pub mod Payments
pub mod Pauses
pub mod Machine
pub mod Activities
pub mod Registers
pub mod Operations
pub mod History
pub mod Reachability
pub mod Credit
pub mod Moves
pub mod Handover
pub mod Derived
pub mod Owed
pub mod Waiting
mod Sample
pub mod Production
mod Tests
pub mod Gates
