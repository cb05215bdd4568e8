-- ===== src/Consumables.antt =====
-- src/modules/consumables: the rules of a consumable change.
pub mod Rules
mod Tests
