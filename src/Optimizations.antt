-- ===== src/Optimizations.antt =====
-- src/modules/optimizations: what the service computes around the engine.
pub mod Patterns
pub mod Decimal
pub mod CounterLaws
pub mod Counting
pub mod Instances
mod Tests
pub mod Groups
pub mod GroupLaws
pub mod Grouping
pub mod Patterning
pub mod Halves
