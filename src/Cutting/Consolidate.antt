-- ===== src/Cutting/Consolidate.antt =====
-- src/cutting/consolidate.py: the guillotine tree that is derived from the final positions of the
-- pieces on a sheet. Positions are natural numbers of nanometres, as the packer's are.
pub mod Score
pub mod Search
pub mod Derive
pub mod Tree
pub mod Candidates
pub mod Answers
pub mod Apply
pub mod Total
pub mod Sides
pub mod Sound
pub mod Never
mod Tests
