-- ===== src/Cutting/Packer.antt =====
-- src/cutting/packer.py: the single-bin guillotine packer, method by method, and what it promises.
pub mod Expand
pub mod Split
pub mod Place
pub mod SplitLaws
pub mod Choice
pub mod Placement
pub mod Invariant
pub mod Run
pub mod Leftover
pub mod Optimize
mod Tests
pub mod ExpandLaws
