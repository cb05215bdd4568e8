-- ===== src/Cutting/Constructors.antt =====
-- src/cutting/constructors.py: the fills of one sheet among which the board search chooses.
pub mod Order
pub mod Fill
pub mod Strip
pub mod Rounds
pub mod Parted
pub mod Beside
pub mod Packs
pub mod Advance
pub mod Loop
pub mod Filled
pub mod Distances
pub mod Pieces
pub mod Pool
pub mod Greedy
mod Tests
