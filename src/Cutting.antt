-- ===== src/Cutting.antt =====
-- The cutting engine's domain layer, src/cutting: the data, the single-sheet packer and the check
-- of a finished sheet. Every length is a natural number of nanometres (1e-6 mm), the engine's own
-- epsilon, so that its constants 1e-6, 0.01 and 0.1 are the numbers 1, 10_000 and 100_000.
pub mod Models
pub mod Geometry
pub mod Packer
pub mod SheetCheck
pub mod Consolidate
pub mod Constructors
