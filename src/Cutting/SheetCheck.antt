-- ===== src/Cutting/SheetCheck.antt =====
-- src/cutting/sheet_check.py: whether a sheet that a seller laid out by hand can be cut. Corners
-- are signed, since the layout comes from outside; sizes are not.
pub mod Violations
pub mod Separation
pub mod Physical
pub mod Packed
pub mod Realize
mod Tests
