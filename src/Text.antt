-- ===== src/Text.antt =====
-- The parsers of byte slices: protocol/gamescope.rs and runtime/src/maps.rs.
pub mod Bytes
pub mod Gamescope
pub mod Maps
pub mod Lines
