-- ===== src/Geometry.antt =====
-- src/geometry: assembling lines and rings.
pub mod Coord
pub mod LineStitcher
