-- ===== src/Malloc.antt =====
-- The malloc lab, malloc/lab.
pub mod Memlib
pub mod Words
pub mod Mm
pub mod Ranges
pub mod Driver
pub mod Fcyc
pub mod Chain
pub mod Tiles
pub mod Whole
mod Tests
