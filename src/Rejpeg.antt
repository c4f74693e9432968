-- ===== src/Rejpeg.antt =====
-- rejpeg.c: the blocks that no copy covers are written in the manner of JPEG's entropy coding.
pub mod Zigzag
pub mod Rle
pub mod Vli
pub mod Codable
pub mod Bytes
pub mod Container
pub mod Packing
pub mod Retry
