-- ===== src/Delta.antt =====
-- idelta.c: the instructions that turn a base image into a target, and back.
pub mod Encode
pub mod Decode
pub mod Matching
pub mod Parts
pub mod Row
pub mod Columns
pub mod Rows
pub mod RoundTrip
pub mod Longest
pub mod Indexed
