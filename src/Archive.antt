-- ===== src/Archive.antt =====
-- idedup.c: the archive, the file that `write_thread` makes through `write_cache` and `de_read_thread`
-- takes apart.
pub mod Cache
pub mod Order
pub mod Record
pub mod RoundTrip
pub mod Stages
