-- ===== src/Lib.antt =====
-- imDedup_plus removes what images share: it decodes JPEG files to their quantised coefficients,
-- writes an image as instructions that copy blocks from a similar base image or insert blocks of its
-- own, codes the inserted blocks anew, and rebuilds the image from all of that. This library models
-- that core.
--
-- The parts, and how a block travels through them:
-- - Image: an image after the JPEG decoder (`jpeg_coe` of jpeg.h): its blocks of 64 coefficients, the
--   three components one behind the other, and their sizes. A component with its row pointers
--   (`jbarray` in idelta.c and index.c) is a `Plane`; a read past the rows or the data is `none`.
-- - Index: index.c, the threads that enter every block of a base image into a table from a hash to
--   places (`create_block_index`, `index_compute_thread`, `index_sub_thread`).
-- - Delta: idelta.c. Delta.Encode is `get_instructions` with its threads, the search for matches
--   through the table or at the same place; Delta.Decode is the part of `de_dedup_a_single_img` that
--   rebuilds the blocks. The arrays of copies and inserts stand in `Instructions`.
-- - Rejpeg: rejpeg.c, the coder of the inserted blocks. Rejpeg.Zigzag, Rejpeg.Rle and Rejpeg.Vli are
--   the three stages each way, Rejpeg.Packing the entropy coding of the instruction arrays
--   (`compress_delta_ins`, `decompress_delta_ins`), Rejpeg.Retry the loop of `rejpeg_a_single_img`
--   that looks for a large enough buffer, Rejpeg.Container the buffer with its sizes and flag
--   (`recompressed_by_myjpeg`, `decode_myjpeg`) and `entropy_compress` of idedup.c.
-- - Detect: 2df.c, the choice of a base image in `detect_a_single_img` from the lists of the feature
--   tables. Detect.Tables is the loop that looks into each table and enters the image, with one thread or
--   two that take turns at the locks; GLib's table is the interface `FeatureTable`.
-- - Features: 2df.c, the features that `compute_features` finds by sliding a window over the brightness,
--   with the method `_2DF` in two dimensions, and the super features that Detect compares.
-- - Buffer: buffer.c, the buffer of the images that can be a base, with the callbacks of 2df.c, on
--   explicit pointers. Buffer.Outcome is a result, an access through `NULL` or fuel that ran out,
--   Buffer.Spec the nodes that hold their data in their order, and the room that they leave. A round of
--   `make_room` is one `delete_from_top_action`, and other threads may change the links between rounds.
-- - Pipeline: who uses an image, over Buffer: `detect_a_single_img` of 2df.c, `dedup_thread` of idelta.c
--   and `rejpeg_thread` of rejpeg.c count it in `link` and take it away. A `Job` is how far the work on an
--   image is. The threads take their steps in any order; while one has the buffer's lock, the others go
--   on with what needs no lock, and each round finds the links as some of that left them. A run stops
--   where the buffer goes through `NULL`, or a thread needs more rounds than its fuel. `malloc` gives nodes
--   that are not there yet, fewer than 2^63 of them. An image without a base has no hold any more while
--   `detect_thread` writes its file (`storing`).
-- - Rabin: rabin/rabin.c, the hash of a window of bytes with its tables; `none` is an access outside the
--   window or a table, or fuel that ran out (65 rounds of `mod`, each of which lowers the degree of a
--   64-bit number).
-- - Gear: rabin/gear.c, the hash of a sequence of bytes and of a block of coefficients. Gear.Largest: the
--   features that `compute_features` finds with the method `_GEAR`.
-- - Adler: rabin/adler32.c, the checksum that stands in for the hash without DC_HASH. The loop over the
--   rounds has one unit of fuel more than there are bytes; each full round takes 5552 of them.
-- - Archive: idedup.c, the file. Archive.Cache is `write_cache` and its buffer, Archive.Record what
--   `write_thread` writes of an image and what `de_read_thread` makes of it, Archive.Stages what
--   `rejpeg_thread` and `de_decode_thread` do with an image before and behind the file.
-- - Queue: the lists between the stages (`ListNode` of idedup.h) as the threads of idedup.c, rejpeg.c,
--   idelta.c, index.c and 2df.c fill and empty them; Queue.Threads is a step relation, in which any
--   thread may go next. Queue.Signals adds the condition variables of `dedupList`, between `dedup_thread`
--   and `rejpeg_thread`: who sleeps, and whom a signal wakes.
-- - Prelude: the names shared by all, C arrays as lists, fixed widths and bit operations.
-- - Tests: concrete images, a concrete table and a concrete entropy coder.
--
-- The configuration is the one of the headers: DC_HASH, FIX_OPTI, THREAD_OPTI, USE_RABIN, ZIGZAG,
-- FSE and COMPRESS_DELTA_INS on, JPEG_SEPA_COMP off, one sub-thread to a component. A `short` is its
-- 16-bit pattern; every cast to a width is written out. Uninitialised memory is a parameter: the
-- buffer of `zigzag`, the first `bitLength`, and the variable `j` of `index_sub_thread`, which the
-- code reads and never sets.
--
-- Loops with a bound that the code computes run on fuel: one more than the width, or the height, of
-- the component they walk, and the theorems show that this is enough: no result is conditional on a
-- run that ends, but for those of Pipeline.Promise, which are about each state that the threads come to.
-- The buffer of `rejpeg_a_single_img` doubles at most 32 times before its 32-bit size is
-- 0, so 33 rounds are enough; a size whose `int` is negative counts as a failure, as in the code, and a write
-- behind the end of the buffer is an outcome of its own (`past_buffer`, `past_end`). The archive is read with one round for each of its bytes.
--
-- GLib's hash table and the vendored entropy coder are interfaces (`GHashTable`, `FeatureTable`, `Fse`)
-- with the laws that the code relies on. Threads of one stage run on separate components and meet only when they
-- are joined, so they are modelled one after the other.
--
-- The file is the bytes that were written to it. A step of a thread at a list is what it does between
-- taking the lock and giving it back. Outside Queue.Signals the condition variables are not modelled, and
-- a thread that waits may look again at any time. A node is its address, and `next` of the nodes is explicit.
--
-- Not modelled: the calls that read and write files, the JPEG decoder and encoder of jpeglib, the delta
-- of the headers by xdelta, `_2DF` in one dimension and the Rabin method of `compute_features`, the memory
-- sizes of the nodes, the 32-bit size of the memory of a rebuilt image, the condition variables of the other
-- lists, and the timers.
pub mod Prelude
pub mod Image
pub mod Rejpeg
pub mod Index
pub mod Delta
pub mod Detect
pub mod Features
pub mod Buffer
pub mod Adler
pub mod Rabin
pub mod Gear
pub mod Archive
pub mod Queue
pub mod Pipeline
pub mod Tests
