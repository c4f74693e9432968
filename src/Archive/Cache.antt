-- ===== src/Archive/Cache.antt =====
-- idedup.c: `idedup_cache`, `write_cache`, and what `write_thread` does with them before its loop and
-- after it.
use im_dedup_plus.Prelude.{ℕ, ◌+◌, ltb, leb, sub64, ◌>>>◌, if◌then◌else◌}
use im_dedup_plus.Prelude.{
  Option, some, ◌>>=◌, ◌>>◌, guard, length, take, drop, List, [], ◌∷◌, ◌++◌,
}
use im_dedup_plus.Rejpeg.Bytes.{read_bytes}

-- `ptr` counts from the start of `buffer`.
pub record Cache : Type 0 where
  pub buffer : List ℕ
  pub ptr : ℕ
  pub left_size : ℕ
  pub size : ℕ

-- The cache and the memory that are in the file.
pub record Output : Type 0 where
  pub cache : Cache
  pub file : List ℕ

-- `fwrite(cache->buffer, cache->size-cache->leftSize, 1, fp)`. `none` is a read past the buffer.
unfoldable pub write_buffer : Output → Option Output
write_buffer o = do
  (out, unused) ← read_bytes (sub64 o.cache.size o.cache.left_size) o.cache.buffer
  some (record o { file = o.file ++ out })

-- An empty buffer again.
unfoldable pub rewind : Output → Output
rewind o = record o { cache = record (o.cache) { ptr = 0; left_size = o.cache.size } }

-- `if(size > cache->leftSize)`.
unfoldable pub make_room : ℕ → Output → Option Output
unfolding write_buffer rewind
make_room size o =
    if ltb o.cache.left_size size then (do o' ← write_buffer o; some (rewind o')) else some o

-- The `memcpy`. `none` is a write past the buffer.
unfoldable pub copy_in : List ℕ → Output → Option Output
copy_in bytes o =
    let c = o.cache in
    guard (leb (c.ptr + length bytes) (length c.buffer))
    >> some (record o {
      cache = record c {
        buffer = take c.ptr c.buffer ++ (bytes ++ drop (c.ptr + length bytes) c.buffer);
        ptr = c.ptr + length bytes;
        left_size = sub64 c.left_size (length bytes);
      };
    })

unfoldable pub write_cache : List ℕ → Output → Option Output
unfolding make_room copy_in
write_cache bytes o =
    if ltb o.cache.size (length bytes)
    then some (record o { file = o.file ++ bytes })
    else (do o' ← make_room (length bytes) o; copy_in bytes o')

-- The calls of one loop, one after the other.
unfoldable pub write_pieces : List (List ℕ) → Output → Option Output
write_pieces [] o = some o
write_pieces (bytes ∷ rest) o = do o' ← write_cache bytes o; write_pieces rest o'

-- The cache that `write_thread` makes; `memory` is what `malloc` gives.
unfoldable pub open_cache : ℕ → List ℕ → Output
open_cache patch_size memory = record {
  cache = record {
    buffer = memory;
    ptr = 0;
    left_size = patch_size >>> 2;
    size = patch_size >>> 2;
  };
  file = [];
}

-- The whole run, with the last `fwrite` behind the loop.
unfoldable pub write_file : ℕ → List ℕ → List (List ℕ) → Option (List ℕ)
unfolding open_cache write_pieces
write_file patch_size memory pieces = do
  o ← write_pieces pieces (open_cache patch_size memory)
  o' ← write_buffer o
  some (o'.file)
