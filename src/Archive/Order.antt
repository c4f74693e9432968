-- ===== src/Archive/Order.antt =====
-- idedup.c: the order of the bytes that pass `write_cache`.
use im_dedup_plus.Prelude.{
  ℕ, zero, suc, ◌+◌, ◌^◌, ◌≤◌, ◌<◌, ◌≡◌, refl, sym, ap, subst, ◌∙◌, arith, ltb, sub64, ◌>>>◌,
  if◌then◌else◌, true, false, Bool-cases, inl, inr, lt→ltb, le→ltb, le→leb,
}
use im_dedup_plus.Prelude.{
  some, ◌>>=◌, ◌>>◌, guard, length, take, drop, List, [], ◌∷◌, ◌++◌, append-nil, append_assoc,
  length-append, length-take, length-drop,
}
use im_dedup_plus.Rejpeg.Bytes.{read_bytes}
use im_dedup_plus.Archive.Cache.{
  Cache, Output, write_buffer, rewind, make_room, copy_in, write_cache, write_pieces, open_cache,
  write_file,
}

-- The buffer is as long as it says, and `ptr` parts it into what is used and what is left.
pub record IsCache (c : Cache) : Type 0 where
  pub sized : length c.buffer ≡ c.size
  pub parted : c.ptr + c.left_size ≡ c.size
  pub small : c.size < 2 ^ 63

-- What was written, the bytes still in the buffer included.
unfoldable pub written : Output → List ℕ
written o = o.file ++ take o.cache.ptr o.cache.buffer

-- The state after a write of `bytes`.
pub record Wrote (o : Output) (bytes : List ℕ) (o' : Output) : Type 0 where
  pub still : IsCache o'.cache
  pub same_size : o'.cache.size ≡ o.cache.size
  pub order : written o' ≡ written o ++ bytes

read_bytes-take :
    (n : ℕ) (bs : List ℕ) → n ≤ length bs → read_bytes n bs ≡ some (take n bs, drop n bs)
unfolding read_bytes
read_bytes-take zero bs h = refl
read_bytes-take (suc n) [] h = absurd (omega arith)
read_bytes-take (suc n) (b ∷ bs) h = rw (read_bytes-take n bs (omega arith)) refl

pub take-append : (xs ys : List ℕ) → take (length xs) (xs ++ ys) ≡ xs
take-append [] ys = refl
take-append (x ∷ xs) ys = ap (λ (l : List ℕ). x ∷ l) (take-append xs ys)

-- The used part after a copy.
take-copied :
    (n : ℕ) (buffer bytes rest : List ℕ)
    → n ≤ length buffer
    → take (n + length bytes) (take n buffer ++ (bytes ++ rest)) ≡ take n buffer ++ bytes
take-copied n buffer bytes rest h =
    let both : length (take n buffer ++ bytes) ≡ n + length bytes =
      omega (arith, length-append (take n buffer) bytes, length-take n buffer) in
    rw (sym both, sym (append_assoc (take n buffer) bytes rest))
      (take-append (take n buffer ++ bytes) rest)

module _ (o : Output) (ok : IsCache o.cache) where
  used : sub64 o.cache.size o.cache.left_size ≡ o.cache.ptr
  used = omega (arith, ok.parted, ok.small)

  pub write_buffer_lem : write_buffer o ≡ some (record o { file = written o })
  unfolding write_buffer written
  write_buffer_lem =
      rw
        (
          used,
          read_bytes-take o.cache.ptr o.cache.buffer (omega (arith, ok.parted, ok.sized)),
          ◌>>=◌,
        )
        refl

  module _ (bytes : List ℕ) where
    pub copy_in-Wrote :
        length bytes ≤ o.cache.left_size
        → (o' : Output) × (copy_in bytes o ≡ some o') × Wrote o bytes o'
    unfolding copy_in written
    copy_in-Wrote h = (
      record {
        cache = record {
          buffer =
              take o.cache.ptr o.cache.buffer
              ++ (bytes ++ drop (o.cache.ptr + length bytes) o.cache.buffer);
          ptr = o.cache.ptr + length bytes;
          left_size = sub64 o.cache.left_size (length bytes);
          size = o.cache.size;
        };
        file = o.file;
      },
      rw
          (
            le→leb (o.cache.ptr + length bytes) (length o.cache.buffer)
                (omega (arith, h, ok.parted, ok.sized)),
            guard,
            ◌>>◌,
            ◌>>=◌,
          )
          refl,
      record {
        still = record {
          sized = omega (
            arith,
            h,
            ok.parted,
            ok.sized,
            length-append (take o.cache.ptr o.cache.buffer)
                (bytes ++ drop (o.cache.ptr + length bytes) o.cache.buffer),
            length-append bytes (drop (o.cache.ptr + length bytes) o.cache.buffer),
            length-take o.cache.ptr o.cache.buffer,
            length-drop (o.cache.ptr + length bytes) o.cache.buffer,
          );
          parted = omega (arith, h, ok.parted, ok.small);
          small = ok.small;
        };
        same_size = refl;
        order =
            ap (λ (l : List ℕ). o.file ++ l)
              (take-copied o.cache.ptr o.cache.buffer bytes
                (drop (o.cache.ptr + length bytes) o.cache.buffer)
                (omega (arith, ok.parted, ok.sized)))
            ∙ sym (append_assoc o.file (take o.cache.ptr o.cache.buffer) bytes);
      },
    )

-- The state with its buffer written out.
emptied : Output → Output
emptied o = rewind (record o { file = written o })

module _ (o : Output) (ok : IsCache o.cache) where
  emptied-IsCache : IsCache (emptied o).cache
  unfolding emptied rewind
  emptied-IsCache = record { sized = ok.sized; parted = omega arith; small = ok.small }

  written-emptied : written (emptied o) ≡ written o
  unfolding emptied rewind written
  written-emptied = append-nil (o.file ++ take o.cache.ptr o.cache.buffer)

  emptied-size : (emptied o).cache.size ≡ o.cache.size
  unfolding emptied rewind
  emptied-size = refl

  module _ (bytes : List ℕ) (fits : length bytes ≤ o.cache.size) where
    make_room-full :
        ltb o.cache.left_size (length bytes) ≡ true → make_room (length bytes) o ≡ some (emptied o)
    unfolding make_room emptied
    make_room-full full = rw (full, if◌then◌else◌, write_buffer_lem o ok, ◌>>=◌) refl

    make_room-room :
        ltb o.cache.left_size (length bytes) ≡ false → make_room (length bytes) o ≡ some o
    unfolding make_room
    make_room-room room = rw (room, if◌then◌else◌) refl

    emptied-fits : length bytes ≤ (emptied o).cache.left_size
    unfolding emptied rewind
    emptied-fits = fits

    buffered : write_cache bytes o ≡ (make_room (length bytes) o >>= copy_in bytes)
    unfolding write_cache
    buffered = rw (le→ltb o.cache.size (length bytes) fits, if◌then◌else◌) refl

    -- A piece that fits into the buffer goes behind all that was written, and nothing faults.
    pub write_cache-Wrote : (o' : Output) × (write_cache bytes o ≡ some o') × Wrote o bytes o'
    write_cache-Wrote = elim (Bool-cases (ltb o.cache.left_size (length bytes))) [
      | inl full ↦
          let (o', e, w) = copy_in-Wrote (emptied o) emptied-IsCache bytes emptied-fits in
          (
            o',
            rw (buffered, make_room-full full, ◌>>=◌) e,
            record {
              still = w.still;
              same_size = w.same_size ∙ emptied-size;
              order = w.order ∙ ap (λ (l : List ℕ). l ++ bytes) written-emptied;
            },
          )
      | inr room ↦
          let (o', e, w) = copy_in-Wrote o ok bytes (ground arith) in
          (o', rw (buffered, make_room-room room, ◌>>=◌) e, w)
    ]

-- Each piece is at most as long as the buffer.
abbrev pub AllFit : ℕ → List (List ℕ) → Type 0
AllFit size [] = Unit
AllFit size (bytes ∷ rest) = (length bytes ≤ size) × AllFit size rest

abbrev pub concat : List (List ℕ) → List ℕ
concat [] = []
concat (bytes ∷ rest) = bytes ++ concat rest

pub write_pieces-Wrote :
    (pieces : List (List ℕ)) (o : Output)
    → IsCache o.cache
    → AllFit o.cache.size pieces
    → (o' : Output) × (write_pieces pieces o ≡ some o') × Wrote o (concat pieces) o'
unfolding write_pieces
write_pieces-Wrote [] o ok h =
    (o, refl, record { still = ok; same_size = refl; order = sym (append-nil (written o)) })
write_pieces-Wrote (bytes ∷ rest) o ok (fits, h) =
    let (o1, e1, w1) = write_cache-Wrote o ok bytes fits in
    let (o2, e2, w2) =
      write_pieces-Wrote rest o1 w1.still (subst (λ (n : ℕ). AllFit n rest) (sym w1.same_size) h) in
    (
      o2,
      rw (e1, ◌>>=◌) e2,
      record {
        still = w2.still;
        same_size = w2.same_size ∙ w1.same_size;
        order =
            w2.order
            ∙ ap (λ (l : List ℕ). l ++ concat rest) w1.order
            ∙ append_assoc (written o) bytes (concat rest);
      },
    )

-- When every piece fits into the buffer, the file is the pieces in the order of the calls: nothing is
-- lost at a change of the buffer or at the end, and no access leaves the buffer.
pub write_file-in_order :
    (patch_size : ℕ) (memory : List ℕ) (pieces : List (List ℕ))
    → patch_size < 2 ^ 63
    → length memory ≡ patch_size >>> 2
    → AllFit (patch_size >>> 2) pieces
    → write_file patch_size memory pieces ≡ some (concat pieces)
unfolding write_file open_cache written
write_file-in_order patch_size memory pieces small sized fits =
    let opened : IsCache (open_cache patch_size memory).cache = record {
      sized = sized;
      parted = omega arith;
      small = omega arith;
    } in
    let (o, e, w) = write_pieces-Wrote pieces (open_cache patch_size memory) opened fits in
    rw (e, ◌>>=◌, write_buffer_lem o w.still, ◌>>=◌, w.order) refl

-- A piece that is longer than the buffer goes to the file in front of what the buffer still holds,
-- which was written before it.
pub write_cache-overtakes :
    (o : Output) (big : List ℕ)
    → IsCache o.cache
    → o.cache.size < length big
    → (write_cache big o >>= write_buffer)
      ≡ some (record o { file = (o.file ++ big) ++ take o.cache.ptr o.cache.buffer })
unfolding write_cache written
write_cache-overtakes o big ok large =
    rw (lt→ltb o.cache.size (length big) large, if◌then◌else◌, ◌>>=◌)
      (write_buffer_lem (record o { file = o.file ++ big }) ok)
