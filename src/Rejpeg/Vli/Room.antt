-- ===== src/Rejpeg/Vli/Room.antt =====
-- rejpeg.c: how many words and length bytes `vliEncode` makes.
use im_dedup_plus.Prelude.{ℕ, ◌+◌, ◌-◌, ◌*◌, ◌≤◌, ◌≡◌, refl, arith}
use im_dedup_plus.Prelude.{leb, Bool-cases, inl, inr, length, length-append}
use im_dedup_plus.Prelude.{List, [], ◌∷◌}
use im_dedup_plus.Rejpeg.Rle.{Entry}
use im_dedup_plus.Rejpeg.Vli.{
  bit_length, code_bits, Encoder, put_bits, vli_step, vli_loop, vli_encode,
}
use im_dedup_plus.Rejpeg.Vli.Rounds.{
  nibble, IsCodable, AllCodable, step_zero, step_put, loop_words, loop_bytes,
}
use native.Mathlib.Decide.{ℕ_discrete}

-- The bits that a state has used of its word, and 16 for each word completed.
put_bits-room :
    (s : Encoder) (bits : ℕ)
    → s.empty_bits ≤ 16
    → s.bit_len ≤ 12
    → ((put_bits s bits).1.empty_bits ≤ 16)
      × (16 * length (put_bits s bits).0 + (16 - (put_bits s bits).1.empty_bits)
          ≤ 16 - s.empty_bits + 12)
unfolding put_bits
put_bits-room s bits e l = elim (Bool-cases (leb s.bit_len s.empty_bits)) [
  | inl c ↦ rw (put_bits, c) (omega (arith, e), ground arith)
  | inr c ↦ rw (put_bits, c) (omega (arith, e, l), ground arith)
]

nibble-le : (e : Entry) → IsCodable e → nibble e ≤ 12
unfolding bit_length
nibble-le e ok = ground (arith, ok.2)

-- The state behind one round, and the words that the round completed.
record Rounded (s : Encoder) (e : Entry) : Type 0 where
  words : List ℕ
  byte : ℕ
  next : Encoder
  stepped : vli_step s e ≡ (words, byte, next)
  empty : next.empty_bits ≤ 16
  room : 16 * length words + (16 - next.empty_bits) ≤ 16 - s.empty_bits + 12

round : (s : Encoder) (e : Entry) → s.empty_bits ≤ 16 → IsCodable e → Rounded s e
round s e h ok = elim (ℕ_discrete e.value 0) [
  | yes z ↦ record {
    words = [];
    byte = e.len * 16 + nibble e;
    next = record s { bit_len = nibble e };
    stepped = step_zero s e ok z;
    empty = h;
    room = omega arith;
  }
  | no nz ↦
      let s' : Encoder = record s { bit_len = nibble e } in
      let bits = code_bits e.value (nibble e) in
      let (empty, room) = put_bits-room s' bits h (nibble-le e ok) in
      record {
        words = (put_bits s' bits).0;
        byte = e.len * 16 + nibble e;
        next = (put_bits s' bits).1;
        stepped = step_put s e ok nz;
        empty = empty;
        room = room;
      }
]

vli_loop-nil : (s : Encoder) → vli_loop s [] ≡ (s.cur ∷ [], [])
unfolding vli_loop
vli_loop-nil s = refl

vli_loop-room :
    (s : Encoder) (es : List Entry)
    → s.empty_bits ≤ 16
    → AllCodable es
    → (16 * length (vli_loop s es).0 ≤ 16 + (16 - s.empty_bits) + 12 * length es)
      × (length (vli_loop s es).1 ≡ length es)
vli_loop-room s [] h all = rw (vli_loop-nil s) (omega arith, refl)
vli_loop-room s (e ∷ es) h (ok, all) =
    let r = round s e h ok in
    let (words, bytes) = vli_loop-room r.next es r.empty all in
    (
      rw (loop_words s e es r.stepped)
          (omega (arith, words, r.room, length-append r.words (vli_loop r.next es).0)),
      rw (loop_bytes s e es r.stepped) (omega (arith, bytes)),
    )

-- A word holds 16 bits, and no entry takes more than 12 of them; each has one length byte.
pub vli_encode-room :
    (len0 : ℕ) (es : List Entry)
    → AllCodable es
    → (4 * length (vli_encode len0 es).0 ≤ 4 + 3 * length es)
      × (length (vli_encode len0 es).1 ≡ length es)
unfolding vli_encode
vli_encode-room len0 [] all = (omega arith, refl)
vli_encode-room len0 (e ∷ es) all =
    let (words, bytes) =
      vli_loop-room (record { cur = 0; empty_bits = 16; bit_len = len0 }) (e ∷ es) (omega arith)
        all in
    (omega (arith, words), bytes)
