-- ===== src/Rejpeg/Vli/Rounds.antt =====
-- rejpeg.c: one round of the loops of `vliEncode` and `vliDecode`.
use im_dedup_plus.Prelude.{ℕ, ◌+◌, ◌*◌, ◌^◌, ◌≤◌, ◌<◌, ◌≡◌, ◌≢◌, refl, ap, sym}
use im_dedup_plus.Prelude.{arith, true, false, ◌==◌}
use im_dedup_plus.Prelude.{some, List, [], ◌∷◌, ◌++◌, map}
use im_dedup_plus.Rejpeg.Rle.{Entry, entry}
use im_dedup_plus.Rejpeg.Rle.Runs.{tagged}
use im_dedup_plus.Rejpeg.Vli.{
  magnitude, bit_length, code_bits, Encoder, put_bits, vli_step, vli_loop,
}
use im_dedup_plus.Rejpeg.Vli.{Reader, take_bits, value_of, read_value, read_values}
use im_dedup_plus.Rejpeg.Vli.Magnitude.{bit_length-lt, bit_length_old}
use im_dedup_plus.Rejpeg.Vli.Magnitude.{byte_fields, byte_length}
use im_dedup_plus.Rejpeg.Vli.Step.{reader}

-- The low nibble of the length byte that goes with an entry.
abbrev pub nibble : Entry → ℕ
nibble e = bit_length 0 (magnitude e.value)

pub nibble-lt : (e : Entry) → nibble e < 16
nibble-lt e = bit_length-lt (magnitude e.value)

-- What the coder can represent: a run of at most 15, a number of at most 4095 either way.
abbrev pub IsCodable : Entry → Type 0
IsCodable e = (e.len ≤ 15) × (e.value < 2 ^ 16) × (magnitude e.value ≤ 4095)

abbrev pub AllCodable : List Entry → Type 0
AllCodable [] = Unit
AllCodable (e ∷ es) = IsCodable e × AllCodable es

-- The length byte.
abbrev pub byte_of : Entry → ℕ
byte_of e = e.len * 16 + nibble e

abbrev pub coded : List Entry → List Entry
coded es = map (tagged nibble nibble-lt) es

-- The words that the encoder writes from here on, read by a decoder that stands here, give `es`.
pub record Reads (s : Encoder) (es : List Entry) : Type 0 where
  pub low : ℕ
  pub ws : List ℕ
  pub below : low < 2 ^ s.empty_bits
  pub written : (vli_loop s es).0 ≡ (s.cur + low) ∷ ws
  pub read : read_values (reader s.empty_bits low ws) (vli_loop s es).1 ≡ some (coded es)

pub loop_words :
    (s : Encoder) (e : Entry) (es : List Entry) {words : List ℕ} {byte : ℕ} {s' : Encoder}
    → vli_step s e ≡ (words, byte, s')
    → (vli_loop s (e ∷ es)).0 ≡ words ++ (vli_loop s' es).0
unfolding vli_loop
loop_words s e es p = ap (λ (t : List ℕ × ℕ × Encoder). t.0 ++ (vli_loop t.2 es).0) p

pub loop_bytes :
    (s : Encoder) (e : Entry) (es : List Entry) {words : List ℕ} {byte : ℕ} {s' : Encoder}
    → vli_step s e ≡ (words, byte, s')
    → (vli_loop s (e ∷ es)).1 ≡ byte ∷ (vli_loop s' es).1
unfolding vli_loop
loop_bytes s e es p = ap (λ (t : List ℕ × ℕ × Encoder). t.1 ∷ (vli_loop t.2 es).1) p

pub read_cons :
    (r r' : Reader) (byte v : ℕ) (bytes : List ℕ) (vs : List Entry)
    → read_value r byte ≡ some (v, r')
    → read_values r' bytes ≡ some vs
    → read_values r (byte ∷ bytes) ≡ some (entry byte v ∷ vs)
unfolding read_values
read_cons r r' byte v bytes vs p q = rw p (rw q refl)

pub step_zero :
    (s : Encoder) (e : Entry)
    → IsCodable e
    → e.value ≡ 0
    → vli_step s e ≡ ([], byte_of e, record s { bit_len = nibble e })
unfolding vli_step
step_zero s e ok z =
    rw (lengths, zero_len) (rw (byte_fields e.len (nibble e) ok.0 (nibble-lt e)) refl)
  where
    lengths : bit_length s.bit_len (magnitude e.value) ≡ nibble e
    lengths = bit_length_old s.bit_len (magnitude e.value) ok.2

    zero_len : (e.value == 0) ≡ true
    zero_len = ground arith

pub step_put :
    (s : Encoder) (e : Entry)
    → IsCodable e
    → e.value ≢ 0
    → vli_step s e ≡ (
      (put_bits (record s { bit_len = nibble e }) (code_bits e.value (nibble e))).0,
      byte_of e,
      (put_bits (record s { bit_len = nibble e }) (code_bits e.value (nibble e))).1,
    )
unfolding vli_step
step_put s e ok nz =
    rw (bit_length_old s.bit_len (magnitude e.value) ok.2, used)
      (rw (byte_fields e.len (nibble e) ok.0 (nibble-lt e)) refl)
  where
    used : (e.value == 0) ≡ false
    used = ground arith

nibble_zero : (e : Entry) → e.value ≡ 0 → nibble e ≡ 0
unfolding bit_length magnitude
nibble_zero e z = ground arith

pub read_zero :
    (r : Reader) (e : Entry) → e.value ≡ 0 → read_value r (byte_of e) ≡ some (e.value, r)
unfolding read_value
read_zero r e z =
    rw (byte_length e.len (nibble e) (nibble-lt e), no_bits) (ap (λ (v : ℕ). some (v, r)) (sym z))
  where
    no_bits : (nibble e == 0) ≡ true
    no_bits = ground (arith, nibble_zero e z)

pub read_put :
    (r r' : Reader) (e : Entry) (bits : ℕ)
    → 0 < nibble e
    → take_bits r (nibble e) ≡ some (bits, r')
    → read_value r (byte_of e) ≡ some (value_of bits (nibble e), r')
unfolding read_value
read_put r r' e bits pos p = rw (byte_length e.len (nibble e) (nibble-lt e), used) (rw p refl)
  where
    used : (nibble e == 0) ≡ false
    used = ground arith
