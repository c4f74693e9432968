-- ===== src/Rejpeg/Vli/RoundTrip.antt =====
-- rejpeg.c: `vliDecode` reads back what `vliEncode` wrote.
use im_dedup_plus.Prelude.{ℕ, ◌+◌, ◌-◌, ◌*◌, ◌/◌, ◌%◌, ◌^◌, ◌≤◌, ◌<◌, ◌≡◌, ◌≢◌, refl, ap, sym, ◌∙◌}
use im_dedup_plus.Prelude.{arith}
use im_dedup_plus.Prelude.{Option, some, List, [], ◌∷◌, map, ap₂}
use im_dedup_plus.Rejpeg.Rle.{Entry}
use im_dedup_plus.Rejpeg.Rle.Runs.{tagged}
use im_dedup_plus.Rejpeg.Vli.{magnitude, code_bits, Encoder, put_bits, vli_step, vli_loop}
use im_dedup_plus.Rejpeg.Vli.{
  vli_encode, Reader, take_bits, value_of, read_value, read_values, vli_decode,
}
use im_dedup_plus.Rejpeg.Vli.Fields.{pow_sum, pow_pos}
use im_dedup_plus.Rejpeg.Vli.Magnitude.{bit_length_bounds, code-lt}
use im_dedup_plus.Rejpeg.Vli.Magnitude.{value-code}
use im_dedup_plus.Rejpeg.Vli.Step.{
  IsFilled, reader, put_inside, put_across, take_inside, take_across,
}
use native.Mathlib.Decide.{dec_le, ℕ_discrete}
use im_dedup_plus.Rejpeg.Vli.Rounds.{
  nibble, nibble-lt, IsCodable, AllCodable, byte_of, coded, Reads,
}
use im_dedup_plus.Rejpeg.Vli.Rounds.{
  loop_words, loop_bytes, read_cons, step_zero, step_put, read_zero, read_put,
}

-- One more entry in front, by the three ways that the encoder goes.
module _ (s : Encoder) (e : Entry) (es : List Entry) (f : IsFilled s) (ok : IsCodable e) where
  abbrev same : Encoder
  same = record s { bit_len = nibble e }

  zero-Reads : e.value ≡ 0 → Reads same es → Reads s (e ∷ es)
  zero-Reads z r = record {
    low = r.low;
    ws = r.ws;
    below = r.below;
    written = loop_words s e es (step_zero s e ok z) ∙ r.written;
    read = rw (loop_bytes s e es (step_zero s e ok z)) (
        read_cons (reader s.empty_bits r.low r.ws) (reader s.empty_bits r.low r.ws) (byte_of e)
          e.value (vli_loop same es).1 (coded es) (read_zero (reader s.empty_bits r.low r.ws) e z)
          r.read);
  }

  module _ (nz : e.value ≢ 0) where
    mag_pos : 0 < magnitude e.value
    unfolding magnitude
    mag_pos = ground (arith, ok.1)

    bounds :
        (1 ≤ nibble e)
        × (nibble e ≤ 12)
        × (2 ^ (nibble e - 1) ≤ magnitude e.value)
        × (magnitude e.value < 2 ^ nibble e)
    bounds = bit_length_bounds 0 (magnitude e.value) mag_pos ok.2

    bits : ℕ
    bits = code_bits e.value (nibble e)

    bits-lt : bits < 2 ^ nibble e
    unfolding bits
    bits-lt = code-lt e.value (nibble e) bounds.0 bounds.1 bounds.2 bounds.3

    value_back : value_of bits (nibble e) ≡ e.value
    unfolding bits
    value_back = value-code e.value (nibble e) bounds.0 bounds.1 bounds.2 bounds.3 ok.1

    stepped :
        {words : List ℕ} {s' : Encoder}
        → put_bits same bits ≡ (words, s')
        → vli_step s e ≡ (words, byte_of e, s')
    unfolding bits
    stepped p = step_put s e ok nz ∙ ap (λ (t : List ℕ × Encoder). (t.0, byte_of e, t.1)) p

    read_back :
        (r r' : Reader)
        → take_bits r (nibble e) ≡ some (bits, r')
        → read_value r (byte_of e) ≡ some (e.value, r')
    read_back r r' p = read_put r r' e bits bounds.0 p ∙ ap (λ (v : ℕ). some (v, r')) value_back

    abbrev same_filled : IsFilled same
    same_filled = record { high = f.high; filled = f.filled; room = f.room; fits = f.fits }

    -- The state behind a code that fits the word.
    abbrev inside : Encoder
    inside = record same {
      cur = (f.high * 2 ^ nibble e + bits) * 2 ^ (s.empty_bits - nibble e);
      empty_bits = s.empty_bits - nibble e;
    }

    inside-IsFilled : nibble e ≤ s.empty_bits → IsFilled inside
    inside-IsFilled le = record {
      high = f.high * 2 ^ nibble e + bits;
      filled = refl;
      room = omega (arith, f.room);
      fits =
          let wide : 2 ^ (16 - (s.empty_bits - nibble e)) ≡ 2 ^ (16 - s.empty_bits) * 2 ^ nibble e =
            pow_sum (16 - s.empty_bits) (nibble e) (16 - (s.empty_bits - nibble e))
              (omega (arith, f.room)) in
          let fewer : (f.high + 1) * 2 ^ nibble e ≤ 2 ^ (16 - s.empty_bits) * 2 ^ nibble e =
            grind (arith, f.fits) in
          omega (arith, wide, fewer, bits-lt);
    }

    inside-Reads : nibble e ≤ s.empty_bits → Reads inside es → Reads s (e ∷ es)
    inside-Reads le r = record {
      low = bits * 2 ^ (s.empty_bits - nibble e) + r.low;
      ws = r.ws;
      below = rw top (grind (arith, bits-lt, r.below));
      written =
          loop_words s e es (stepped (put_inside same bits same_filled bits-lt le))
          ∙ r.written
          ∙ ap (λ (w : ℕ). w ∷ r.ws) word;
      read = rw (loop_bytes s e es (stepped (put_inside same bits same_filled bits-lt le))) (
          read_cons (reader s.empty_bits (bits * 2 ^ (s.empty_bits - nibble e) + r.low) r.ws)
            (reader (s.empty_bits - nibble e) r.low r.ws) (byte_of e) e.value (vli_loop inside es).1
            (coded es)
            (read_back (reader s.empty_bits (bits * 2 ^ (s.empty_bits - nibble e) + r.low) r.ws)
              (reader (s.empty_bits - nibble e) r.low r.ws)
              (take_inside s.empty_bits (nibble e) bits r.low r.ws f.room le bits-lt r.below))
            r.read);
    }
      where
        top : 2 ^ s.empty_bits ≡ 2 ^ nibble e * 2 ^ (s.empty_bits - nibble e)
        top = pow_sum (nibble e) (s.empty_bits - nibble e) s.empty_bits (omega arith)

        word :
            (f.high * 2 ^ nibble e + bits) * 2 ^ (s.empty_bits - nibble e) + r.low
            ≡ s.cur + (bits * 2 ^ (s.empty_bits - nibble e) + r.low)
        word = omega (arith, f.filled, ap (λ (t : ℕ). f.high * t) top)

    -- The state behind a code that runs into the next word.
    abbrev over : ℕ
    over = nibble e - s.empty_bits

    abbrev across : Encoder
    across = record {
      cur = bits % 2 ^ over * 2 ^ (16 - over);
      empty_bits = 16 - over;
      bit_len = over;
    }

    across-IsFilled : IsFilled across
    across-IsFilled = record {
      high = bits % 2 ^ over;
      filled = refl;
      room = omega arith;
      fits =
          let same_power : 16 - (16 - over) ≡ over = omega (arith, bounds.1) in
          rw same_power (omega (arith, pow_pos over));
    }

    across-Reads : s.empty_bits < nibble e → Reads across es → Reads s (e ∷ es)
    across-Reads lt r = record {
      low = bits / 2 ^ over;
      ws = (across.cur + r.low) ∷ r.ws;
      below =
          let top : 2 ^ nibble e ≡ 2 ^ s.empty_bits * 2 ^ over =
            pow_sum s.empty_bits over (nibble e) (omega arith) in
          let cut : bits / 2 ^ over * 2 ^ over ≤ bits = omega arith in
          grind (arith, top, cut, bits-lt, pow_pos over);
      written =
          loop_words s e es
            (stepped (put_across same bits same_filled bits-lt lt (omega (arith, bounds.1))))
          ∙ ap₂ (λ (w : ℕ) (l : List ℕ). w ∷ l) (ap (λ (c : ℕ). c + bits / 2 ^ over) (sym f.filled))
              r.written;
      read =
          rw
            (loop_bytes s e es
              (stepped (put_across same bits same_filled bits-lt lt (omega (arith, bounds.1)))))
            (read_cons (reader s.empty_bits (bits / 2 ^ over) ((across.cur + r.low) ∷ r.ws))
              (reader (16 - over) r.low r.ws) (byte_of e) e.value (vli_loop across es).1 (coded es)
              (read_back (reader s.empty_bits (bits / 2 ^ over) ((across.cur + r.low) ∷ r.ws))
                (reader (16 - over) r.low r.ws)
                (take_across s.empty_bits (nibble e) bits r.low r.ws (omega (arith, bounds.1)) lt
                  bits-lt r.below))
              r.read);
    }

loop-Reads : (s : Encoder) (es : List Entry) → IsFilled s → AllCodable es → Reads s es
loop-Reads s [] f ok = record {
  low = 0;
  ws = [];
  below = pow_pos s.empty_bits;
  written = unfold vli_loop in ap (λ (c : ℕ). c ∷ []) {x = s.cur} {y = s.cur + 0} (omega arith);
  read = unfold vli_loop read_values in refl;
}
loop-Reads s (e ∷ es) f ok = elim (ℕ_discrete e.value 0) [
  | yes z ↦ zero-Reads s e es f ok.0 z (
      loop-Reads (same s e es f ok.0) es
        (record { high = f.high; filled = f.filled; room = f.room; fits = f.fits }) ok.1)
  | no nz ↦ elim (dec_le (nibble e) s.empty_bits) [
    | yes le ↦
        inside-Reads s e es f ok.0 nz le
          (loop-Reads (inside s e es f ok.0 nz) es (inside-IsFilled s e es f ok.0 nz le) ok.1)
    | no gt ↦
        across-Reads s e es f ok.0 nz (omega arith)
          (loop-Reads (across s e es f ok.0 nz) es (across-IsFilled s e es f ok.0 nz) ok.1)
  ]
]

-- Every list of entries that the coder can represent, at least one, is read back: each number as it
-- was, and each run in the upper nibble of its length byte. Whatever `bitLength` held at first does
-- not matter.
pub vli_decode-vli_encode :
    (len0 : ℕ) (e : Entry) (es : List Entry)
    → AllCodable (e ∷ es)
    → vli_decode (vli_encode len0 (e ∷ es)).0 (vli_encode len0 (e ∷ es)).1
      ≡ some (map (tagged nibble nibble-lt) (e ∷ es))
unfolding vli_decode vli_encode
vli_decode-vli_encode len0 e es ok = rw r.written (shift r.low r.ws r.read)
  where
    start : Encoder
    start = record { cur = 0; empty_bits = 16; bit_len = len0 }

    r : Reads start (e ∷ es)
    r =
        loop-Reads start (e ∷ es)
          (record { high = 0; filled = refl; room = omega arith; fits = omega arith }) ok

    shift :
        (low : ℕ) (ws : List ℕ) {o : Option (List Entry)}
        → read_values (reader 16 low ws) (vli_loop start (e ∷ es)).1 ≡ o
        → read_values
            (record { full_bits = 16; data_tmp = 0 + low; words = ws })
            (vli_loop start (e ∷ es)).1
          ≡ o
    shift low ws p =
        ap
          (λ (d : ℕ).
            read_values (record { full_bits = 16; data_tmp = d; words = ws })
              (vli_loop start (e ∷ es)).1)
          {x = 0 + low} {y = low * 1} (omega arith)
        ∙ p
