-- ===== src/Rejpeg/Vli.antt =====
-- rejpeg.c: `vliEncode` and `vliDecode`. The value buffer is zeroed and is filled word by word, so
-- the encoder returns the words from the current one on; `cur` is `data[dataPos]`.
pub mod Fields
pub mod Magnitude
pub mod Step
pub mod Rounds
pub mod RoundTrip
pub mod Room
use im_dedup_plus.Prelude.{
  ℕ, zero, suc, ◌+◌, ◌-◌, ◌^◌, u8, u16, ◌<<<◌, ◌>>>◌, bit_and, bit_or, bit_xor,
}
use im_dedup_plus.Prelude.{Option, none, some, ◌>>=◌, ◌==◌, ltb, leb, if◌then◌else◌}
use im_dedup_plus.Prelude.{List, [], ◌∷◌, ◌++◌}
use im_dedup_plus.Rejpeg.Rle.{Entry, entry}

-- `abs(number)` of the `short` with this pattern.
unfoldable pub magnitude : ℕ → ℕ
magnitude number = if ltb number (2 ^ 15) then number else 2 ^ 16 - number

-- The ladder of comparisons. Above 4095 no branch sets `bitLength`, which keeps its old value.
unfoldable pub bit_length : ℕ → ℕ → ℕ
bit_length old n =
    if n == 0
    then 0
    else if n == 1
    then 1
    else if leb n 3
    then 2
    else if leb n 7
    then 3
    else if leb n 15
    then 4
    else if leb n 31
    then 5
    else if leb n 63
    then 6
    else if leb n 127
    then 7
    else if leb n 255
    then 8
    else if leb n 511
    then 9
    else if leb n 1023
    then 10
    else if leb n 2047
    then 11
    else if leb n 4095
    then 12
    else old

-- `bits`: the number, or the complement of its magnitude if it is negative.
unfoldable pub code_bits : ℕ → ℕ → ℕ
code_bits number len =
    if ltb number (2 ^ 15) then number else u16 (bit_xor (2 ^ 16 - number) (0xffff >>> (16 - len)))

-- `data[dataPos]`, `emptyBits` and `bitLength`.
pub record Encoder : Type 0 where
  pub cur : ℕ
  pub empty_bits : ℕ
  pub bit_len : ℕ

-- The two branches on `emptyBits >= bitLength`: the words that are complete, and the state.
unfoldable pub put_bits : Encoder → ℕ → List ℕ × Encoder
put_bits s bits =
    if leb s.bit_len s.empty_bits
    then (let empty = s.empty_bits - s.bit_len in
        ([], record s { cur = u16 (bit_or s.cur (bits <<< empty)); empty_bits = empty }))
    else (let len = s.bit_len - s.empty_bits in
        let empty = 16 - len in
        (
          u16 (bit_or s.cur (bits >>> len)) ∷ [],
          record { cur = u16 (bit_or 0 (bits <<< empty)); empty_bits = empty; bit_len = len },
        ))

-- One round of the loop: the words completed, the length byte, and the state.
unfoldable pub vli_step : Encoder → Entry → List ℕ × ℕ × Encoder
vli_step s e =
    let len = bit_length s.bit_len (magnitude e.value) in
    let byte = u8 (bit_or (e.len <<< 4) len) in
    let s' = record s { bit_len = len } in
    if e.value == 0
    then ([], byte, s')
    else (let (words, s'') = put_bits s' (code_bits e.value len) in (words, byte, s''))

-- The words from `data[dataPos]` on and the length bytes.
unfoldable pub vli_loop : Encoder → List Entry → List ℕ × List ℕ
vli_loop s [] = (s.cur ∷ [], [])
vli_loop s (e ∷ es) =
    let (words, byte, s') = vli_step s e in
    let (ws, bytes) = vli_loop s' es in (words ++ ws, byte ∷ bytes)

-- `len0` is what `bitLength` holds before it is set. Without entries `valLen` stays 0.
unfoldable pub vli_encode : ℕ → List Entry → List ℕ × List ℕ
vli_encode len0 [] = ([], [])
vli_encode len0 (e ∷ es) = vli_loop (record { cur = 0; empty_bits = 16; bit_len = len0 }) (e ∷ es)

-- `fullBits`, `dataTmp` and the words from `dataPtr` on.
pub record Reader : Type 0 where
  pub full_bits : ℕ
  pub data_tmp : ℕ
  pub words : List ℕ

-- The `if(fullBits < lengthTmp)` part: `bits`, `lengthTmp` and the state. `none` is a read past the
-- words.
unfoldable pub refill : Reader → ℕ → Option (ℕ × ℕ × Reader)
refill s len =
    if ltb s.full_bits len
    then (elim s.words [
      | [] ↦ none
      | w ∷ ws ↦ some (
        u16 ((s.data_tmp >>> (16 - s.full_bits)) <<< (len - s.full_bits)),
        len - s.full_bits,
        record { full_bits = 16; data_tmp = w; words = ws },
      )
    ])
    else some (0, len, s)

-- The `short` that the bits stand for.
unfoldable pub value_of : ℕ → ℕ → ℕ
value_of bits len =
    if bits >>> (len - 1) == 0 then u16 (2 ^ 16 - bit_xor bits (0xffff >>> (16 - len))) else bits

-- `bits`, and the state behind them.
unfoldable pub take_bits : Reader → ℕ → Option (ℕ × Reader)
unfolding refill
take_bits s len = do
  (high, rest, s') ← refill s len
  some (
    u16 (bit_or high (s'.data_tmp >>> (16 - rest))),
    record s' { full_bits = s'.full_bits - rest; data_tmp = u16 (s'.data_tmp <<< rest) },
  )

-- One round of the loop.
unfoldable pub read_value : Reader → ℕ → Option (ℕ × Reader)
read_value s byte =
    let len = bit_and byte 0x0f in
    if len == 0
    then some (0, s)
    else (do (bits, s') ← take_bits s len; some (value_of bits len, s'))

unfoldable pub read_values : Reader → List ℕ → Option (List Entry)
read_values s [] = some []
read_values s (byte ∷ bytes) = do
  (v, s') ← read_value s byte
  vs ← read_values s' bytes
  some (entry byte v ∷ vs)

-- The first word is read before the loop.
unfoldable pub vli_decode : List ℕ → List ℕ → Option (List Entry)
vli_decode [] bytes = none
vli_decode (w ∷ ws) bytes = read_values (record { full_bits = 16; data_tmp = w; words = ws }) bytes
