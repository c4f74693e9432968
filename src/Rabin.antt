-- ===== src/Rabin.antt =====
-- rabin/rabin.c: the Rabin hash of a window of bytes, its tables, and the remainder by the polynomial.
pub mod Degree
pub mod Remainder
pub mod Tables
pub mod Hash
use im_dedup_plus.Prelude.{
  ℕ, zero, suc, ◌+◌, ◌-◌, ◌*◌, ◌%◌, ◌^◌, u8, u32, u64, ◌<<<◌, ◌>>>◌, bit_and, bit_or, bit_xor,
}
use im_dedup_plus.Prelude.{
  Bool, true, false, ◌==◌, leb, if◌then◌else◌, Option, none, some, ◌>>=◌, get_elem?, set, replicate,
  List, [], ◌∷◌,
}

abbrev pub polynomial : ℕ
polynomial = 0x3DA3358B4DC173

abbrev pub polynomial_degree : ℕ
polynomial_degree = 53

-- The loop of `deg` over the bits below some bit; `none` is the result -1.
unfoldable pub deg_from : ℕ → ℕ → Option ℕ
deg_from zero p = none
deg_from (suc i) p = let rest = deg_from i p in if bit_and (2 ^ i) p == 0 then rest else some i

unfoldable pub deg : ℕ → Option ℕ
unfolding deg_from
deg p = deg_from 64 p

-- `deg(x) >= deg(p)`.
unfoldable pub deg_ge : Option ℕ → Option ℕ → Bool
deg_ge x none = true
deg_ge none (some b) = false
deg_ge (some a) (some b) = leb b a

-- `deg(x) - deg(p)`, where the first is at least the second.
unfoldable pub deg_sub : Option ℕ → Option ℕ → ℕ
deg_sub none p = 0
deg_sub (some a) none = a + 1
deg_sub (some a) (some b) = a - b

-- `mod`. The outer `none` is fuel that ran out.
unfoldable pub mod_loop : ℕ → ℕ → ℕ → Option ℕ
unfolding deg_ge deg_sub
mod_loop zero x p = none
mod_loop (suc fuel) x p = elim (deg_ge (deg x) (deg p)) [
  | true ↦ mod_loop fuel (bit_xor x (u64 (p <<< deg_sub (deg x) (deg p)))) p
  | false ↦ some x
]

abbrev pub poly_mod : ℕ → ℕ → Option ℕ
poly_mod x p = mod_loop 65 x p

unfoldable pub append_byte : ℕ → ℕ → ℕ → Option ℕ
unfolding mod_loop
append_byte hash b pol = poly_mod (bit_or (u64 (hash <<< 8)) b) pol

-- `for (uint64_t i = 0; i < WINSIZE-1; i++)`, the number of rounds left.
unfoldable pub append_zeros : ℕ → ℕ → Option ℕ
unfolding append_byte
append_zeros zero hash = some hash
append_zeros (suc n) hash = do h ← append_byte hash 0 polynomial; append_zeros n h

-- `out_table[b]` and `mod_table[b]`.
unfoldable pub out_entry : ℕ → ℕ → Option ℕ
unfolding append_zeros
out_entry winsize b = do hash ← append_byte 0 b polynomial; append_zeros (winsize - 1) hash

unfoldable pub mod_entry : ℕ → Option ℕ
mod_entry b = do
  r ← poly_mod (u64 (b <<< polynomial_degree)) polynomial
  some (bit_or r (u64 (b <<< polynomial_degree)))

-- The entries from `b` on.
unfoldable pub entries : (ℕ → Option ℕ) → ℕ → ℕ → Option (List ℕ)
entries entry zero b = some []
entries entry (suc n) b = do e ← entry b; rest ← entries entry n (b + 1); some (e ∷ rest)

-- `out_table` and `mod_table`; `winsize` is not 0.
unfoldable pub calc_tables : ℕ → Option (List ℕ × List ℕ)
unfolding entries out_entry mod_entry
calc_tables winsize = do
  out_table ← entries (out_entry winsize) 256 0
  mod_table ← entries mod_entry 256 0
  some (out_table, mod_table)

-- `rabin_t`; nothing reads `count`.
pub record RabinT : Type 0 where
  pub window : List ℕ
  pub wpos : ℕ
  pub digest : ℕ

-- `none` is an access outside a table or the window.
unfoldable pub rabin_append : List ℕ → RabinT → ℕ → Option RabinT
rabin_append mod_table h b = do
  m ← get_elem? mod_table (u8 (h.digest >>> (polynomial_degree - 8)))
  some (record h { digest = bit_xor (bit_or (u64 (h.digest <<< 8)) b) m })

unfoldable pub rabin_slide : ℕ → List ℕ → List ℕ → RabinT → ℕ → Option RabinT
unfolding rabin_append
rabin_slide winsize out_table mod_table h b = do
  out ← get_elem? h.window h.wpos
  o ← get_elem? out_table out
  rabin_append mod_table
      (record {
        window = set h.window h.wpos b;
        wpos = u32 (h.wpos + 1) % winsize;
        digest = bit_xor h.digest o;
      })
      b

-- `rabin_reset`, which `rabin_init` calls.
unfoldable pub rabin_reset : ℕ → List ℕ → List ℕ → Option RabinT
unfolding rabin_slide
rabin_reset winsize out_table mod_table =
    rabin_slide winsize out_table mod_table
      (record { window = replicate winsize 0; wpos = 0; digest = 0 }) 1

-- The bytes of a block, or of several.
unfoldable pub rabin_slide_bytes : ℕ → List ℕ → List ℕ → RabinT → List ℕ → Option RabinT
rabin_slide_bytes winsize out_table mod_table h [] = some h
rabin_slide_bytes winsize out_table mod_table h (b ∷ bs) = do
  h' ← rabin_slide winsize out_table mod_table h b
  rabin_slide_bytes winsize out_table mod_table h' bs
