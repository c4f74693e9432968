-- ===== src/Rabin/Hash.antt =====
-- rabin/rabin.c: what `rabin_append` and `rabin_slide` keep of a hash.
use im_dedup_plus.Prelude.{
  ℕ, zero, suc, ◌+◌, ◌*◌, ◌/◌, ◌%◌, ◌^◌, ◌<◌, ◌≡◌, refl, ap, ◌∙◌, arith, u8, u32, u64, ◌<<<◌, ◌>>>◌,
  bit_or, bit_xor, or_fields, xor_below, xor_same_top,
}
use im_dedup_plus.Prelude.{
  some, ◌>>=◌, length, get_elem?, set, length-set, replicate, length-replicate, AllBytes, byte_at,
  replicate-AllBytes, List, [], ◌∷◌,
}
use im_dedup_plus.Rabin.{
  RabinT, rabin_append, rabin_slide, rabin_reset, rabin_slide_bytes, calc_tables,
}
use im_dedup_plus.Rabin.Tables.{IsTables, calc_tables-IsTables}

set-AllBytes : (bs : List ℕ) (i b : ℕ) → AllBytes bs → b < 2 ^ 8 → AllBytes (set bs i b)
set-AllBytes [] i b all h = tt
set-AllBytes (c ∷ bs) zero b (p, all) h = (h, all)
set-AllBytes (c ∷ bs) (suc i) b (p, all) h = (p, set-AllBytes bs i b all h)

-- The window has its size, the position is in it, and the hash is below the degree.
pub record IsHash (winsize : ℕ) (h : RabinT) : Type 0 where
  pub sized : length h.window ≡ winsize
  pub inside : h.wpos < winsize
  pub bytes : AllBytes h.window
  pub below : h.digest < 2 ^ 53

mod-lt : (n w : ℕ) → 0 < w → n % w < w
mod-lt n zero h = absurd (omega (arith, h))
mod-lt n (suc w) h = omega arith

-- The byte moves in, and the upper bits are taken away by the table.
reduced :
    (digest b m r : ℕ)
    → digest < 2 ^ 53
    → b < 2 ^ 8
    → m ≡ digest / 2 ^ 45 * 2 ^ 53 + r
    → r < 2 ^ 53
    → bit_xor (bit_or (u64 (digest <<< 8)) b) m < 2 ^ 53
reduced digest b m r below byte e lt =
    let kept : u64 (digest <<< 8) ≡ digest * 2 ^ 8 = omega (arith, below) in
    let fields : bit_or (digest * 2 ^ 8) b
        ≡ digest / 2 ^ 45 * 2 ^ 53 + (digest % 2 ^ 45 * 2 ^ 8 + b) =
      omega (arith, or_fields 8 digest b byte) in
    rw (kept, fields, e)
      (xor_same_top 53 (digest / 2 ^ 45) (digest % 2 ^ 45 * 2 ^ 8 + b) r (omega (arith, byte)) lt)

module _ (winsize : ℕ) (out_table mod_table : List ℕ) (tables : IsTables out_table mod_table) where
  rabin_append-IsHash :
      (h : RabinT) (b : ℕ)
      → IsHash winsize h
      → b < 2 ^ 8
      → (h' : RabinT) × (rabin_append mod_table h b ≡ some h') × IsHash winsize h'
  unfolding rabin_append
  rabin_append-IsHash h b ok byte =
      let index : u8 (h.digest >>> 45) ≡ h.digest / 2 ^ 45 = omega (arith, ok.below) in
      let (m, got, (r, e, lt)) = tables.mods (h.digest / 2 ^ 45) (omega (arith, ok.below)) in
      (
        record h { digest = bit_xor (bit_or (u64 (h.digest <<< 8)) b) m },
        rw (ap (λ (i : ℕ). get_elem? mod_table i) index ∙ got, ◌>>=◌) refl,
        record {
          sized = ok.sized;
          inside = ok.inside;
          bytes = ok.bytes;
          below = reduced h.digest b m r ok.below byte e lt;
        },
      )

  rabin_slide-IsHash :
      (h : RabinT) (b : ℕ)
      → IsHash winsize h
      → b < 2 ^ 8
      → (h' : RabinT) × (rabin_slide winsize out_table mod_table h b ≡ some h') × IsHash winsize h'
  unfolding rabin_slide
  rabin_slide-IsHash h b ok byte =
      let (out, got, small) =
        byte_at h.window h.wpos ok.bytes (omega (arith, ok.sized, ok.inside)) in
      let (o, got', lt) = tables.outs out small in
      let slid : RabinT = record {
        window = set h.window h.wpos b;
        wpos = u32 (h.wpos + 1) % winsize;
        digest = bit_xor h.digest o;
      } in
      let (h', e, ok') =
        rabin_append-IsHash slid b
          (record {
            sized = length-set h.window h.wpos b ∙ ok.sized;
            inside = mod-lt (u32 (h.wpos + 1)) winsize (omega (arith, ok.inside));
            bytes = set-AllBytes h.window h.wpos b ok.bytes byte;
            below = xor_below 53 h.digest o ok.below lt;
          })
          byte in
      (h', rw (got, ◌>>=◌, got', ◌>>=◌) e, ok')

  rabin_slide_bytes-IsHash :
      (bs : List ℕ) (h : RabinT)
      → IsHash winsize h
      → AllBytes bs
      → (h' : RabinT) × (rabin_slide_bytes winsize out_table mod_table h bs ≡ some h')
        × IsHash winsize h'
  unfolding rabin_slide_bytes
  rabin_slide_bytes-IsHash [] h ok all = (h, refl, ok)
  rabin_slide_bytes-IsHash (b ∷ bs) h ok (p, all) =
      let (h1, e, ok1) = rabin_slide-IsHash h b ok p in
      let (h2, e', ok2) = rabin_slide_bytes-IsHash bs h1 ok1 all in (h2, rw (e, ◌>>=◌) e', ok2)

  rabin_reset-IsHash :
      0 < winsize
      → (h : RabinT) × (rabin_reset winsize out_table mod_table ≡ some h) × IsHash winsize h
  unfolding rabin_reset
  rabin_reset-IsHash pos =
      rabin_slide-IsHash (record { window = replicate winsize 0; wpos = 0; digest = 0 }) 1
        (record {
          sized = length-replicate winsize 0;
          inside = pos;
          bytes = replicate-AllBytes winsize 0 (omega arith);
          below = omega arith;
        })
        (omega arith)

-- For a window of at least one byte: the tables are found, the hash is set up, and any bytes slide
-- through it, without an access outside the window or a table; the hash stays below 2^53 and the
-- position in the window.
pub rabin_slide_bytes-calc_tables :
    (winsize : ℕ) (bs : List ℕ)
    → 0 < winsize
    → AllBytes bs
    → (h : RabinT) × ((do
      (out_table, mod_table) ← calc_tables winsize
      start ← rabin_reset winsize out_table mod_table
      rabin_slide_bytes winsize out_table mod_table start bs)
        ≡ some h)
      × IsHash winsize h
rabin_slide_bytes-calc_tables winsize bs pos all =
    let (outs, mods, e, tables) = calc_tables-IsTables winsize in
    let (h, e', ok) = rabin_reset-IsHash winsize outs mods tables pos in
    let (h', e'', ok') = rabin_slide_bytes-IsHash winsize outs mods tables bs h ok all in
    (h', rw (e, ◌>>=◌, e', ◌>>=◌) e'', ok')
