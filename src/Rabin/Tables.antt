-- ===== src/Rabin/Tables.antt =====
-- rabin/rabin.c: the entries of the two tables.
use im_dedup_plus.Prelude.{
  ℕ, zero, suc, ◌+◌, ◌-◌, ◌*◌, ◌^◌, ◌≤◌, ◌<◌, ◌≡◌, refl, ap, subst, ◌∙◌, arith, u64, ◌<<<◌, bit_or,
  or_fields, or_comm,
}
use im_dedup_plus.Prelude.{Option, some, ◌>>=◌, get_elem?, List, [], ◌∷◌}
use im_dedup_plus.Rabin.{
  polynomial, deg, deg_from, poly_mod, append_byte, append_zeros, out_entry, mod_entry, entries,
  calc_tables,
}
use im_dedup_plus.Rabin.Remainder.{poly_mod_ends}

pub polynomial-deg : deg polynomial ≡ some 53
unfolding deg deg_from
polynomial-deg = refl

polynomial-lt : (x : ℕ) → x < 2 ^ 64 → (r : ℕ) × (poly_mod x polynomial ≡ some r) × (r < 2 ^ 53)
polynomial-lt x h =
    poly_mod_ends polynomial 53 x (omega arith, omega arith) (omega arith) polynomial-deg h

append_byte-lt :
    (hash c : ℕ)
    → hash < 2 ^ 53
    → c < 2 ^ 8
    → (r : ℕ) × (append_byte hash c polynomial ≡ some r) × (r < 2 ^ 53)
unfolding append_byte
append_byte-lt hash c h k =
    let kept : u64 (hash <<< 8) ≡ hash * 2 ^ 8 = omega (arith, h) in
    polynomial-lt (bit_or (u64 (hash <<< 8)) c)
      (rw kept (omega (arith, or_fields 8 hash c k, h, k)))

append_zeros-lt :
    (n hash : ℕ) → hash < 2 ^ 53 → (r : ℕ) × (append_zeros n hash ≡ some r) × (r < 2 ^ 53)
unfolding append_zeros
append_zeros-lt zero hash h = (hash, refl, h)
append_zeros-lt (suc n) hash h =
    let (r, e, lt) = append_byte-lt hash 0 h (omega arith) in
    let (r', e', lt') = append_zeros-lt n r lt in (r', rw (e, ◌>>=◌) e', lt')

out_entry-lt : (winsize c : ℕ) → c < 2 ^ 8 → (r : ℕ) × (out_entry winsize c ≡ some r) × (r < 2 ^ 53)
unfolding out_entry
out_entry-lt winsize c h =
    let (r, e, lt) = append_byte-lt 0 c (omega arith) h in
    let (r', e', lt') = append_zeros-lt (winsize - 1) r lt in (r', rw (e, ◌>>=◌) e', lt')

-- The upper bits of an entry are its index.
mod_entry-fields :
    (c : ℕ) → c < 2 ^ 8 → (r : ℕ) × (mod_entry c ≡ some (c * 2 ^ 53 + r)) × (r < 2 ^ 53)
unfolding mod_entry
mod_entry-fields c h =
    let kept : u64 (c <<< 53) ≡ c * 2 ^ 53 = omega (arith, h) in
    let (r, e, lt) = polynomial-lt (u64 (c <<< 53)) (omega arith) in
    (
      r,
      rw (e, ◌>>=◌)
          (ap (λ (n : ℕ). some n)
            (ap (λ (n : ℕ). bit_or r n) kept ∙ or_comm r (c * 2 ^ 53) ∙ or_fields 53 c r lt)),
      lt,
    )

-- Each cell of a table is the entry of its index.
entries-cell :
    {P : ℕ → ℕ → Type 0} (entry : ℕ → Option ℕ)
    → ((c : ℕ) → c < 2 ^ 8 → (e : ℕ) × (entry c ≡ some e) × P c e)
    → (n b : ℕ) → b + n ≤ 2 ^ 8
    → (l : List ℕ) × (entries entry n b ≡ some l)
      × ((i : ℕ) → i < n → (e : ℕ) × (get_elem? l i ≡ some e) × P (b + i) e)
unfolding entries
entries-cell entry each zero b h = ([], refl, λ i lt. absurd (omega (arith, lt)))
entries-cell {P} entry each (suc n) b h =
    let (e, p, q) = each b (omega (arith, h)) in
    let (l, p', cells) = entries-cell entry each n (b + 1) (omega (arith, h)) in
    (e ∷ l, rw (p, ◌>>=◌, p', ◌>>=◌) refl, cell e l q cells)
  where
    cell :
        (e : ℕ) (l : List ℕ)
        → P b e
        → ((i : ℕ) → i < n → (e' : ℕ) × (get_elem? l i ≡ some e') × P (b + 1 + i) e')
        → (i : ℕ) → i < suc n
        → (e' : ℕ) × (get_elem? (e ∷ l) i ≡ some e') × P (b + i) e'
    cell e l q cells zero lt = (e, refl, subst (λ (k : ℕ). P k e) (omega arith) q)
    cell e l q cells (suc i) lt =
        let (e', got, r) = cells i (omega (arith, lt)) in
        (e', got, subst (λ (k : ℕ). P k e') (omega arith) r)

-- 256 entries each, below the degree, but for the index in the upper bits of `mod_table`.
pub record IsTables (out_table mod_table : List ℕ) : Type 0 where
  pub outs : (c : ℕ) → c < 2 ^ 8 → (o : ℕ) × (get_elem? out_table c ≡ some o) × (o < 2 ^ 53)
  pub mods :
      (c : ℕ)
      → c < 2 ^ 8
      → (m : ℕ) × (get_elem? mod_table c ≡ some m) × ((r : ℕ) × (m ≡ c * 2 ^ 53 + r) × (r < 2 ^ 53))

-- The tables are found for every window, with entries of that form.
pub calc_tables-IsTables :
    (winsize : ℕ)
    → (out_table : List ℕ) × (mod_table : List ℕ) × (calc_tables winsize
        ≡ some (out_table, mod_table))
      × IsTables out_table mod_table
unfolding calc_tables
calc_tables-IsTables winsize =
    let (outs, e, cells) =
      entries-cell {P = λ c o. o < 2 ^ 53} (out_entry winsize) (out_entry-lt winsize) 256 0
        (omega arith) in
    let (mods, e', cells') =
      entries-cell {P = λ c m. (r : ℕ) × (m ≡ c * 2 ^ 53 + r) × (r < 2 ^ 53)} mod_entry mod_fields
        256 0 (omega arith) in
    (
      outs,
      mods,
      rw (e, ◌>>=◌, e', ◌>>=◌) refl,
      record { outs = cells; mods = λ c h. moved mods c (cells' c h) },
    )
  where
    -- The index from 0 on.
    moved :
        (l : List ℕ) (c : ℕ)
        → ((m : ℕ) × (get_elem? l c ≡ some m)
            × ((r : ℕ) × (m ≡ (0 + c) * 2 ^ 53 + r) × (r < 2 ^ 53)))
        → (m : ℕ) × (get_elem? l c ≡ some m) × ((r : ℕ) × (m ≡ c * 2 ^ 53 + r) × (r < 2 ^ 53))
    moved l c (m, got, (r, e, lt)) = (m, got, (r, omega (arith, e), lt))

    mod_fields :
        (c : ℕ)
        → c < 2 ^ 8
        → (m : ℕ) × (mod_entry c ≡ some m) × ((r : ℕ) × (m ≡ c * 2 ^ 53 + r) × (r < 2 ^ 53))
    mod_fields c h = let (r, e, lt) = mod_entry-fields c h in (c * 2 ^ 53 + r, e, (r, refl, lt))
