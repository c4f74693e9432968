-- ===== src/Buffer/Ends.antt =====
-- buffer.c: when the loop over `delete_from_top_action` ends, and how.
use im_dedup_plus.Prelude.{
  ℕ, zero, suc, ◌+◌, ◌≤◌, ◌<◌, ◌≡◌, ◌≢◌, refl, sym, ap, ◌∙◌, arith, Bool, true, false, ◌==◌, ltb,
  ltb→lt, le→ltb, lt→ltb, if◌then◌else◌, Bool-cases, inl, inr,
}
use im_dedup_plus.Prelude.{length, length-append, List, [], ◌∷◌, ◌++◌, append_assoc}
use im_dedup_plus.Queue.Chain.{count, count-append, count-here, count-tail}
use im_dedup_plus.Queue.Linked.{total}
use im_dedup_plus.Buffer.Outcome.{done, null_pointer}
use im_dedup_plus.Buffer.Chain.{count-skip}
use im_dedup_plus.Buffer.Insert.{ltb-le}
use im_dedup_plus.Buffer.Spec.{Held, evict}

-- The bytes of the nodes that are free to go.
abbrev pub free_total : (ℕ → ℕ) → (ℕ → Bool) → List ℕ → ℕ
free_total node_size free [] = 0
free_total node_size free (n ∷ ns) =
    (if free n then node_size n else 0) + free_total node_size free ns

-- A node that is in use at every round.
abbrev pub InUse : (ℕ → ℕ → ℕ) → ℕ → Type 0
InUse links n = (round : ℕ) → links round n ≢ 0

-- With those that are in use still there.
abbrev pub Kept : (ℕ → ℕ → ℕ) → List ℕ → List ℕ → Type 0
Kept links items items' = (a : ℕ) → InUse links a → 1 ≤ count a items → 1 ≤ count a items'

module _ (node_size : ℕ → ℕ) (links : ℕ → ℕ → ℕ) (extra : ℕ) where
  evict-room :
      (fuel : ℕ) (items : List ℕ) (room : ℕ)
      → extra ≤ room
      → evict node_size links (suc fuel) extra items room
        ≡ done (record { items = items; room = room })
  unfolding evict
  evict-room fuel [] room h = rw (le→ltb room extra h) refl
  evict-room fuel (n ∷ []) room h = rw (le→ltb room extra h) refl
  evict-room fuel (n ∷ m ∷ ns) room h = rw (le→ltb room extra h) refl

  evict-unused :
      (fuel n : ℕ) (ns : List ℕ) (room : ℕ)
      → 1 ≤ length ns
      → ltb room extra ≡ true
      → (links fuel n == 0) ≡ true
      → evict node_size links (suc fuel) extra (n ∷ ns) room
        ≡ evict node_size links fuel extra ns (room + node_size n)
  unfolding evict
  evict-unused fuel n [] room more full e = absurd (omega (arith, more))
  evict-unused fuel n (m ∷ ns) room more full e = rw (full, e) refl

  evict-used :
      (fuel n : ℕ) (ns : List ℕ) (room : ℕ)
      → 1 ≤ length ns
      → ltb room extra ≡ true
      → (links fuel n == 0) ≡ false
      → evict node_size links (suc fuel) extra (n ∷ ns) room
        ≡ evict node_size links fuel extra (ns ++ n ∷ []) room
  unfolding evict
  evict-used fuel n [] room more full e = absurd (omega (arith, more))
  evict-used fuel n (m ∷ ns) room more full e = rw (full, e) refl

  -- The nodes that were not looked at yet, before those that went behind them.
  module _ (free : ℕ → Bool) (unused : (n : ℕ) → free n ≡ true → (round : ℕ) → links round n ≡ 0)
      (keeper : ℕ) (used : InUse links keeper) where
    in_use :
        (n a : ℕ) (ns : List ℕ)
        → InUse links a
        → (round : ℕ) → (links round n == 0) ≡ true
        → 1 ≤ count a (n ∷ ns)
        → 1 ≤ count a ns
    in_use n a ns u round e h =
        let zero_links : links round n ≡ 0 = ground arith in
        omega (arith, h, count-skip a n ns (λ p. u round (ap (links round) (sym p) ∙ zero_links)))

    not_free : (n round : ℕ) → (links round n == 0) ≡ false → free n ≡ false
    not_free n round e = elim (Bool-cases (free n)) [
      | inl f ↦ absurd (used_links (links round n) (unused n f round) e)
      | inr f ↦ f
    ]
      where
        used_links : (x : ℕ) → x ≡ 0 → (x == 0) ≡ false → ⊥
        used_links x p q = ground arith

    keeper_free : free keeper ≡ false
    keeper_free = elim (Bool-cases (free keeper)) [
      | inl f ↦ absurd (used 0 (unused keeper f 0))
      | inr f ↦ f
    ]

    -- The keeper is not alone where what is free to go makes room.
    not_alone :
        (n : ℕ) (todo looked : List ℕ) (room : ℕ)
        → 1 ≤ count keeper (n ∷ (todo ++ looked))
        → ltb room extra ≡ true
        → extra ≤ room + free_total node_size free (n ∷ todo)
        → 1 ≤ length (todo ++ looked)
    not_alone n (m ∷ todo) looked room there full fits = omega arith
    not_alone n [] (m ∷ looked) room there full fits = omega arith
    not_alone n [] [] room there full fits =
        let same : n ≡ keeper = ground arith in
        let kept : free n ≡ false = ap free same ∙ keeper_free in
        absurd (alone (ltb→lt room extra full) kept)
      where
        alone : room < extra → free n ≡ false → ⊥
        alone lt f = ground arith

    pub evict_ends :
        (fuel : ℕ) (todo looked : List ℕ) (room : ℕ)
        → length todo ≤ fuel
        → 1 ≤ count keeper (todo ++ looked)
        → extra ≤ room + free_total node_size free todo
        → (h : Held) × (evict node_size links (suc fuel) extra (todo ++ looked) room ≡ done h)
          × Kept links (todo ++ looked) h.items
    evict_ends fuel [] looked room enough there fits = (
      record { items = looked; room = room },
      evict-room fuel looked room (omega (arith, fits)),
      λ a u k. k,
    )
    evict_ends zero (n ∷ todo) looked room enough there fits = absurd (omega (arith, enough))
    evict_ends (suc fuel) (n ∷ todo) looked room enough there fits =
        elim (Bool-cases (ltb room extra)) [
          | inr roomy ↦ (
            record { items = n ∷ (todo ++ looked); room = room },
            evict-room (suc fuel) (n ∷ (todo ++ looked)) room (ltb-le room extra roomy),
            λ a u k. k,
          )
          | inl full ↦
              let more = not_alone n todo looked room there full fits in
              elim (Bool-cases (links (suc fuel) n == 0)) [
                | inl e ↦
                    let (h, run, kept) =
                      evict_ends fuel todo looked (room + node_size n) (omega (arith, enough))
                        (in_use n keeper (todo ++ looked) used (suc fuel) e there)
                        (omega (arith, fits, at_most (free n) (node_size n))) in
                    (
                      h,
                      evict-unused (suc fuel) n (todo ++ looked) room more full e ∙ run,
                      λ a u k. kept a u (in_use n a (todo ++ looked) u (suc fuel) e k),
                    )
                | inr e ↦
                    let f = not_free n (suc fuel) e in
                    let turned : (todo ++ looked) ++ (n ∷ []) ≡ todo ++ (looked ++ n ∷ []) =
                      append_assoc todo looked (n ∷ []) in
                    let counted : (a : ℕ)
                        → count a (todo ++ (looked ++ n ∷ [])) ≡ count a (n ∷ (todo ++ looked)) =
                      λ a. ap (count a) (sym turned) ∙ turn_count a n (todo ++ looked) in
                    let (h, run, kept) =
                      evict_ends fuel todo (looked ++ n ∷ []) room (omega (arith, enough))
                        (omega (arith, there, counted keeper))
                        (omega (arith, fits, nothing (node_size n) f)) in
                    (
                      h,
                      evict-used (suc fuel) n (todo ++ looked) room more full e
                          ∙ ap (λ (l : List ℕ). evict node_size links (suc fuel) extra l room)
                              turned
                          ∙ run,
                      λ a u k. kept a u (omega (arith, k, counted a)),
                    )
              ]
        ]
      where
        at_most : (b : Bool) (x : ℕ) → (if b then x else 0) ≤ x
        at_most b x = ground arith

        nothing : (x : ℕ) → free n ≡ false → (if free n then x else 0) ≡ 0
        nothing x f = ground arith

        turn_count : (a n : ℕ) (ns : List ℕ) → count a (ns ++ (n ∷ [])) ≡ count a (n ∷ ns)
        turn_count a n ns = omega (arith, count-append a ns (n ∷ []), count-append a (n ∷ []) ns)

  -- Where no node is in use, and the room that all but the last leave is not enough.
  pub evict_faults :
      (fuel : ℕ) (items : List ℕ) (last room : ℕ)
      → length items ≤ fuel
      → ((n : ℕ) → 1 ≤ count n items → (round : ℕ) → links round n ≡ 0)
      → room + total node_size items < extra
      → evict node_size links (suc fuel) extra (items ++ last ∷ []) room ≡ null_pointer
  unfolding evict
  evict_faults fuel [] last room enough unused short =
      rw (lt→ltb room extra (omega (arith, short))) refl
  evict_faults zero (n ∷ items) last room enough unused short = absurd (omega (arith, enough))
  evict_faults (suc fuel) (n ∷ items) last room enough unused short =
      let e : (links (suc fuel) n == 0) ≡ true =
        zero_test (links (suc fuel) n) (unused n (omega (arith, count-here n items)) (suc fuel)) in
      evict-unused (suc fuel) n (items ++ last ∷ []) room
        (omega (arith, length-append items (last ∷ []))) (lt→ltb room extra (omega (arith, short)))
        e
      ∙ evict_faults fuel items last (room + node_size n) (omega (arith, enough))
          (λ a k. unused a (omega (arith, k, count-tail a n items))) (omega (arith, short))
    where
      zero_test : (x : ℕ) → x ≡ 0 → (x == 0) ≡ true
      zero_test x p = ground arith
