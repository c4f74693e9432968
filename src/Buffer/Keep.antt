-- ===== src/Buffer/Keep.antt =====
-- buffer.c: the nodes that are in use stay, where a function comes to its end.
use im_dedup_plus.Prelude.{
  ℕ, zero, suc, ◌-◌, ◌^◌, ◌≤◌, ◌<◌, ◌≡◌, refl, sym, subst, ap, ◌∙◌, arith, Bool, true, false, ◌==◌,
  ltb, Bool-cases, inl, inr,
}
use im_dedup_plus.Prelude.{length, List, [], ◌∷◌, ◌++◌}
use im_dedup_plus.Queue.Chain.{count, count-append, count-here}
use im_dedup_plus.Buffer.{Buffer, insert_to_buffer, move_in_buffer}
use im_dedup_plus.Buffer.Outcome.{Run, done, null_pointer, out_of_fuel, ◌>>=◌}
use im_dedup_plus.Buffer.Spec.{Held, evict, turn, insert_held, use_again}
use im_dedup_plus.Buffer.Chain.{remove, count-skip}
use im_dedup_plus.Buffer.Removal.{count-remove}
use im_dedup_plus.Buffer.Room.{IsBuffer}
use im_dedup_plus.Buffer.Evict.{Agrees}
use im_dedup_plus.Buffer.Insert.{Holds, insert_to_buffer-insert_held}
use im_dedup_plus.Buffer.Refill.{move_in_buffer-use_again}
use im_dedup_plus.Buffer.Ends.{Kept}

module _ (node_size : ℕ → ℕ) (links : ℕ → ℕ → ℕ) where
  turn-Kept :
      (round n : ℕ) (ns : List ℕ) (room : ℕ)
      → Kept links (n ∷ ns) (turn node_size (links round) n ns room).items
  turn-Kept round n ns room a u h = elim (Bool-cases (links round n == 0)) [
    | inl e ↦
        let none_left : links round n ≡ 0 = ground arith in
        rw (e) (
          omega (arith, h, count-skip a n ns (λ p. u round (ap (links round) (sym p) ∙ none_left))))
    | inr e ↦ rw (e) (omega (arith, h, count-append a ns (n ∷ []), count-append a (n ∷ []) ns))
  ]

  Kept-then :
      (items items' : List ℕ) (r : Run Held)
      → Kept links items items'
      → Holds (λ h. Kept links items' h.items) r
      → Holds (λ h. Kept links items h.items) r
  Kept-then items items' (done h) k l = λ a u c. l a u (k a u c)
  Kept-then items items' null_pointer k l = tt
  Kept-then items items' out_of_fuel k l = tt

  evict-Kept :
      (fuel extra : ℕ) (items : List ℕ) (room : ℕ)
      → Holds (λ h. Kept links items h.items) (evict node_size links fuel extra items room)
  unfolding evict
  evict-Kept zero extra items room = tt
  evict-Kept (suc fuel) extra [] room = elim (Bool-cases (ltb room extra)) [
    | inl e ↦ rw (e) tt
    | inr e ↦ rw (e) (λ a u c. c)
  ]
  evict-Kept (suc fuel) extra (n ∷ []) room = elim (Bool-cases (ltb room extra)) [
    | inl e ↦ rw (e) tt
    | inr e ↦ rw (e) (λ a u c. c)
  ]
  evict-Kept (suc fuel) extra (n ∷ m ∷ ns) room = elim (Bool-cases (ltb room extra)) [
    | inl e ↦
        let turned = turn node_size (links fuel) n (m ∷ ns) room in
        rw (e) (
          Kept-then (n ∷ m ∷ ns) turned.items
            (evict node_size links fuel extra turned.items turned.room)
            (turn-Kept fuel n (m ∷ ns) room) (evict-Kept fuel extra turned.items turned.room))
    | inr e ↦ rw (e) (λ a u c. c)
  ]

  -- The nodes that are there in the end: the item, and those that are in use.
  abbrev pub Keeps : ℕ → List ℕ → List ℕ → Type 0
  Keeps item items items' = (1 ≤ count item items') × Kept links items items'

  insert_held-Keeps :
      (fuel item : ℕ) (items : List ℕ) (room : ℕ)
      → Holds (λ h. Keeps item items h.items) (insert_held node_size links fuel item items room)
  unfolding insert_held
  insert_held-Keeps fuel item items room =
      behind (evict node_size links fuel (node_size item) items room)
        (evict-Kept fuel (node_size item) items room)
    where
      behind :
          (r : Run Held)
          → Holds (λ h. Kept links items h.items) r
          → Holds
              (λ h. Keeps item items h.items)
              (r >>= λ h.
                done (record { items = h.items ++ item ∷ []; room = h.room - node_size item }))
      behind (done h) k = (
        omega (arith, count-append item h.items (item ∷ []), count-here item []),
        λ a u c. omega (arith, k a u c, count-append a h.items (item ∷ [])),
      )
      behind null_pointer k = tt
      behind out_of_fuel k = tt

  use_again-Keeps :
      (filled : Bool) (fuel item : ℕ) (items : List ℕ) (room : ℕ)
      → (filled ≡ true → 1 ≤ count item items)
      → Holds
          (λ h. Keeps item items h.items)
          (use_again node_size links filled fuel item items room)
  unfolding use_again
  use_again-Keeps true fuel item items room h = (
    omega (arith, count-append item (remove item items) (item ∷ []), count-here item []),
    λ a u c. omega (
      arith,
      c,
      count-append a (remove item items) (item ∷ []),
      count-remove a item items (h refl),
    ),
  )
  use_again-Keeps false fuel item items room h = insert_held-Keeps fuel item items room

module _ (node_size : ℕ → ℕ) (capacity : ℕ) (others : ℕ → Bool) (known : List ℕ) where
  Agrees-Holds :
      (P : Held → Type 0) (b : Buffer) (r : Run Held)
      → Agrees node_size capacity others known (done b) r
      → Holds P r
      → (h : Held) × IsBuffer node_size capacity others known h.items b × P h
  Agrees-Holds P b (done h) a p = (h, a.0, p)
  Agrees-Holds P b null_pointer a p = absurd a
  Agrees-Holds P b out_of_fuel a p = absurd a

module _ (node_size : ℕ → ℕ) (capacity : ℕ) (others : ℕ → Bool) (known : List ℕ)
    (large : (n : ℕ) → 0 < node_size n) (bounded : capacity < 2 ^ 64) (links : ℕ → ℕ → ℕ)
    (fuel item : ℕ) (items : List ℕ) (buf b : Buffer)
    (q : IsBuffer node_size capacity others known items buf) where
  pub insert_to_buffer-Keeps :
      count item known ≡ 0
      → others item ≡ true
      → insert_to_buffer node_size links fuel item buf ≡ done b
      → (h : Held) × IsBuffer node_size capacity others (item ∷ known) h.items b
        × Keeps node_size links item items h.items
  insert_to_buffer-Keeps fresh there run =
      let held = insert_held node_size links fuel item items buf.size in
      Agrees-Holds node_size capacity others (item ∷ known)
        (λ h. Keeps node_size links item items h.items) b held
        (subst (λ (r : Run Buffer). Agrees node_size capacity others (item ∷ known) r held) run
          (insert_to_buffer-insert_held node_size capacity others known large bounded item fresh
            there links fuel items buf q))
        (insert_held-Keeps node_size links fuel item items buf.size)

  pub move_in_buffer-Keeps :
      1 ≤ count item known
      → 1 ≤ length items
      → move_in_buffer node_size links fuel item buf ≡ done b
      → (h : Held) × IsBuffer node_size capacity others known h.items b
        × Keeps node_size links item items h.items
  move_in_buffer-Keeps there some_node run =
      let held = use_again node_size links (buf.filled item) fuel item items buf.size in
      Agrees-Holds node_size capacity others known (λ h. Keeps node_size links item items h.items) b
        held
        (subst (λ (r : Run Buffer). Agrees node_size capacity others known r held) run
          (move_in_buffer-use_again node_size capacity others known large bounded links fuel item
            items buf q there some_node))
        (use_again-Keeps node_size links (buf.filled item) fuel item items buf.size
          (q.content.held item there))
