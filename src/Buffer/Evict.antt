-- ===== src/Buffer/Evict.antt =====
-- buffer.c: the loop over `delete_from_top_action` beside `evict`.
use im_dedup_plus.Prelude.{
  ℕ, zero, suc, ◌+◌, ◌^◌, ◌≤◌, ◌<◌, ◌≡◌, refl, subst, arith, sub64, Bool, true, false, ◌==◌, ltb,
  le→ltb, Bool-cases, inl, inr,
}
use im_dedup_plus.Prelude.{List, [], ◌∷◌, ◌++◌}
use im_dedup_plus.Buffer.{
  Buffer, free_buf_node, append_item, move_action, delete_from_top, make_room,
}
use im_dedup_plus.Buffer.Outcome.{Run, done, null_pointer, out_of_fuel, ◌>>=◌, deref}
use im_dedup_plus.Buffer.Spec.{Held, evict}
use im_dedup_plus.Buffer.Room.{IsBuffer, popped, dropped-IsBuffer, turned-IsBuffer}

-- Both come to nodes that the buffer holds, or to the same failure.
abbrev pub Agrees : (ℕ → ℕ) → ℕ → (ℕ → Bool) → List ℕ → Run Buffer → Run Held → Type 0
Agrees node_size capacity others known (done b) (done h) =
    IsBuffer node_size capacity others known h.items b × (b.size ≡ h.room)
Agrees node_size capacity others known (done b) null_pointer = ⊥
Agrees node_size capacity others known (done b) out_of_fuel = ⊥
Agrees node_size capacity others known null_pointer (done h) = ⊥
Agrees node_size capacity others known null_pointer null_pointer = Unit
Agrees node_size capacity others known null_pointer out_of_fuel = ⊥
Agrees node_size capacity others known out_of_fuel (done h) = ⊥
Agrees node_size capacity others known out_of_fuel null_pointer = ⊥
Agrees node_size capacity others known out_of_fuel out_of_fuel = Unit

module _ (node_size : ℕ → ℕ) (capacity : ℕ) (others : ℕ → Bool) (known : List ℕ)
    (large : (n : ℕ) → 0 < node_size n) (bounded : capacity < 2 ^ 64) where
  -- A loop that has nothing to do.
  make_room-enough :
      (links : ℕ → ℕ → ℕ) (fuel extra : ℕ) (buf : Buffer)
      → extra ≤ buf.size
      → make_room node_size links (suc fuel) extra buf ≡ done buf
  unfolding make_room
  make_room-enough links fuel extra buf h = rw (make_room, le→ltb buf.size extra h) refl

  -- One round of the loop at a buffer of at least two nodes, where `inner` is the loop inside it.
  module _ (link : ℕ → ℕ) (inner : ℕ → Buffer → Run Buffer) (n m : ℕ) (ns : List ℕ) (buf : Buffer)
      (q : IsBuffer node_size capacity others known (n ∷ m ∷ ns) buf) where
    delete-unused :
        (link n == 0) ≡ true
        → delete_from_top node_size link inner buf
          ≡ done (free_buf_node n (popped node_size capacity bounded n m buf))
    unfolding delete_from_top
    delete-unused e =
        rw (q.linked.chained.0, ◌>>=◌, deref, q.linked.chained.1.0, ◌>>=◌, deref, e) refl

    delete-used :
        (link n == 0) ≡ false
        → delete_from_top node_size link inner buf ≡ (
            inner (node_size n) (popped node_size capacity bounded n m buf) >>= λ b.
            append_item n (record b { size = sub64 b.size (node_size n) }))
    unfolding delete_from_top move_action
    delete-used e =
        let some_bytes : (node_size n == 0) ≡ false = ground (arith, large n) in
        rw
          (
            q.linked.chained.0, ◌>>=◌, deref, q.linked.chained.1.0, ◌>>=◌, deref, e, move_action,
            some_bytes,
          )
          refl

  -- What a round of the loop makes of a buffer, and of its nodes.
  Rounds : (ℕ → ℕ → ℕ) → ℕ → ℕ → List ℕ → Buffer → ℕ → Type 0
  Rounds links fuel extra items buf room =
      Agrees node_size capacity others known (make_room node_size links fuel extra buf)
        (evict node_size links fuel extra items room)

  module _ (links : ℕ → ℕ → ℕ) (extra n m : ℕ) (ns : List ℕ) (buf : Buffer)
      (q : IsBuffer node_size capacity others known (n ∷ m ∷ ns) buf) where
    turn-unused :
        (fuel : ℕ)
        → ((items : List ℕ) (b : Buffer)
            → IsBuffer node_size capacity others known items b
            → Rounds links fuel extra items b b.size)
        → (links fuel n == 0) ≡ true
        → Agrees node_size capacity others known
            (delete_from_top node_size (links fuel) (λ e b. make_room node_size links fuel e b) buf
              >>= λ b. make_room node_size links fuel extra b)
            (evict node_size links fuel extra (m ∷ ns) (buf.size + node_size n))
    unfolding Rounds free_buf_node
    turn-unused fuel ih unused =
        let after = free_buf_node n (popped node_size capacity bounded n m buf) in
        rw
          (
            delete-unused (links fuel) (λ e b. make_room node_size links fuel e b) n m ns buf q
                unused,
            ◌>>=◌,
          )
          (subst
            (λ (room : ℕ).
              Agrees node_size capacity others known (make_room node_size links fuel extra after)
                (evict node_size links fuel extra (m ∷ ns) room))
            (omega (arith, q.linked.room, bounded))
            (ih (m ∷ ns) after
              (dropped-IsBuffer node_size capacity bounded others known n m ns buf q)))

    turn-used :
        (fuel : ℕ)
        → ((items : List ℕ) (b : Buffer)
            → IsBuffer node_size capacity others known items b
            → Rounds links fuel extra items b b.size)
        → (links fuel n == 0) ≡ false
        → Agrees node_size capacity others known
            (delete_from_top node_size (links fuel) (λ e b. make_room node_size links fuel e b) buf
              >>= λ b. make_room node_size links fuel extra b)
            (evict node_size links fuel extra ((m ∷ ns) ++ (n ∷ [])) buf.size)
    unfolding Rounds make_room evict
    turn-used zero ih used =
        rw
          (
            delete-used (links 0) (λ e b. make_room node_size links 0 e b) n m ns buf q used,
            make_room,
            ◌>>=◌,
          )
          tt
    turn-used (suc fuel) ih used =
        let top = popped node_size capacity bounded n m buf in
        let inner =
          make_room-enough links fuel (node_size n) top (omega (arith, q.linked.room, bounded)) in
        let (b, moved, q', same) =
          turned-IsBuffer node_size capacity bounded others known n m ns buf q in
        rw
          (
            delete-used (links (suc fuel)) (λ e b. make_room node_size links (suc fuel) e b) n m ns
                buf q used,
            inner,
            ◌>>=◌,
            moved,
            ◌>>=◌,
          )
          (subst
            (λ (room : ℕ).
              Agrees node_size capacity others known (make_room node_size links (suc fuel) extra b)
                (evict node_size links (suc fuel) extra ((m ∷ ns) ++ (n ∷ [])) room))
            same (ih ((m ∷ ns) ++ (n ∷ [])) b q'))

  -- Whatever the other threads do with the links, the loop comes to what `evict` does.
  pub make_room-evict :
      (links : ℕ → ℕ → ℕ) (fuel extra : ℕ) (items : List ℕ) (buf : Buffer)
      → IsBuffer node_size capacity others known items buf
      → Agrees node_size capacity others known
          (make_room node_size links fuel extra buf)
          (evict node_size links fuel extra items buf.size)
  unfolding make_room evict delete_from_top Rounds
  make_room-evict links zero extra items buf q = tt
  make_room-evict links (suc fuel) extra [] buf q = elim (Bool-cases (ltb buf.size extra)) [
    | inl e ↦ rw (make_room, e, q.linked.chained, ◌>>=◌, deref) tt
    | inr e ↦ rw (make_room, e) (q, refl)
  ]
  make_room-evict links (suc fuel) extra (n ∷ []) buf q = elim (Bool-cases (ltb buf.size extra)) [
    | inl e ↦ rw (make_room, e, q.linked.chained.0, ◌>>=◌, deref, q.linked.chained.1) tt
    | inr e ↦ rw (make_room, e) (q, refl)
  ]
  make_room-evict links (suc fuel) extra (n ∷ m ∷ ns) buf q =
      elim (Bool-cases (ltb buf.size extra)) [
        | inl e ↦ elim (Bool-cases (links fuel n == 0)) [
          | inl unused ↦
              rw (make_room, e, unused)
                (turn-unused links extra n m ns buf q fuel
                  (λ is b k. make_room-evict links fuel extra is b k) unused)
          | inr used ↦
              rw (make_room, e, used)
                (turn-used links extra n m ns buf q fuel
                  (λ is b k. make_room-evict links fuel extra is b k) used)
        ]
        | inr e ↦ rw (make_room, e) (q, refl)
      ]
