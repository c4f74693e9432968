-- ===== src/Buffer/Success.antt =====
-- buffer.c: what `insert_to_buffer` comes to, with the nodes that are in use or free to go.
use im_dedup_plus.Prelude.{
  ℕ, suc, ◌+◌, ◌-◌, ◌^◌, ◌≤◌, ◌<◌, ◌≡◌, refl, sym, subst, ap, ◌∙◌, arith, Bool, true,
}
use im_dedup_plus.Prelude.{length, List, [], ◌∷◌, ◌++◌, append-nil}
use im_dedup_plus.Queue.Chain.{count, count-append, count-here}
use im_dedup_plus.Queue.Linked.{total}
use im_dedup_plus.Buffer.{Buffer, insert_to_buffer, make_room}
use im_dedup_plus.Buffer.Outcome.{Run, done, null_pointer, out_of_fuel, ◌>>=◌}
use im_dedup_plus.Buffer.Spec.{Held, evict, insert_held}
use im_dedup_plus.Buffer.Room.{IsBuffer}
use im_dedup_plus.Buffer.Evict.{Agrees, make_room-evict}
use im_dedup_plus.Buffer.Insert.{insert_to_buffer-insert_held}
use im_dedup_plus.Buffer.Ends.{free_total, InUse, Kept, evict_ends, evict_faults}

module _ (node_size : ℕ → ℕ) (capacity : ℕ) (others : ℕ → Bool) (known : List ℕ) where
  pub Agrees-done :
      (r : Run Buffer) (e : Run Held) (h : Held)
      → e ≡ done h
      → Agrees node_size capacity others known r e
      → (b : Buffer) × (r ≡ done b)
        × IsBuffer node_size capacity others known h.items b
        × (b.size ≡ h.room)
  Agrees-done r e h p a = inverse r (subst (Agrees node_size capacity others known r) p a)
    where
      inverse :
          (r : Run Buffer)
          → Agrees node_size capacity others known r (done h)
          → (b : Buffer) × (r ≡ done b)
            × IsBuffer node_size capacity others known h.items b
            × (b.size ≡ h.room)
      inverse (done b) (q, same) = (b, refl, q, same)
      inverse null_pointer a = absurd a
      inverse out_of_fuel a = absurd a

  pub Agrees-null_pointer :
      (r : Run Buffer) (e : Run Held)
      → e ≡ null_pointer
      → Agrees node_size capacity others known r e
      → r ≡ null_pointer
  Agrees-null_pointer r e p a = inverse r (subst (Agrees node_size capacity others known r) p a)
    where
      inverse :
          (r : Run Buffer)
          → Agrees node_size capacity others known r null_pointer
          → r ≡ null_pointer
      inverse (done b) a = absurd a
      inverse null_pointer a = refl
      inverse out_of_fuel a = absurd a

-- For positive sizes and a capacity below 2^64: where one node of the buffer is in use at every round,
-- and the bytes of the nodes that are free to go at every round make room with those that are left,
-- `insert_to_buffer` ends within as many rounds as there are nodes and one. The buffer then holds the
-- new node and all that were in use, and its list and sizes are right.
pub insert_to_buffer_ends :
    (node_size : ℕ → ℕ) (capacity : ℕ) (others : ℕ → Bool) (known items : List ℕ)
    (links : ℕ → ℕ → ℕ) (free : ℕ → Bool) (item keeper : ℕ) (buf : Buffer)
    → ((n : ℕ) → 0 < node_size n)
    → capacity < 2 ^ 64
    → ((n : ℕ) → free n ≡ true → (round : ℕ) → links round n ≡ 0)
    → InUse links keeper
    → 1 ≤ count keeper items
    → node_size item ≤ buf.size + free_total node_size free items
    → count item known ≡ 0
    → others item ≡ true
    → IsBuffer node_size capacity others known items buf
    → (b : Buffer) × (items' : List ℕ) × (insert_to_buffer node_size links
          (suc (length items))
          item
          buf
        ≡ done b)
      × IsBuffer node_size capacity others (item ∷ known) items' b
      × (1 ≤ count item items')
      × Kept links items items'
unfolding insert_held
insert_to_buffer_ends node_size capacity others known items links free item keeper buf large bounded
      unused used there fits fresh content q =
    let whole : items ++ [] ≡ items = append-nil items in
    let (h, run, kept) =
      evict_ends node_size links (node_size item) free unused keeper used (length items) items []
        buf.size (omega arith) (omega (arith, there, ap (count keeper) whole)) fits in
    let run' : evict node_size links (suc (length items)) (node_size item) items buf.size ≡ done h =
      ap (λ (l : List ℕ). evict node_size links (suc (length items)) (node_size item) l buf.size)
        (sym whole)
      ∙ run in
    let (b, ran, q', size) =
      Agrees-done node_size capacity others (item ∷ known)
        (insert_to_buffer node_size links (suc (length items)) item buf)
        (insert_held node_size links (suc (length items)) item items buf.size)
        (record { items = h.items ++ item ∷ []; room = h.room - node_size item })
        (ap
          (λ (r : Run Held). r >>= λ x.
            done (record { items = x.items ++ item ∷ []; room = x.room - node_size item }))
          run')
        (insert_to_buffer-insert_held node_size capacity others known large bounded item fresh
          content links (suc (length items)) items buf q) in
    (
      b,
      h.items ++ item ∷ [],
      ran,
      q',
      omega (arith, count-append item h.items (item ∷ []), count-here item []),
      λ a u k. omega (
        arith,
        kept a u (omega (arith, k, ap (count a) whole)),
        count-append a h.items (item ∷ []),
      ),
    )

-- For positive sizes and a capacity below 2^64: where no node of the buffer but perhaps the last is in use at
-- any round, and the room is not enough with all but the last gone, `insert_to_buffer` goes through `NULL`.
pub insert_to_buffer_faults :
    (node_size : ℕ → ℕ) (capacity : ℕ) (others : ℕ → Bool) (known items : List ℕ) (last : ℕ)
    (links : ℕ → ℕ → ℕ) (fuel item : ℕ) (buf : Buffer)
    → ((n : ℕ) → 0 < node_size n)
    → capacity < 2 ^ 64
    → ((n : ℕ) → 1 ≤ count n items → (round : ℕ) → links round n ≡ 0)
    → buf.size + total node_size items < node_size item
    → length items ≤ fuel
    → IsBuffer node_size capacity others known (items ++ last ∷ []) buf
    → insert_to_buffer node_size links (suc fuel) item buf ≡ null_pointer
unfolding insert_to_buffer
insert_to_buffer_faults node_size capacity others known items last links fuel item buf large bounded
      unused short enough q =
    let e =
      Agrees-null_pointer node_size capacity others known
        (make_room node_size links (suc fuel) (node_size item) buf)
        (evict node_size links (suc fuel) (node_size item) (items ++ last ∷ []) buf.size)
        (evict_faults node_size links (node_size item) fuel items last buf.size enough unused short)
        (make_room-evict node_size capacity others known large bounded links (suc fuel)
          (node_size item) (items ++ last ∷ []) buf q) in
    rw (insert_to_buffer, e, ◌>>=◌) refl
