-- ===== src/Buffer/Move.antt =====
-- buffer.c: `move_in_buffer` beside `use_again`.
use im_dedup_plus.Prelude.{
  ℕ, ◌+◌, ◌^◌, ◌≤◌, ◌<◌, ◌≡◌, ◌≢◌, refl, sym, ap, subst, ◌∙◌, arith, Bool, true, false, Bool-cases,
  inl, inr,
}
use im_dedup_plus.Prelude.{Option, none, some, length, List, [], ◌∷◌, ◌++◌}
use native.Mathlib.Decide.{ℕ_discrete}
use im_dedup_plus.Queue.{set_next}
use im_dedup_plus.Queue.Chain.{count, count-append, IsChain, IsLast, set_next-other}
use im_dedup_plus.Queue.Linked.{total}
use im_dedup_plus.Buffer.{Buffer, link_before, unlink_item, is_tail, move_action}
use im_dedup_plus.Buffer.Outcome.{Run, done, ◌>>=◌}
use im_dedup_plus.Buffer.Chain.{remove, remove-same}
use im_dedup_plus.Buffer.Removal.{
  count-remove, count-remove-same, total-remove, remove-IsSimple, rest-there,
}
use im_dedup_plus.Buffer.Unlink.{
  next-there, unlink-IsChain, unlink-IsBack, unlink-IsLast, remove-nonempty, remove-last,
}
use im_dedup_plus.Buffer.Content.{HasContent, HasContent-order}
use im_dedup_plus.Buffer.Room.{IsLinked, IsBuffer, with_behind, with_behind-IsLinked}
use im_dedup_plus.Buffer.Evict.{Agrees}
use im_dedup_plus.Buffer.Tail.{
  count-length, is_tail-same, is_tail-other, is_tail-tail, append-run, unlink-run,
}

module _ (node_size : ℕ → ℕ) (capacity : ℕ) (bounded : capacity < 2 ^ 64) where
  -- What is left of a buffer when an item went out from between its neighbours, as if its bytes had
  -- come back.
  Unlinked : ℕ → List ℕ → Buffer → Type 0
  Unlinked item items buf =
      (b : Buffer) × (unlink_item item buf ≡ done b)
      × IsLinked node_size capacity (remove item items)
          (record b { size = buf.size + node_size item })
      × (b.size ≡ buf.size)
      × (b.filled ≡ buf.filled)

  unlink_item-IsLinked :
      (item : ℕ) (items : List ℕ) (buf : Buffer)
      → 1 ≤ count item items
      → buf.tail ≢ some item
      → IsLinked node_size capacity items buf
      → Unlinked item items buf
  unfolding Unlinked unlink_item link_before
  unlink_item-IsLinked item [] buf there ne q = absurd (omega (arith, there))
  unlink_item-IsLinked item (n ∷ ns) buf there ne q =
      let (after, behind, in_items) =
        next-there buf.next buf.head buf.tail item (n ∷ ns) there ne q.last q.chained in
      let back =
        unlink-IsBack buf.pre buf.next none buf.head buf.tail item after (n ∷ ns) there ne behind
          q.last q.simple q.back q.chained in
      let last = unlink-IsLast buf.tail item (n ∷ ns) ne q.last in
      let room : buf.size + node_size item + total node_size (remove item (n ∷ ns)) ≡ capacity =
        omega (arith, q.room, total-remove node_size item (n ∷ ns) there) in
      let simple = remove-IsSimple item (n ∷ ns) there q.simple in
      elim (ℕ_discrete n item) [
        | yes p ↦ (
          record buf { head = buf.next item; pre = set_next after (buf.pre item) buf.pre },
          unlink-run item after none buf (ap buf.pre (sym p) ∙ q.back.0) behind,
          record {
            chained =
                subst (λ (x : ℕ). IsChain buf.next (buf.next x) (remove x (n ∷ ns))) p
                  (subst (IsChain buf.next (buf.next n)) (sym (remove-same n ns)) q.chained.1);
            back = back;
            last = last;
            room = room;
            simple = simple;
          },
          refl,
          refl,
        )
        | no other ↦
            let (p, found, differ, in_rest, chained) =
              unlink-IsChain buf.pre buf.next none buf.head item n ns other
                (rest-there item n ns other there) q.simple q.back q.chained in
            (
              record buf {
                next = set_next p (buf.next item) buf.next;
                pre = set_next after (buf.pre item) buf.pre;
              },
              unlink-run item after (some p) buf found
                  (set_next-other p (buf.next item) buf.next item (λ e. differ (sym e)) ∙ behind),
              record { chained = chained; back = back; last = last; room = room; simple = simple },
              refl,
              refl,
            )
      ]

  -- `with_behind-IsLinked` for any nodes.
  pub placed :
      (item : ℕ) (items : List ℕ) (buf : Buffer)
      → 1 ≤ length items
      → count item items ≡ 0
      → node_size item ≤ buf.size
      → IsLinked node_size capacity items buf
      → (last : ℕ) × (buf.tail ≡ some last)
        × IsLinked node_size capacity
            (items ++ item ∷ [])
            (with_behind node_size capacity bounded item last buf)
  placed item [] buf some_node fresh fits q = absurd (omega (arith, some_node))
  placed item (n ∷ ns) buf some_node fresh fits q =
      with_behind-IsLinked node_size capacity bounded item n ns buf fresh fits q

  module _ (others : ℕ → Bool) (known : List ℕ) (mr : ℕ → Buffer → Run Buffer) (item : ℕ)
      (items : List ℕ) (buf : Buffer) (q : IsBuffer node_size capacity others known items buf)
      (there : 1 ≤ count item items) where
    -- The item is the last node already.
    stays :
        buf.tail ≡ some item
        → Agrees node_size capacity others known
            (move_action mr item 0 buf)
            (done (record { items = remove item items ++ item ∷ []; room = buf.size }))
    unfolding move_action is_tail
    stays e =
        let same : remove item items ++ (item ∷ []) ≡ items =
          remove-last item items (count-length item items there) q.linked.simple
            (subst (λ (t : Option ℕ). IsLast t items) e q.linked.last) in
        let at_tail : is_tail item buf.tail ≡ true = is_tail-same item buf.tail e in
        rw (move_action, at_tail)
          (
            subst (λ (l : List ℕ). IsBuffer node_size capacity others known l buf) (sym same) q,
            refl,
          )

    moves :
        buf.tail ≢ some item
        → Agrees node_size capacity others known
            (move_action mr item 0 buf)
            (done (record { items = remove item items ++ item ∷ []; room = buf.size }))
    unfolding move_action is_tail Unlinked
    moves ne =
        let off : is_tail item buf.tail ≡ false = is_tail-other item buf.tail ne in
        let (b, run, rest, size, same) = unlink_item-IsLinked item items buf there ne q.linked in
        let (last, tailed, linked) =
          placed item (remove item items) (record b { size = buf.size + node_size item })
            (remove-nonempty buf.tail item items there ne q.linked.last)
            (count-remove-same item items q.linked.simple) (omega arith) rest in
        rw (move_action, off, run, ◌>>=◌, append-run item last b tailed)
          (
            record {
              linked = record {
                chained = linked.chained;
                back = linked.back;
                last = linked.last;
                room = omega (arith, linked.room, size, bounded, q.linked.room);
                simple = linked.simple;
              };
              content =
                  subst (HasContent others known (remove item items ++ item ∷ [])) (sym same) (
                    HasContent-order others known buf.filled items (remove item items ++ item ∷ [])
                      (λ a.
                        count-append a (remove item items) (item ∷ [])
                        ∙ count-remove a item items there)
                      q.content);
            },
            size,
          )

    pub again :
        Agrees node_size capacity others known
          (move_action mr item 0 buf)
          (done (record { items = remove item items ++ item ∷ []; room = buf.size }))
    again = elim (Bool-cases (is_tail item buf.tail)) [
      | inl on ↦ stays (is_tail-tail item buf.tail on)
      | inr off ↦ moves (λ e. cc (sym off ∙ is_tail-same item buf.tail e))
    ]
