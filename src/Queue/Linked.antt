-- ===== src/Queue/Linked.antt =====
-- The lists between the threads are queues: the nodes from `head` to `NULL`, first in first out.
use im_dedup_plus.Prelude.{
  ℕ, ◌+◌, ◌-◌, ◌*◌, ◌^◌, ◌≤◌, ◌<◌, ◌≡◌, refl, arith, u32, u64, sub64, ◌==◌, true, false,
  if◌then◌else◌,
}
use im_dedup_plus.Prelude.{Option, none, some, ◌>>=◌, length, length-append, List, [], ◌∷◌, ◌++◌}
use im_dedup_plus.Queue.{
  ListNode, init_list, set_next, link, count_in, push, is_some, push_by_head, pop,
}
use im_dedup_plus.Queue.Chain.{
  count, IsSimple, IsChain, IsLast, set_next-IsChain, append-IsChain, append-IsLast, count-tail,
  set_next-same, tail_node, append-IsSimple,
}

-- The bytes of some nodes.
abbrev pub total : (ℕ → ℕ) → List ℕ → ℕ
total mem_size [] = 0
total mem_size (n ∷ ns) = mem_size n + total mem_size ns

pub total-append :
    (mem_size : ℕ → ℕ) (xs ys : List ℕ)
    → total mem_size (xs ++ ys) ≡ total mem_size xs + total mem_size ys
total-append mem_size [] ys = omega arith
total-append mem_size (x ∷ xs) ys = omega (arith, total-append mem_size xs ys)

-- The list holds these nodes, and `size` is what they leave of `capacity`.
pub record IsQueue (mem_size : ℕ → ℕ) (capacity : ℕ) (items : List ℕ) (list : ListNode)
    : Type 0 where
  pub chained : IsChain list.next list.head items
  pub last : IsLast list.tail items
  pub counted : list.counter ≡ length items
  pub room : list.size + total mem_size items ≡ capacity
  pub simple : IsSimple items

pub IsLast-tail : (tail : Option ℕ) (n : ℕ) (ns : List ℕ) → IsLast tail (n ∷ ns) → IsLast tail ns
IsLast-tail tail n [] h = tt
IsLast-tail tail n (m ∷ ns) h = h

module _ (mem_size : ℕ → ℕ) (capacity : ℕ) (large : (n : ℕ) → 16 ≤ mem_size n)
    (bounded : capacity < 2 ^ 36) where
  length-total : (ns : List ℕ) → 16 * length ns ≤ total mem_size ns
  length-total [] = omega arith
  length-total (n ∷ ns) = omega (arith, large n, length-total ns)

  pub init_list-IsQueue :
      (next : ℕ → Option ℕ) → IsQueue mem_size capacity [] (init_list capacity next)
  unfolding init_list
  init_list-IsQueue next = record {
    chained = refl;
    last = tt;
    counted = refl;
    room = omega arith;
    simple = λ a. omega arith;
  }

  -- What a push leaves: the node behind the others.
  Pushed : ℕ → List ℕ → ListNode → Type 0
  Pushed node items list =
      (list' : ListNode) × (push (mem_size node) node list ≡ some list')
      × IsQueue mem_size capacity (items ++ node ∷ []) list'
      × (list'.ending ≡ list.ending)

  module _ (node : ℕ) (list : ListNode) (fits : mem_size node ≤ list.size) where
    push-first : IsQueue mem_size capacity [] list → Pushed node [] list
    unfolding Pushed push link count_in
    push-first q =
        let empty : (list.counter == 0) ≡ true = ground (arith, q.counted) in
        (
          record {
            head = some node;
            tail = some node;
            size = sub64 list.size (mem_size node);
            counter = u32 (list.counter + 1);
            ending = list.ending;
            next = set_next node none list.next;
          },
          rw (push, empty, if◌then◌else◌, link, ◌>>=◌) refl,
          record {
            chained = (refl, set_next-same node none list.next);
            last = refl;
            counted = omega (arith, q.counted);
            room = omega (arith, q.room, fits, bounded);
            simple = append-IsSimple node [] q.simple refl;
          },
          refl,
        )

    push-behind :
        (n : ℕ) (ns : List ℕ)
        → count node (n ∷ ns) ≡ 0
        → IsQueue mem_size capacity (n ∷ ns) list
        → Pushed node (n ∷ ns) list
    unfolding Pushed push link count_in
    push-behind n ns fresh q =
        let (l, tailed, is_last) = tail_node list.tail n ns q.last in
        let used : (list.counter == 0) ≡ false = ground (arith, q.counted) in
        let cleared = set_next node none list.next in
        (
          record {
            head = list.head;
            tail = some node;
            size = sub64 list.size (mem_size node);
            counter = u32 (list.counter + 1);
            ending = list.ending;
            next = set_next l (some node) cleared;
          },
          rw (push, used, if◌then◌else◌, link, tailed, ◌>>=◌) refl,
          record {
            chained =
                append-IsChain l node cleared list.head n ns q.simple fresh
                  (set_next-same node none list.next) is_last
                  (set_next-IsChain node none list.next list.head (n ∷ ns) fresh q.chained);
            last = append-IsLast node (n ∷ ns);
            counted = omega (
              arith,
              q.counted,
              q.room,
              fits,
              bounded,
              large node,
              length-total (n ∷ ns),
              length-append (n ∷ ns) (node ∷ []),
            );
            room = omega (arith, q.room, fits, bounded, total-append mem_size (n ∷ ns) (node ∷ []));
            simple = append-IsSimple node (n ∷ ns) q.simple fresh;
          },
          refl,
        )

  pub pop-IsQueue :
      (node : ℕ) (items : List ℕ) (list : ListNode)
      → IsQueue mem_size capacity (node ∷ items) list
      → (list' : ListNode) × (pop mem_size list ≡ some (node, list'))
        × IsQueue mem_size capacity items list'
        × (list'.ending ≡ list.ending)
  unfolding pop
  pop-IsQueue node items list q = (
    record {
      head = list.next node;
      tail = list.tail;
      size = u64 (list.size + mem_size node);
      counter = u32 (list.counter + 2 ^ 32 - 1);
      ending = list.ending;
      next = list.next;
    },
    rw (q.chained.0, ◌>>=◌) refl,
    record {
      chained = q.chained.1;
      last = IsLast-tail list.tail node items q.last;
      counted = omega (arith, q.counted, q.room, bounded, length-total (node ∷ items));
      room = omega (arith, q.room, bounded);
      simple = λ a. omega (arith, q.simple a, count-tail a node items);
    },
    refl,
  )

  -- A node that is not in the list and fits goes behind the others, and nothing faults.
  pub push-IsQueue :
      (node : ℕ) (items : List ℕ) (list : ListNode)
      → mem_size node ≤ list.size
      → count node items ≡ 0
      → IsQueue mem_size capacity items list
      → (list' : ListNode) × (push (mem_size node) node list ≡ some list')
        × IsQueue mem_size capacity (items ++ node ∷ []) list'
        × (list'.ending ≡ list.ending)
  unfolding Pushed
  push-IsQueue node [] list fits fresh q = push-first node list fits q
  push-IsQueue node (n ∷ ns) list fits fresh q = push-behind node list fits n ns fresh q

  -- The two ways to tell whether a list is empty link a node alike.
  pub push_by_head-push :
      (node m : ℕ) (items : List ℕ) (list : ListNode)
      → IsQueue mem_size capacity items list
      → push_by_head m node list ≡ push m node list
  unfolding push_by_head push is_some
  push_by_head-push node m [] list q =
      let empty : (list.counter == 0) ≡ true = ground (arith, q.counted) in
      rw (q.chained, is_some, empty, if◌then◌else◌) refl
  push_by_head-push node m (n ∷ ns) list q =
      let used : (list.counter == 0) ≡ false = ground (arith, q.counted) in
      rw (q.chained.0, is_some, used, if◌then◌else◌) refl

  pub IsQueue-counter :
      (items : List ℕ) (list : ListNode)
      → IsQueue mem_size capacity items list
      → (list.counter == 0) ≡ true
      → items ≡ []
  IsQueue-counter [] list q e = refl
  IsQueue-counter (n ∷ ns) list q e = absurd (ground (arith, q.counted))
