-- ===== src/Buffer/Room.antt =====
-- buffer.c: `delete_from_top_action` and the loops over it, on a buffer of some nodes.
use im_dedup_plus.Prelude.{ℕ, ◌+◌, ◌^◌, ◌≤◌, ◌<◌, ◌≡◌, refl, arith, u64, sub64, Bool}
use im_dedup_plus.Prelude.{Option, none, some, List, [], ◌∷◌, ◌++◌}
use im_dedup_plus.Queue.{set_next}
use im_dedup_plus.Queue.Chain.{
  count, count-append, IsSimple, IsChain, IsLast, append-IsLast, tail_node, append-IsSimple,
}
use im_dedup_plus.Queue.Linked.{total, total-append}
use im_dedup_plus.Buffer.{Buffer, init_buffer, free_buf_node, append_item}
use im_dedup_plus.Buffer.Outcome.{done, ◌>>=◌, deref}
use im_dedup_plus.Buffer.Chain.{
  IsBack, IsSimple-tail, IsSimple-head, first-IsBack, append-IsBack, behind-IsChain,
}
use im_dedup_plus.Buffer.Content.{HasContent, HasContent-drop, HasContent-order}

-- These nodes hang together both ways, and their sizes and `size` make up the capacity.
pub record IsLinked (node_size : ℕ → ℕ) (capacity : ℕ) (items : List ℕ) (buf : Buffer)
    : Type 0 where
  pub chained : IsChain buf.next buf.head items
  pub back : IsBack buf.pre none items
  pub last : IsLast buf.tail items
  pub room : buf.size + total node_size items ≡ capacity
  pub simple : IsSimple items

-- And just these of all that the buffer knows have their data.
pub record IsBuffer (node_size : ℕ → ℕ) (capacity : ℕ) (others : ℕ → Bool) (known items : List ℕ)
    (buf : Buffer) : Type 0 where
  pub linked : IsLinked node_size capacity items buf
  pub content : HasContent others known items buf.filled

pub init_buffer-IsBuffer :
    (node_size : ℕ → ℕ) (capacity : ℕ) (next pre : ℕ → Option ℕ) (filled : ℕ → Bool)
    → IsBuffer node_size capacity filled [] [] (init_buffer capacity next pre filled)
unfolding init_buffer
init_buffer-IsBuffer node_size capacity next pre filled = record {
  linked = record {
    chained = refl;
    back = tt;
    last = tt;
    room = omega arith;
    simple = λ a. omega arith;
  };
  content = record {
    listed = λ n h. h;
    full = λ n h. absurd (omega (arith, h));
    held = λ n h e. h;
    kept = λ n h. refl;
  };
}

module _ (node_size : ℕ → ℕ) (capacity : ℕ) (bounded : capacity < 2 ^ 64) where
  -- What `delete_from_top_action` has done before it looks at `link`.
  abbrev pub popped : ℕ → ℕ → Buffer → Buffer
  popped n m buf = record buf {
    head = some m;
    pre = set_next m none buf.pre;
    size = u64 (buf.size + node_size n);
  }

  pub popped-IsLinked :
      (n m : ℕ) (ns : List ℕ) (buf : Buffer)
      → IsLinked node_size capacity (n ∷ m ∷ ns) buf
      → IsLinked node_size capacity (m ∷ ns) (popped n m buf)
  popped-IsLinked n m ns buf q = record {
    chained = (refl, q.chained.1.1);
    back = first-IsBack m ns buf.pre (some n) none (IsSimple-tail n (m ∷ ns) q.simple) q.back.1;
    last = q.last;
    room = omega (arith, q.room, bounded);
    simple = IsSimple-tail n (m ∷ ns) q.simple;
  }

  -- What a buffer is with an item behind the last node.
  abbrev pub with_behind : ℕ → ℕ → Buffer → Buffer
  with_behind item last buf = record buf {
    tail = some item;
    size = sub64 buf.size (node_size item);
    next = set_next item none (set_next last (some item) buf.next);
    pre = set_next item (some last) buf.pre;
  }

  pub with_behind-IsLinked :
      (item n : ℕ) (ns : List ℕ) (buf : Buffer)
      → count item (n ∷ ns) ≡ 0
      → node_size item ≤ buf.size
      → IsLinked node_size capacity (n ∷ ns) buf
      → (last : ℕ) × (buf.tail ≡ some last)
        × IsLinked node_size capacity ((n ∷ ns) ++ (item ∷ [])) (with_behind item last buf)
  with_behind-IsLinked item n ns buf fresh fits q =
      let (l, tailed, is_last) = tail_node buf.tail n ns q.last in
      (
        l,
        tailed,
        record {
          chained = behind-IsChain l item buf.next buf.head n ns q.simple fresh is_last q.chained;
          back = append-IsBack l item buf.pre none n ns fresh is_last q.back;
          last = append-IsLast item (n ∷ ns);
          room = omega (arith, q.room, fits, bounded, total-append node_size (n ∷ ns) (item ∷ []));
          simple = append-IsSimple item (n ∷ ns) q.simple fresh;
        },
      )

  module _ (others : ℕ → Bool) (known : List ℕ) where
    -- The top goes out with its data.
    pub dropped-IsBuffer :
        (n m : ℕ) (ns : List ℕ) (buf : Buffer)
        → IsBuffer node_size capacity others known (n ∷ m ∷ ns) buf
        → IsBuffer node_size capacity others known (m ∷ ns) (free_buf_node n (popped n m buf))
    unfolding free_buf_node
    dropped-IsBuffer n m ns buf q =
        let rest = popped-IsLinked n m ns buf q.linked in
        record {
          linked = record {
            chained = rest.chained;
            back = rest.back;
            last = rest.last;
            room = rest.room;
            simple = rest.simple;
          };
          content = HasContent-drop others known buf.filled n (m ∷ ns) q.linked.simple q.content;
        }

    -- The top goes behind the others.
    pub turned-IsBuffer :
        (n m : ℕ) (ns : List ℕ) (buf : Buffer)
        → IsBuffer node_size capacity others known (n ∷ m ∷ ns) buf
        → (b : Buffer) × (append_item n (record (popped n m buf) {
          size = sub64 (u64 (buf.size + node_size n)) (node_size n);
        })
            ≡ done b)
          × IsBuffer node_size capacity others known ((m ∷ ns) ++ (n ∷ [])) b
          × (b.size ≡ buf.size)
    unfolding append_item
    turned-IsBuffer n m ns buf q =
        let (l, tailed, placed) =
          with_behind-IsLinked n m ns (popped n m buf) (IsSimple-head n (m ∷ ns) q.linked.simple)
            (omega (arith, q.linked.room, bounded)) (popped-IsLinked n m ns buf q.linked) in
        (
          with_behind n l (popped n m buf),
          rw (tailed, ◌>>=◌, deref) refl,
          record {
            linked = placed;
            content =
                HasContent-order others known buf.filled (n ∷ m ∷ ns) ((m ∷ ns) ++ (n ∷ []))
                  turn_count q.content;
          },
          omega (arith, q.linked.room, bounded),
        )
      where
        turn_count : (a : ℕ) → count a ((m ∷ ns) ++ (n ∷ [])) ≡ count a (n ∷ m ∷ ns)
        turn_count a =
            omega (arith, count-append a (m ∷ ns) (n ∷ []), count-append a (n ∷ []) (m ∷ ns))
