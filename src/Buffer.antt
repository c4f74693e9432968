-- ===== src/Buffer.antt =====
-- buffer.c: the buffer of the images that can be a base, which frees the data of the images at its
-- top. A node is a number, its address; `next`, `pre` and whether the data is there are fields of each
-- node. `free_buf_node` and `fill_buf_node` are those of 2df.c.
pub mod Outcome
pub mod Chain
pub mod Spec
pub mod Content
pub mod Room
pub mod Evict
pub mod Insert
pub mod Removal
pub mod Unlink
pub mod Tail
pub mod Move
pub mod Refill
pub mod Ends
pub mod Success
pub mod Keep
use im_dedup_plus.Prelude.{
  ℕ, zero, suc, ◌+◌, ◌^◌, u64, sub64, Bool, true, false, ◌==◌, ltb, if◌then◌else◌,
}
use im_dedup_plus.Prelude.{Option, none, some}
use im_dedup_plus.Queue.{set_next, is_some}
use im_dedup_plus.Buffer.Outcome.{Run, done, null_pointer, out_of_fuel, ◌>>=◌, deref}

-- `Buffer`, without the lock, and the fields of the nodes that change.
pub record Buffer : Type 0 where
  pub head : Option ℕ
  pub tail : Option ℕ
  pub size : ℕ
  pub next : ℕ → Option ℕ
  pub pre : ℕ → Option ℕ
  pub filled : ℕ → Bool

-- What `compress_road_thread` starts with.
unfoldable pub init_buffer : ℕ → (next pre : ℕ → Option ℕ) → (ℕ → Bool) → Buffer
init_buffer capacity next pre filled = record {
  head = none;
  tail = none;
  size = capacity;
  next = next;
  pre = pre;
  filled = filled;
}

unfoldable pub set_filled : ℕ → Bool → (ℕ → Bool) → ℕ → Bool
set_filled node b filled n = if n == node then b else filled n

unfoldable pub free_buf_node : ℕ → Buffer → Buffer
unfolding set_filled
free_buf_node node buf = record buf { filled = set_filled node false buf.filled }

-- The item goes behind `tail`.
unfoldable pub append_item : ℕ → Buffer → Run Buffer
unfolding set_next
append_item item buf = do
  last ← deref buf.tail
  done (record buf {
    next = set_next item none (set_next last (some item) buf.next);
    pre = set_next item buf.tail buf.pre;
    tail = some item;
  })

-- `item->pre->next = item->next`, or the head moves on.
unfoldable pub link_before : Option ℕ → ℕ → Buffer → Buffer
unfolding set_next
link_before (some p) item buf = record buf { next = set_next p (buf.next item) buf.next }
link_before none item buf = record buf { head = buf.next item }

-- The item goes out from between its neighbours.
unfoldable pub unlink_item : ℕ → Buffer → Run Buffer
unfolding link_before
unlink_item item buf = do
  let before = link_before (buf.pre item) item buf
  after ← deref (before.next item)
  done (record before { pre = set_next after (before.pre item) before.pre })

-- `item != buf->tail`, negated.
unfoldable pub is_tail : ℕ → Option ℕ → Bool
is_tail item none = false
is_tail item (some t) = item == t

-- `move_action` behind `extraSize`, with the loop over `delete_from_top_action` that it contains.
unfoldable pub move_action : (ℕ → Buffer → Run Buffer) → ℕ → ℕ → Buffer → Run Buffer
unfolding append_item unlink_item is_tail
move_action make_room item extra buf = elim (extra == 0) [
  | false ↦ do b ← make_room extra buf; append_item item (record b { size = sub64 b.size extra })
  | true ↦ elim (is_tail item buf.tail) [
    | true ↦ done buf
    | false ↦ do b ← unlink_item item buf; append_item item b
  ]
]

-- `delete_from_top_action`.
unfoldable pub delete_from_top : (ℕ → ℕ) → (ℕ → ℕ) → (ℕ → Buffer → Run Buffer) → Buffer → Run Buffer
unfolding free_buf_node move_action
delete_from_top node_size link make_room buf = do
  ptr ← deref buf.head
  second ← deref (buf.next ptr)
  let popped = record buf {
    head = some second;
    pre = set_next second none buf.pre;
    size = u64 (buf.size + node_size ptr);
  }
  elim (link ptr == 0) [
    | true ↦ done (free_buf_node ptr popped)
    | false ↦ move_action make_room ptr (node_size ptr) popped
  ]

-- `while(buf->size < extraSize) delete_from_top_action(…)`. Other threads change the `link` of the
-- nodes meanwhile: `links` tells them at each round.
unfoldable pub make_room : (ℕ → ℕ) → (ℕ → ℕ → ℕ) → ℕ → ℕ → Buffer → Run Buffer
unfolding delete_from_top
make_room node_size links zero extra buf = out_of_fuel
make_room node_size links (suc fuel) extra buf = elim (ltb buf.size extra) [
  | false ↦ done buf
  | true ↦ do
    b ← delete_from_top node_size (links fuel) (λ e b. make_room node_size links fuel e b) buf
    make_room node_size links fuel extra b
]

-- The item behind the others, or alone.
unfoldable pub link_item : ℕ → Buffer → Run Buffer
unfolding is_some
link_item item buf = elim (is_some buf.head) [
  | true ↦ do
    last ← deref buf.tail
    done (record buf {
      next = set_next last (some item) buf.next;
      pre = set_next item buf.tail buf.pre;
    })
  | false ↦ done (record buf { head = some item; pre = set_next item none buf.pre })
]

unfoldable pub insert_to_buffer : (ℕ → ℕ) → (ℕ → ℕ → ℕ) → ℕ → ℕ → Buffer → Run Buffer
unfolding make_room link_item
insert_to_buffer node_size links fuel item buf = do
  b ← make_room node_size links fuel (node_size item) buf
  linked ← link_item item b
  done (record linked {
    next = set_next item none linked.next;
    tail = some item;
    size = sub64 linked.size (node_size item);
  })

-- The bytes that are there again.
unfoldable pub fill_buf_node : (ℕ → ℕ) → ℕ → Buffer → ℕ × Buffer
unfolding set_filled
fill_buf_node node_size item buf = elim (buf.filled item) [
  | true ↦ (0, buf)
  | false ↦ (node_size item, record buf { filled = set_filled item true buf.filled })
]

unfoldable pub move_in_buffer : (ℕ → ℕ) → (ℕ → ℕ → ℕ) → ℕ → ℕ → Buffer → Run Buffer
unfolding fill_buf_node make_room
move_in_buffer node_size links fuel item buf =
    let (extra, filled) = fill_buf_node node_size item buf in
    move_action (λ e b. make_room node_size links fuel e b) item extra filled
