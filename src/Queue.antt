-- ===== src/Queue.antt =====
-- idedup.h, idedup.c, rejpeg.c: the lists between the threads, and what a thread does with them under
-- the list's lock. A node is a number, its address; `next` is the field of each node.
pub mod Chain
pub mod Linked
pub mod Threads
pub mod Invariant
pub mod Signals
pub mod Awake
pub mod Counted
pub mod Slept
pub mod Progress
use im_dedup_plus.Prelude.{
  ℕ, ◌+◌, ◌-◌, ◌^◌, u8, u32, u64, sub64, Bool, true, false, ◌==◌, ltb, if◌then◌else◌,
}
use im_dedup_plus.Prelude.{Option, none, some, ◌>>=◌}

-- `ListNode`, without the lock and its conditions, and the fields `next`.
pub record ListNode : Type 0 where
  pub head : Option ℕ
  pub tail : Option ℕ
  pub size : ℕ
  pub counter : ℕ
  pub ending : ℕ
  pub next : ℕ → Option ℕ

-- `INIT_LIST`; the nodes are what they are.
unfoldable pub init_list : ℕ → (ℕ → Option ℕ) → ListNode
init_list ori_size next = record {
  head = none;
  tail = none;
  size = ori_size;
  counter = 0;
  ending = 0;
  next = next;
}

-- `node->next = target`.
unfoldable pub set_next : ℕ → Option ℕ → (ℕ → Option ℕ) → ℕ → Option ℕ
set_next node target next n = if n == node then target else next n

-- The node goes behind `tail`, or becomes the head. `none` is a `tail` of `NULL`.
unfoldable pub link : Bool → ℕ → ListNode → Option ListNode
unfolding set_next
link true node list = do
  last ← list.tail
  some (record list { next = set_next last (some node) list.next })
link false node list = some (record list { head = some node })

-- What follows in either case, for a node of `mem_size` bytes.
unfoldable pub count_in : ℕ → ℕ → ListNode → ListNode
count_in mem_size node list = record list {
  tail = some node;
  counter = u32 (list.counter + 1);
  size = sub64 list.size mem_size;
}

-- `if(list->counter) … else …`, after `node->next = NULL`, as most threads do it.
unfoldable pub push : ℕ → ℕ → ListNode → Option ListNode
unfolding link count_in
push mem_size node list = do
  linked ←
      link (if list.counter == 0 then false else true) node
        (record list { next = set_next node none list.next })
  some (count_in mem_size node linked)

unfoldable pub is_some : Option ℕ → Bool
is_some none = false
is_some (some n) = true

-- `if(list->head) … else …`, as the threads that read the folders do it.
unfoldable pub push_by_head : ℕ → ℕ → ListNode → Option ListNode
unfolding link count_in is_some
push_by_head mem_size node list = do
  linked ← link (is_some list.head) node (record list { next = set_next node none list.next })
  some (count_in mem_size node linked)

-- The node at the head goes out: it, and the list. `none` is a `head` of `NULL`.
unfoldable pub pop : (ℕ → ℕ) → ListNode → Option (ℕ × ListNode)
pop mem_size list = do
  node ← list.head
  some (
    node,
    record list {
      head = list.next node;
      counter = u32 (list.counter + 2 ^ 32 - 1);
      size = u64 (list.size + mem_size node);
    },
  )

-- `list->ending ++`.
unfoldable pub close : ListNode → ListNode
close list = record list { ending = u8 (list.ending + 1) }
