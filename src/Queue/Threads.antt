-- ===== src/Queue/Threads.antt =====
-- The threads at the two ends of a list, one step at a time: a thread that has waited for its turn holds
-- the lock from its test to its unlock, so that what it does there is one step. Which thread goes next is
-- open; which of them sleep is in Signals.
use im_dedup_plus.Prelude.{ℕ, suc, ◌≡◌, ◌==◌, ltb, true, false}
use im_dedup_plus.Prelude.{Option, map, some, List, [], ◌∷◌, ◌++◌}
use im_dedup_plus.Queue.{ListNode, init_list, push, pop, close}

-- A thread that puts nodes in: those that it has still to put in, or that it has counted up `ending`.
pub data Producer : Type 0 where
  working : List ℕ → Producer
  ended : Producer

-- `consumers` is how many of the threads that take nodes out are in their loop; `pushed` and `popped`
-- are the nodes that went in and out so far.
pub record System : Type 0 where
  pub list : ListNode
  pub producers : List Producer
  pub consumers : ℕ
  pub pushed : List ℕ
  pub popped : List ℕ

-- At first, all have their nodes and the list is as `INIT_LIST` leaves it.
unfoldable pub start : ℕ → (ℕ → Option ℕ) → List (List ℕ) → ℕ → System
start capacity next work consumers = record {
  list = init_list capacity next;
  producers = map working work;
  consumers = consumers;
  pushed = [];
  popped = [];
}

-- `threads` is the number that `ending` is compared with.
pub data Step (mem_size : ℕ → ℕ) (threads : ℕ) (s t : System) : Type 0 where
  put :
      (before after : List Producer) (node : ℕ) (rest : List ℕ) (list : ListNode)
      → s.producers ≡ before ++ working (node ∷ rest) ∷ after
      → ltb s.list.size (mem_size node) ≡ false
      → push (mem_size node) node s.list ≡ some list
      → t ≡ record s {
        list = list;
        producers = before ++ working rest ∷ after;
        pushed = s.pushed ++ node ∷ [];
      }
      → Step mem_size threads s t
  finish :
      (before after : List Producer)
      → s.producers ≡ before ++ working [] ∷ after
      → t ≡ record s { list = close s.list; producers = before ++ ended ∷ after }
      → Step mem_size threads s t
  get :
      (node left : ℕ) (list : ListNode)
      → s.consumers ≡ suc left
      → (s.list.counter == 0) ≡ false
      → pop mem_size s.list ≡ some (node, list)
      → t ≡ record s { list = list; popped = s.popped ++ node ∷ [] }
      → Step mem_size threads s t
  leave :
      (left : ℕ)
      → s.consumers ≡ suc left
      → (s.list.counter == 0) ≡ true
      → (s.list.ending == threads) ≡ true
      → t ≡ record s { consumers = left }
      → Step mem_size threads s t

-- The states that some steps lead to, and how many steps.
pub data Reach (mem_size : ℕ → ℕ) (threads : ℕ) (s : System) : System → ℕ → Type 0 where
  here : Reach mem_size threads s s 0
  step :
      {t u : System} {steps : ℕ}
      → Reach mem_size threads s t steps
      → Step mem_size threads t u
      → Reach mem_size threads s u (suc steps)
