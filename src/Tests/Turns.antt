-- ===== src/Tests/Turns.antt =====
-- Two threads that put nodes into a list and one that takes them out.
use im_dedup_plus.Prelude.{
  false, ℕ, ◌+◌, ◌*◌, ◌≤◌, ◌≡◌, ◌⊎◌, refl, arith, some, none, length, List, [], ◌∷◌, ◌==◌,
  if◌then◌else◌,
}
use im_dedup_plus.Queue.{ListNode, init_list, set_next, link, count_in, push, pop}
use im_dedup_plus.Queue.Chain.{IsSimple}
use im_dedup_plus.Queue.Linked.{IsQueue, push-IsQueue, pop-IsQueue}
use im_dedup_plus.Queue.Threads.{System, start, Step, put, Reach, here, step, working}
use im_dedup_plus.Queue.Invariant.{IsRunning, concat, Reach-IsRunning}
use im_dedup_plus.Queue.Signals.{Sleeping, IsAwake, Turns, first, make, sleep, wait_read, all_awake}
use im_dedup_plus.Queue.Progress.{IsFinished, Turns-finishes}

-- Nodes 1 and 2 in a list of 100 bytes, 32 bytes each.
abbrev two_nodes : ListNode
two_nodes = record {
  head = some 1;
  tail = some 2;
  size = 36;
  counter = 2;
  ending = 0;
  next = λ n. if n == 1 then some 2 else none;
}

two_nodes-IsQueue : IsQueue (λ n. 32) 100 (1 ∷ 2 ∷ []) two_nodes
two_nodes-IsQueue = record {
  chained = (refl, (refl, refl));
  last = refl;
  counted = refl;
  room = refl;
  simple = λ a. ground arith;
}

push_example :
    (list : ListNode) × (push 32 3 two_nodes ≡ some list)
    × IsQueue (λ n. 32) 100 (1 ∷ 2 ∷ 3 ∷ []) list
    × (list.ending ≡ two_nodes.ending)
push_example =
    push-IsQueue (λ n. 32) 100 (λ n. omega arith) (omega arith) 3 (1 ∷ 2 ∷ []) two_nodes
      (omega arith) refl two_nodes-IsQueue

pop_example :
    (list : ListNode) × (pop (λ n. 32) two_nodes ≡ some (1, list))
    × IsQueue (λ n. 32) 100 (2 ∷ []) list
    × (list.ending ≡ two_nodes.ending)
pop_example =
    pop-IsQueue (λ n. 32) 100 (λ n. omega arith) (omega arith) 1 (2 ∷ []) two_nodes
      two_nodes-IsQueue

abbrev work : List (List ℕ)
work = (1 ∷ 2 ∷ []) ∷ (3 ∷ []) ∷ []

work-IsSimple : IsSimple (concat work)
work-IsSimple a = ground arith

-- The list after one node went in.
one_in : ListNode
one_in = record {
  head = some 3;
  tail = some 3;
  size = 68;
  counter = 1;
  ending = 0;
  next = set_next 3 none (λ n. none);
}

after_put : System
after_put = record {
  list = one_in;
  producers = working (1 ∷ 2 ∷ []) ∷ working [] ∷ [];
  consumers = 1;
  pushed = 3 ∷ [];
  popped = [];
}

reached : Reach (λ n. 32) 2 (start 100 (λ n. none) work 1) after_put 1
unfolding after_put one_in start init_list push link count_in
reached = step here (put (working (1 ∷ 2 ∷ []) ∷ []) [] 3 [] one_in refl refl refl refl)

turns_example : IsRunning (λ n. 32) 100 2 1 work after_put
turns_example =
    Reach-IsRunning (λ n. 32) 100 1 work (λ n. omega arith) (omega arith) (omega arith)
      work-IsSimple (λ n. none) reached

-- The reader found nothing and fell asleep; the node then woke it.
abbrev woken : Sleeping
woken = record { system = after_put; readers = 0; writers = λ k. false }

woken_run : Turns (λ n. 32) 2 1 (all_awake 100 (λ n. none) work 1) woken 1 1
unfolding all_awake after_put one_in start init_list push link count_in
woken_run =
    make (sleep first (wait_read (omega arith) refl refl refl))
      (put (working (1 ∷ 2 ∷ []) ∷ []) [] 3 [] one_in refl refl refl refl) refl

finishes_example :
    (1 ≤ 2 * length (concat work) + length work + 1)
    × (1 ≤ (length work + 1) * 2)
    × (((t : System) × (st : Step (λ n. 32) 2 woken.system t) × IsAwake st woken.readers
            woken.writers)
        ⊎ IsFinished work woken.system)
finishes_example =
    Turns-finishes (λ n. 32) 100 1 work (λ n. none) woken 1 1 (λ n. omega arith) (omega arith)
      (omega arith) work-IsSimple (λ n h. omega arith) (omega arith) woken_run
