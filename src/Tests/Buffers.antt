-- ===== src/Tests/Buffers.antt =====
-- buffer.c on two nodes that are there and one whose data has gone.
use im_dedup_plus.Prelude.{
  ℕ, ◌≤◌, ◌≡◌, refl, arith, Bool, true, false, ◌==◌, if◌then◌else◌, none, some, List, [], ◌∷◌,
}
use im_dedup_plus.Queue.Chain.{count}
use im_dedup_plus.Buffer.{Buffer, insert_to_buffer, move_in_buffer}
use im_dedup_plus.Buffer.Outcome.{null_pointer, done}
use im_dedup_plus.Buffer.Spec.{insert_held, use_again}
use im_dedup_plus.Buffer.Room.{IsBuffer}
use im_dedup_plus.Buffer.Evict.{Agrees}
use im_dedup_plus.Buffer.Insert.{insert_to_buffer-insert_held}
use im_dedup_plus.Buffer.Refill.{move_in_buffer-use_again}
use im_dedup_plus.Buffer.Ends.{Kept}
use im_dedup_plus.Buffer.Success.{insert_to_buffer_ends, insert_to_buffer_faults}

-- Nodes 1 and 2 are there, node 3 was there; each takes 40 of 100 bytes.
abbrev forty : ℕ → ℕ
forty n = 40

abbrev there : ℕ → Bool
there n = if n == 3 then false else true

abbrev anywhere : ℕ → Bool
anywhere n = true

abbrev two : Buffer
two = record {
  head = some 1;
  tail = some 2;
  size = 20;
  next = λ n. if n == 1 then some 2 else none;
  pre = λ n. if n == 2 then some 1 else none;
  filled = there;
}

abbrev seen : List ℕ
seen = 3 ∷ 2 ∷ 1 ∷ []

two-IsBuffer : IsBuffer forty 100 anywhere seen (1 ∷ 2 ∷ []) two
two-IsBuffer = record {
  linked = record {
    chained = (refl, (refl, refl));
    back = (refl, (refl, tt));
    last = refl;
    room = refl;
    simple = λ a. ground arith;
  };
  content = record {
    listed = λ n h. ground arith;
    full = λ n h. ground arith;
    held = λ n h e. ground arith;
    kept = λ n h. ground arith;
  };
}

-- Node 1 is in use.
abbrev busy : ℕ → ℕ → ℕ
busy round n = if n == 1 then 1 else 0

abbrev idle : ℕ → ℕ → ℕ
idle round n = 0

abbrev all_but_one : ℕ → Bool
all_but_one n = if n == 1 then false else true

insert_held_example :
    Agrees forty 100 anywhere
      (4 ∷ seen)
      (insert_to_buffer forty busy 9 4 two)
      (insert_held forty busy 9 4 (1 ∷ 2 ∷ []) 20)
insert_held_example =
    insert_to_buffer-insert_held forty 100 anywhere seen (λ n. omega arith) (omega arith) 4 refl
      refl busy 9 (1 ∷ 2 ∷ []) two two-IsBuffer

use_again_example :
    Agrees forty 100 anywhere seen
      (move_in_buffer forty busy 9 3 two)
      (use_again forty busy false 9 3 (1 ∷ 2 ∷ []) 20)
use_again_example =
    move_in_buffer-use_again forty 100 anywhere seen (λ n. omega arith) (omega arith) busy 9 3
      (1 ∷ 2 ∷ []) two two-IsBuffer (omega arith) (omega arith)

ends_example :
    (b : Buffer) × (items' : List ℕ) × (insert_to_buffer forty busy 3 4 two ≡ done b)
    × IsBuffer forty 100 anywhere (4 ∷ seen) items' b
    × (1 ≤ count 4 items')
    × Kept busy (1 ∷ 2 ∷ []) items'
ends_example =
    insert_to_buffer_ends forty 100 anywhere seen (1 ∷ 2 ∷ []) busy all_but_one 4 1 two
      (λ n. omega arith) (omega arith) (λ n f round. ground arith) (λ round e. ground arith)
      (omega arith) (omega arith) refl refl two-IsBuffer

-- A node of 90 bytes, with node 2 the last one left.
abbrev ninety : ℕ → ℕ
ninety n = if n == 4 then 90 else 40

ninety-IsBuffer : IsBuffer ninety 100 anywhere seen (1 ∷ 2 ∷ []) two
ninety-IsBuffer = record {
  linked = record {
    chained = two-IsBuffer.linked.chained;
    back = two-IsBuffer.linked.back;
    last = refl;
    room = refl;
    simple = two-IsBuffer.linked.simple;
  };
  content = two-IsBuffer.content;
}

faults_example : insert_to_buffer ninety idle 2 4 two ≡ null_pointer
faults_example =
    insert_to_buffer_faults ninety 100 anywhere seen (1 ∷ []) 2 idle 1 4 two (λ n. ground arith)
      (omega arith) (λ n h round. refl) (omega arith) (omega arith) ninety-IsBuffer
