-- ===== src/Queue/Progress.antt =====
-- The threads and the list between them come to an end, and not before every node is through.
use im_dedup_plus.Prelude.{
  ℕ, zero, suc, ◌+◌, ◌*◌, ◌^◌, ◌≤◌, ◌<◌, ◌≡◌, ◌⊎◌, inl, inr, refl, sym, ap, subst, ◌∙◌, arith, ◌==◌,
  Bool, true, false, Bool-cases, le→ltb,
}
use im_dedup_plus.Prelude.{Option, length, length-append, List, [], ◌∷◌, ◌++◌, append-nil}
use im_dedup_plus.Queue.{close}
use im_dedup_plus.Queue.Chain.{count, count-here, IsSimple}
use im_dedup_plus.Queue.Linked.{IsQueue, push-IsQueue, IsQueue-counter}
use im_dedup_plus.Queue.Threads.{Producer, working, ended, System, Step, put, finish, get, leave}
use im_dedup_plus.Queue.Signals.{Sleeping, IsAwake, Turns, all_awake}
use im_dedup_plus.Queue.Awake.{asleep-at_most, IsEmpty, IsSignalled, IsEmpty-items, counter-IsEmpty}
use im_dedup_plus.Queue.Invariant.{
  pending, number_ended, concat, IsRunning, count-among, all_ended, first-IsRunning, some_items,
  done_pending,
}
use im_dedup_plus.Queue.Slept.{running, Turns-IsReached}
use im_dedup_plus.Queue.Counted.{Reach-IsCounted}

ℕ-cases : (n : ℕ) → (n ≡ 0) ⊎ ((m : ℕ) × (n ≡ suc m))
ℕ-cases zero = inl refl
ℕ-cases (suc m) = inr (m, refl)

-- A producer that is still at work, or none.
find_working :
    (ps : List Producer)
    → ((before : List Producer) × (nodes : List ℕ) × (after : List Producer) × (ps
          ≡ before ++ working nodes ∷ after))
      ⊎ (number_ended ps ≡ length ps)
find_working [] = inr refl
find_working (working nodes ∷ ps) = inl ([], nodes, ps, refl)
find_working (ended ∷ ps) = elim (find_working ps) [
  | inl (before, nodes, after, e) ↦ inl (ended ∷ before, nodes, after, ap (λ l. ended ∷ l) e)
  | inr all ↦ inr (omega (arith, all))
]

-- Every node has gone in and come out, in one order, and no thread is left in its loop.
pub record IsFinished (work : List (List ℕ)) (s : System) : Type 0 where
  pub no_consumers : s.consumers ≡ 0
  pub nothing_pending : pending s.producers ≡ []
  pub in_order : s.popped ≡ s.pushed
  pub everything : (a : ℕ) → count a s.popped ≡ count a (concat work)

module _ (mem_size : ℕ → ℕ) (capacity consumers : ℕ) (work : List (List ℕ))
    (large : (n : ℕ) → 16 ≤ mem_size n) (bounded : capacity < 2 ^ 36) (few : length work < 2 ^ 8)
    (simple : IsSimple (concat work))
    (fits : (n : ℕ) → 1 ≤ count n (concat work) → mem_size n ≤ capacity)
    (some_consumer : 0 < consumers) (s : System)
    (r : IsRunning mem_size capacity (length work) consumers work s) (readers : ℕ)
    (writers : ℕ → Bool)
    (k : IsSignalled
      (length work)
      consumers
      (record { system = s; readers = readers; writers = writers })) where
  -- Some thread that does not sleep can go on.
  CanStep : Type 0
  CanStep = (t : System) × (st : Step mem_size (length work) s t) × IsAwake st readers writers

  step_get : (left : ℕ) → s.consumers ≡ suc left → (s.list.counter == 0) ≡ false → CanStep
  unfolding CanStep
  step_get left e used =
      let (node, rest, items) = some_items mem_size capacity r.items s.list r.queue used in
      let (list, p, running) =
        first-IsRunning mem_size capacity consumers work large bounded few simple s r node rest
          items in
      (
        record s { list = list; popped = s.popped ++ node ∷ [] },
        get node left list e used p refl,
        elim k.reader [
          | inl empty ↦ absurd (
              omega (
                arith,
                empty,
                ap (λ (l : List ℕ). length l) r.in_order,
                ap (λ (l : List ℕ). length l) items,
                length-append s.popped r.items,
              ))
          | inr (inl awake) ↦ awake
          | inr (inr gone) ↦ absurd (omega (arith, gone, e))
        ],
      )

  nothing_left : length r.items ≡ 0 → IsEmpty s
  nothing_left = IsEmpty-items mem_size capacity consumers work fits s r

  -- With an empty list, a producer has the whole room.
  step_put :
      (before after : List Producer) (node : ℕ) (rest : List ℕ)
      → s.producers ≡ before ++ working (node ∷ rest) ∷ after
      → r.items ≡ []
      → CanStep
  unfolding CanStep
  step_put before after node rest e empty =
      let q = subst (λ (l : List ℕ). IsQueue mem_size capacity l s.list) empty r.queue in
      let there =
        ap (λ (ps : List Producer). count node (pending ps)) e
        ∙ count-among node before after (node ∷ rest) in
      let small : mem_size node ≤ capacity =
        fits node (omega (arith, there, count-here node rest, r.conserved node)) in
      let (list, p, q', same_end) =
        push-IsQueue mem_size capacity large bounded node [] s.list (omega (arith, small, q.room))
          refl q in
      (
        record s {
          list = list;
          producers = before ++ working rest ∷ after;
          pushed = s.pushed ++ node ∷ [];
        },
        put before after node rest list e
            (le→ltb s.list.size (mem_size node) (omega (arith, small, q.room))) p refl,
        k.writer (nothing_left (ap (λ (l : List ℕ). length l) empty)) (length before),
      )

  step_empty : (left : ℕ) → s.consumers ≡ suc left → (s.list.counter == 0) ≡ true → CanStep
  unfolding CanStep
  step_empty left e empty = elim (find_working s.producers) [
    | inl (before, [], after, p) ↦ (
      record s { list = close s.list; producers = before ++ ended ∷ after },
      finish before after p refl,
      k.writer (counter-IsEmpty mem_size capacity consumers work fits s r empty) (length before),
    )
    | inl (before, node ∷ rest, after, p) ↦
        step_put before after node rest p
          (IsQueue-counter mem_size capacity large bounded r.items s.list r.queue empty)
    | inr all ↦ (
      record s { consumers = left },
      leave left e empty (ground (arith, all, r.ends, r.everyone)) refl,
      omega (arith, e, k.ends (omega (arith, all, r.everyone))),
    )
  ]

  finished : s.consumers ≡ 0 → IsFinished work s
  finished gone = elim r.left [
    | inl all ↦ absurd (omega (arith, all, gone, some_consumer))
    | inr done ↦
        let nothing =
          done_pending mem_size capacity consumers work large bounded few simple s r done in
        record {
          no_consumers = gone;
          nothing_pending = nothing;
          in_order =
              sym (
                r.in_order
                ∙ ap (λ (l : List ℕ). s.popped ++ l) done.no_items
                ∙ append-nil s.popped);
          everything = λ a. omega (
            arith,
            r.conserved a,
            ap (λ (l : List ℕ). count a l) nothing,
            ap (λ (l : List ℕ). count a l) done.no_items,
          );
        }
  ]

  go_on : CanStep ⊎ IsFinished work s
  go_on = elim (ℕ-cases s.consumers) [
    | inl none_left ↦ inr (finished none_left)
    | inr (left, e) ↦ elim (Bool-cases (s.list.counter == 0)) [
      | inl empty ↦ inl (step_empty left e empty)
      | inr used ↦ inl (step_get left e used)
    ]
  ]

-- However the threads at the two ends of `dedupList` take turns, fall asleep and are woken by a signal, at
-- most twice as many steps are made as there are nodes, and one more for each thread, and the threads fall
-- asleep at most as often as one more than the steps, times the number of threads; until every node has
-- come out, in the order in which they went in, and all threads that take nodes out have left, a thread
-- that does not sleep has a next step. The nodes differ, each has at least 16 bytes and fits into the list
-- alone, the list has less than 2^36 bytes, fewer than 256 threads put nodes in and at least one takes
-- them out.
pub Turns-finishes :
    (mem_size : ℕ → ℕ) (capacity consumers : ℕ) (work : List (List ℕ)) (next : ℕ → Option ℕ)
    (p : Sleeping) (steps sleeps : ℕ)
    → ((n : ℕ) → 16 ≤ mem_size n)
    → capacity < 2 ^ 36
    → length work < 2 ^ 8
    → IsSimple (concat work)
    → ((n : ℕ) → 1 ≤ count n (concat work) → mem_size n ≤ capacity)
    → 0 < consumers
    → Turns mem_size (length work) consumers (all_awake capacity next work consumers) p steps sleeps
    → (steps ≤ 2 * length (concat work) + length work + consumers)
      × (sleeps ≤ (length work + consumers) * suc steps)
      × (((t : System) × (st : Step mem_size (length work) p.system t) × IsAwake st p.readers
              p.writers)
          ⊎ IsFinished work p.system)
unfolding CanStep
Turns-finishes mem_size capacity consumers work next p steps sleeps large bounded few simple fits
      some_consumer reached =
    let h =
      Turns-IsReached mem_size capacity consumers work next large bounded few simple fits reached in
    let r = running mem_size capacity consumers work next large bounded few simple fits h.reach in
    let c = Reach-IsCounted mem_size consumers (length work) work capacity next h.reach in
    (
      omega (
        arith,
        c.made,
        c.put_in,
        ap (λ (l : List ℕ). length l) r.in_order,
        length-append p.system.popped r.items,
        (all_ended p.system.producers).0,
        r.everyone,
      ),
      omega (
        arith,
        h.slept,
        h.signalled.within,
        h.signalled.no_more,
        asleep-at_most (length work) p.writers,
        more (length work + consumers) steps,
      ),
      go_on mem_size capacity consumers work large bounded few simple fits some_consumer p.system r
          p.readers p.writers h.signalled,
    )
  where
    more : (a n : ℕ) → a * suc n ≡ a * n + a
    more a n = grind arith
