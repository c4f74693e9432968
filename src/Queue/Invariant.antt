-- ===== src/Queue/Invariant.antt =====
-- What holds of the threads and the list between them, however they take turns.
use im_dedup_plus.Prelude.{
  ℕ, suc, ◌+◌, ◌^◌, ◌≤◌, ◌<◌, ◌≡◌, ◌⊎◌, inl, inr, refl, sym, ap, subst, ◌∙◌, arith, ◌==◌, ltb, true,
  false,
}
use im_dedup_plus.Prelude.{
  Option, some, some_injective, map, length, length-append, List, [], ◌∷◌, ◌++◌, append_assoc,
}
use im_dedup_plus.Queue.{ListNode, init_list, push, pop, close}
use im_dedup_plus.Queue.Chain.{count, count-append, count-here, IsSimple}
use im_dedup_plus.Queue.Linked.{
  IsQueue, init_list-IsQueue, push-IsQueue, pop-IsQueue, IsQueue-counter,
}
use im_dedup_plus.Queue.Threads.{
  Producer, working, ended, System, start, Step, put, finish, get, leave, Reach, here, step,
}

-- The nodes that are still to be put in.
abbrev pub pending : List Producer → List ℕ
pending [] = []
pending (working nodes ∷ ps) = nodes ++ pending ps
pending (ended ∷ ps) = pending ps

abbrev pub number_ended : List Producer → ℕ
number_ended [] = 0
number_ended (working nodes ∷ ps) = number_ended ps
number_ended (ended ∷ ps) = 1 + number_ended ps

abbrev pub concat : List (List ℕ) → List ℕ
concat [] = []
concat (nodes ∷ rest) = nodes ++ concat rest

pub pending-append : (ps qs : List Producer) → pending (ps ++ qs) ≡ pending ps ++ pending qs
pending-append [] qs = refl
pending-append (working nodes ∷ ps) qs =
    ap (λ (l : List ℕ). nodes ++ l) (pending-append ps qs)
    ∙ sym (append_assoc nodes (pending ps) (pending qs))
pending-append (ended ∷ ps) qs = pending-append ps qs

number_ended-append :
    (ps qs : List Producer) → number_ended (ps ++ qs) ≡ number_ended ps + number_ended qs
number_ended-append [] qs = omega arith
number_ended-append (working nodes ∷ ps) qs = number_ended-append ps qs
number_ended-append (ended ∷ ps) qs = omega (arith, number_ended-append ps qs)

-- One producer among the others: what it has to put in counts with theirs.
pub count-among :
    (a : ℕ) (before after : List Producer) (nodes : List ℕ)
    → count a (pending (before ++ working nodes ∷ after))
      ≡ count a nodes + count a (pending (before ++ after))
count-among a before after nodes =
    rw (pending-append before (working nodes ∷ after), pending-append before after)
      (omega (
        arith,
        count-append a (pending before) (nodes ++ pending after),
        count-append a (pending before) (pending after),
        count-append a nodes (pending after),
      ))

-- All have ended, so nothing is to be put in.
pub all_ended :
    (ps : List Producer)
    → (number_ended ps ≤ length ps) × (number_ended ps ≡ length ps → pending ps ≡ [])
all_ended [] = (omega arith, λ e. refl)
all_ended (working nodes ∷ ps) =
    let (le, h) = all_ended ps in (omega (arith, le), λ e. absurd (omega (arith, le, e)))
all_ended (ended ∷ ps) =
    let (le, h) = all_ended ps in (omega (arith, le), λ e. h (omega (arith, e)))

pub pending-start : (work : List (List ℕ)) → pending (map working work) ≡ concat work
pending-start [] = refl
pending-start (nodes ∷ rest) = ap (λ (l : List ℕ). nodes ++ l) (pending-start rest)

pub ended-start : (work : List (List ℕ)) → number_ended (map working work) ≡ 0
ended-start [] = refl
ended-start (nodes ∷ rest) = ended-start rest

length-start : (work : List (List ℕ)) → length (map working work) ≡ length work
length-start [] = refl
length-start (nodes ∷ rest) = ap suc (length-start rest)

pub ended-middle :
    (before after : List Producer) (p : Producer)
    → number_ended (before ++ p ∷ after) ≡ number_ended before + number_ended (p ∷ after)
ended-middle before after p = number_ended-append before (p ∷ after)

-- One producer is replaced.
length-middle :
    (before after : List Producer) (p q : Producer)
    → length (before ++ p ∷ after) ≡ length (before ++ q ∷ after)
length-middle before after p q =
    omega (arith, length-append before (p ∷ after), length-append before (q ∷ after))

-- Nothing is left anywhere: the list is empty and every producer has ended.
pub record IsDone (threads : ℕ) (items : List ℕ) (s : System) : Type 0 where
  pub no_items : items ≡ []
  pub all_in : number_ended s.producers ≡ threads

-- The list holds `items`; every node is with a producer, in the list or taken out, as often as at
-- first; nodes come out in the order in which they went in; `ending` counts the producers that ended;
-- and a thread that takes nodes out leaves its loop only if nothing is left.
pub record IsRunning (mem_size : ℕ → ℕ) (capacity threads consumers : ℕ) (work : List (List ℕ))
    (s : System) : Type 0 where
  pub items : List ℕ
  pub queue : IsQueue mem_size capacity items s.list
  pub conserved :
      (a : ℕ)
      → count a (pending s.producers) + count a items + count a s.popped ≡ count a (concat work)
  pub in_order : s.pushed ≡ s.popped ++ items
  pub ends : s.list.ending ≡ number_ended s.producers
  pub everyone : length s.producers ≡ threads
  pub left : (s.consumers ≡ consumers) ⊎ IsDone threads items s

not-empty : (n : ℕ) (ns : List ℕ) → ¬ ((n ∷ ns) ≡ [])
not-empty n ns e = ground arith

pub some_items :
    (mem_size : ℕ → ℕ) (capacity : ℕ) (items : List ℕ) (list : ListNode)
    → IsQueue mem_size capacity items list
    → (list.counter == 0) ≡ false
    → (n : ℕ) × (ns : List ℕ) × (items ≡ n ∷ ns)
some_items mem_size capacity [] list q used = absurd (ground (arith, q.counted))
some_items mem_size capacity (n ∷ ns) list q used = (n, ns, refl)

-- A list between so many threads, with bounds on its bytes and on those of a node, and nodes that
-- differ.
module _ (mem_size : ℕ → ℕ) (capacity consumers : ℕ) (work : List (List ℕ))
    (large : (n : ℕ) → 16 ≤ mem_size n) (bounded : capacity < 2 ^ 36) (few : length work < 2 ^ 8)
    (simple : IsSimple (concat work)) where
  abbrev Running : System → Type 0
  Running s = IsRunning mem_size capacity (length work) consumers work s

  start-IsRunning : (next : ℕ → Option ℕ) → Running (start capacity next work consumers)
  unfolding start init_list
  start-IsRunning next = record {
    items = [];
    queue = init_list-IsQueue mem_size capacity large bounded next;
    conserved = λ a. omega (arith, ap (λ (l : List ℕ). count a l) (pending-start work));
    in_order = refl;
    ends = sym (ended-start work);
    everyone = length-start work;
    left = inl refl;
  }

  module _ (s : System) (r : Running s) where
    pub done_pending : IsDone (length work) r.items s → pending s.producers ≡ []
    done_pending done = (all_ended s.producers).1 (done.all_in ∙ sym r.everyone)

    put-IsRunning :
        (before after : List Producer) (node : ℕ) (rest : List ℕ) (list : ListNode)
        → s.producers ≡ before ++ working (node ∷ rest) ∷ after
        → ltb s.list.size (mem_size node) ≡ false
        → push (mem_size node) node s.list ≡ some list
        → Running (record s {
          list = list;
          producers = before ++ working rest ∷ after;
          pushed = s.pushed ++ node ∷ [];
        })
    put-IsRunning before after node rest list e fits p =
        let counts = λ (a : ℕ).
          ap (λ (ps : List Producer). count a (pending ps)) e
          ∙ count-among a before after (node ∷ rest) in
        let here = count-here node rest in
        let fresh : count node r.items ≡ 0 =
          omega (arith, counts node, here, r.conserved node, simple node) in
        let (list', p', q, same_end) =
          push-IsQueue mem_size capacity large bounded node r.items s.list (ground arith) fresh
            r.queue in
        let same : list' ≡ list = some_injective list' list (sym p' ∙ p) in
        record {
          items = r.items ++ node ∷ [];
          queue = subst (IsQueue mem_size capacity (r.items ++ node ∷ [])) same q;
          conserved = λ a. omega (
            arith,
            counts a,
            r.conserved a,
            count-among a before after rest,
            count-append a (node ∷ []) rest,
            count-append a r.items (node ∷ []),
          );
          in_order =
              ap (λ (l : List ℕ). l ++ node ∷ []) r.in_order
              ∙ append_assoc s.popped r.items (node ∷ []);
          ends =
              ap (λ (l : ListNode). l.ending) (sym same)
              ∙ same_end
              ∙ r.ends
              ∙ ap number_ended e
              ∙ ended-middle before after (working (node ∷ rest))
              ∙ sym (ended-middle before after (working rest));
          everyone =
              length-middle before after (working rest) (working (node ∷ rest))
              ∙ ap (λ (ps : List Producer). length ps) (sym e)
              ∙ r.everyone;
          left = elim r.left [
            | inl all ↦ inl all
            | inr done ↦ absurd (
                omega
                  (arith, counts node, here, ap (λ (l : List ℕ). count node l) (done_pending done)))
          ];
        }

    finish-IsRunning :
        (before after : List Producer)
        → s.producers ≡ before ++ working [] ∷ after
        → Running (record s { list = close s.list; producers = before ++ ended ∷ after })
    unfolding close
    finish-IsRunning before after e =
        let ended_now = ended-middle before after ended in
        let ended_before = ap number_ended e ∙ ended-middle before after (working []) in
        let everyone : length (before ++ ended ∷ after) ≡ length work =
          length-middle before after ended (working [])
          ∙ ap (λ (ps : List Producer). length ps) (sym e)
          ∙ r.everyone in
        let most = (all_ended (before ++ ended ∷ after)).0 in
        record {
          items = r.items;
          queue = record {
            chained = r.queue.chained;
            last = r.queue.last;
            counted = r.queue.counted;
            room = r.queue.room;
            simple = r.queue.simple;
          };
          conserved = λ a. omega (
            arith,
            r.conserved a,
            ap (λ (ps : List Producer). count a (pending ps)) e,
            count-among a before after [],
            ap (λ (l : List ℕ). count a l) (pending-append before after),
            ap (λ (l : List ℕ). count a l) (pending-append before (ended ∷ after)),
          );
          in_order = r.in_order;
          ends = omega (arith, r.ends, ended_before, ended_now, everyone, most, few);
          everyone = everyone;
          left = elim r.left [
            | inl all ↦ inl all
            | inr done ↦
                absurd (omega (arith, done.all_in, ended_before, ended_now, everyone, most))
          ];
        }

    -- What is taken out is the first of the nodes in the list.
    pub first-IsRunning :
        (node : ℕ) (rest : List ℕ)
        → r.items ≡ node ∷ rest
        → (list : ListNode) × (pop mem_size s.list ≡ some (node, list))
          × Running (record s { list = list; popped = s.popped ++ node ∷ [] })
    first-IsRunning node rest e =
        let (list, p, q, same_end) =
          pop-IsQueue mem_size capacity large bounded node rest s.list
            (subst (λ (l : List ℕ). IsQueue mem_size capacity l s.list) e r.queue) in
        (
          list,
          p,
          record {
            items = rest;
            queue = q;
            conserved = λ a. omega (
              arith,
              r.conserved a,
              ap (λ (l : List ℕ). count a l) e,
              count-append a (node ∷ []) rest,
              count-append a s.popped (node ∷ []),
            );
            in_order =
                r.in_order
                ∙ ap (λ (l : List ℕ). s.popped ++ l) e
                ∙ sym (append_assoc s.popped (node ∷ []) rest);
            ends = same_end ∙ r.ends;
            everyone = r.everyone;
            left = elim r.left [
              | inl all ↦ inl all
              | inr done ↦ absurd (not-empty node rest (sym e ∙ done.no_items))
            ];
          },
        )

    get-IsRunning :
        (node : ℕ) (list : ListNode)
        → (s.list.counter == 0) ≡ false
        → pop mem_size s.list ≡ some (node, list)
        → Running (record s { list = list; popped = s.popped ++ node ∷ [] })
    get-IsRunning node list used p =
        let (n, rest, e) = some_items mem_size capacity r.items s.list r.queue used in
        let (list', p', running) = first-IsRunning n rest e in
        let same : (n, list') ≡ (node, list) =
          some_injective (n, list') (node, list) (sym p' ∙ p) in
        subst
          (λ (out : ℕ × ListNode).
            Running (record s { list = out.1; popped = s.popped ++ out.0 ∷ [] }))
          same running

    leave-IsRunning :
        (left : ℕ)
        → (s.list.counter == 0) ≡ true
        → (s.list.ending == length work) ≡ true
        → Running (record s { consumers = left })
    leave-IsRunning left empty all = record {
      items = r.items;
      queue = r.queue;
      conserved = r.conserved;
      in_order = r.in_order;
      ends = r.ends;
      everyone = r.everyone;
      left = inr (record {
        no_items = IsQueue-counter mem_size capacity large bounded r.items s.list r.queue empty;
        all_in = ground (arith, r.ends);
      });
    }

  -- Every step keeps it.
  Step-IsRunning : {s t : System} → Step mem_size (length work) s t → Running s → Running t
  Step-IsRunning (put before after node rest list e fits p same) r =
      subst Running (sym same) (put-IsRunning _ r before after node rest list e fits p)
  Step-IsRunning (finish before after e same) r =
      subst Running (sym same) (finish-IsRunning _ r before after e)
  Step-IsRunning (get node left list some_left used p same) r =
      subst Running (sym same) (get-IsRunning _ r node list used p)
  Step-IsRunning (leave left some_left empty all same) r =
      subst Running (sym same) (leave-IsRunning _ r left empty all)

  -- In every state that is reached from the start, by any turns of the threads, the list holds its
  -- nodes and accounts for their bytes, no node is lost or doubled, nodes come out in the order in which
  -- they went in, and a thread that has left its loop has left nothing behind.
  pub Reach-IsRunning :
      (next : ℕ → Option ℕ) {s : System} {steps : ℕ}
      → Reach mem_size (length work) (start capacity next work consumers) s steps
      → Running s
  Reach-IsRunning next here = start-IsRunning next
  Reach-IsRunning next (step r st) = Step-IsRunning st (Reach-IsRunning next r)
