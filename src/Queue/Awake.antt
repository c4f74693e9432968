-- ===== src/Queue/Awake.antt =====
-- Who sleeps at `dedupList`: no signal is lost.
use im_dedup_plus.Prelude.{
  ℕ, zero, suc, ◌+◌, ◌-◌, ◌≤◌, ◌<◌, ◌≡◌, ◌⊎◌, inl, inr, refl, sym, ap, subst, ◌∙◌, arith, ◌==◌, ltb,
  ltb→lt, Bool, true, false, Bool-cases, if◌then◌else◌,
}
use im_dedup_plus.Prelude.{length, length-append, List, [], ◌∷◌, ◌++◌}
use im_dedup_plus.Queue.Chain.{count, count-here}
use im_dedup_plus.Queue.Linked.{total}
use im_dedup_plus.Queue.Threads.{Producer, working, System, Step, put, finish, get, leave}
use im_dedup_plus.Queue.Invariant.{
  pending, number_ended, concat, IsRunning, ended-middle, count-among,
}
use im_dedup_plus.Queue.Signals.{
  Sleeping, set_writer, IsAwake, readers_behind, writers_behind, Sleep, wait_read, wait_write,
}

-- How many of the first threads sleep.
abbrev pub asleep : ℕ → (ℕ → Bool) → ℕ
asleep zero writers = 0
asleep (suc n) writers = (if writers n then 1 else 0) + asleep n writers

pub asleep-at_most : (n : ℕ) (writers : ℕ → Bool) → asleep n writers ≤ n
asleep-at_most zero writers = omega arith
asleep-at_most (suc n) writers = ground (arith, asleep-at_most n writers)

asleep-behind :
    (n k : ℕ) (writers : ℕ → Bool) → n ≤ k → asleep n (set_writer k true writers) ≡ asleep n writers
unfolding set_writer
asleep-behind zero k writers h = refl
asleep-behind (suc n) k writers h =
    let other : (n == k) ≡ false = ground (arith, h) in
    rw (other) (omega (arith, asleep-behind n k writers (omega (arith, h))))

asleep-more :
    (n k : ℕ) (writers : ℕ → Bool)
    → k < n
    → writers k ≡ false
    → asleep n (set_writer k true writers) ≡ 1 + asleep n writers
unfolding set_writer
asleep-more zero k writers h e = absurd (omega (arith, h))
asleep-more (suc n) k writers h e = elim (Bool-cases (n == k)) [
  | inl same ↦
      let at : n ≡ k = ground arith in
      let here : writers n ≡ false = ap writers at ∙ e in
      rw (same, here) (omega (arith, asleep-behind n k writers (omega (arith, at))))
  | inr other ↦
      let before : k < n = ground (arith, h) in
      rw (other) (omega (arith, asleep-more n k writers before e))
]

-- Nodes that went in and did not come out.
abbrev pub IsEmpty : System → Type 0
IsEmpty s = length s.pushed ≡ length s.popped

-- A thread that takes nodes out is awake while there are some, and all are once all have put theirs in;
-- the threads that put nodes in are awake while there are none.
pub record IsSignalled (threads consumers : ℕ) (p : Sleeping) : Type 0 where
  pub within : p.readers ≤ p.system.consumers
  pub no_more : p.system.consumers ≤ consumers
  pub reader : IsEmpty p.system ⊎ (p.readers < p.system.consumers) ⊎ (p.system.consumers ≡ 0)
  pub ends : number_ended p.system.producers ≡ threads → p.readers ≡ 0
  pub writer : IsEmpty p.system → (k : ℕ) → p.writers k ≡ false

module _ (mem_size : ℕ → ℕ) (capacity consumers : ℕ) (work : List (List ℕ))
    (fits : (n : ℕ) → 1 ≤ count n (concat work) → mem_size n ≤ capacity) where
  pub IsEmpty-items :
      (s : System) (r : IsRunning mem_size capacity (length work) consumers work s)
      → (length r.items ≡ 0)
      → IsEmpty s
  IsEmpty-items s r e =
      omega (arith, e, ap (λ (l : List ℕ). length l) r.in_order, length-append s.popped r.items)

  pub counter-IsEmpty :
      (s : System) (r : IsRunning mem_size capacity (length work) consumers work s)
      → (s.list.counter == 0) ≡ true
      → IsEmpty s
  counter-IsEmpty s r e = IsEmpty-items s r (ground (arith, r.queue.counted))

  pub Step-IsSignalled :
      {t : System} (p : Sleeping)
      → IsRunning mem_size capacity (length work) consumers work p.system
      → (st : Step mem_size (length work) p.system t) → IsAwake st p.readers p.writers
      → IsSignalled (length work) consumers p
      → IsSignalled (length work) consumers (record {
        system = t;
        readers = readers_behind consumers st p.readers;
        writers = writers_behind st p.writers;
      })
  Step-IsSignalled p r (put before after node rest list e fit pushed same) awake q =
      subst
        (λ (t : System).
          IsSignalled (length work) consumers
            (record { system = t; readers = p.readers - 1; writers = p.writers }))
        (sym same)
        (record {
          within = omega (arith, q.within);
          no_more = q.no_more;
          reader = inr (fewer p.readers p.system.consumers q.within);
          ends = λ all. omega (
            arith,
            q.ends (
                ap number_ended e
                ∙ ended-middle before after (working (node ∷ rest))
                ∙ sym (ended-middle before after (working rest))
                ∙ all),
          );
          writer = λ empty k. absurd (
              omega (
                arith,
                empty,
                ap (λ (l : List ℕ). length l) r.in_order,
                length-append p.system.popped r.items,
                length-append p.system.pushed (node ∷ []),
              ));
        })
    where
      fewer : (a c : ℕ) → a ≤ c → (a - 1 < c) ⊎ (c ≡ 0)
      fewer a zero h = inr refl
      fewer a (suc c) h = inl (omega (arith, h))
  Step-IsSignalled p r (finish before after e same) awake q =
      subst
        (λ (t : System).
          IsSignalled (length work) consumers
            (record { system = t; readers = p.readers - consumers; writers = p.writers }))
        (sym same)
        (record {
          within = omega (arith, q.within);
          no_more = q.no_more;
          reader = inr (none_asleep p.system.consumers);
          ends = λ all. omega (arith, q.within, q.no_more);
          writer = q.writer;
        })
    where
      none_asleep : (c : ℕ) → (p.readers - consumers < c) ⊎ (c ≡ 0)
      none_asleep zero = inr refl
      none_asleep (suc c) = inl (omega (arith, q.within, q.no_more))
  Step-IsSignalled p r (get node left list e used popped same) awake q =
      subst
        (λ (t : System).
          IsSignalled (length work) consumers
            (record { system = t; readers = p.readers; writers = λ k. false }))
        (sym same)
        (record {
          within = q.within;
          no_more = q.no_more;
          reader = inr (inl awake);
          ends = q.ends;
          writer = λ empty k. refl;
        })
  Step-IsSignalled p r (leave left e empty all same) awake q =
      subst
        (λ (t : System).
          IsSignalled (length work) consumers
            (record { system = t; readers = p.readers; writers = p.writers }))
        (sym same)
        (record {
          within = omega (arith, awake, e);
          no_more = omega (arith, q.no_more, e);
          reader = inl (counter-IsEmpty p.system r empty);
          ends = q.ends;
          writer = q.writer;
        })

  -- A thread that waits for room does not find an empty list.
  not_empty :
      (s : System) (r : IsRunning mem_size capacity (length work) consumers work s)
      (before after : List Producer) (node : ℕ) (rest : List ℕ)
      → s.producers ≡ before ++ working (node ∷ rest) ∷ after
      → ltb s.list.size (mem_size node) ≡ true
      → IsEmpty s
      → ⊥
  not_empty s r before after node rest e short empty =
      let there =
        ap (λ (ps : List Producer). count node (pending ps)) e
        ∙ count-among node before after (node ∷ rest) in
      let small : mem_size node ≤ capacity =
        fits node (omega (arith, there, count-here node rest, r.conserved node)) in
      let none_left : length r.items ≡ 0 =
        omega (
          arith,
          empty,
          ap (λ (l : List ℕ). length l) r.in_order,
          length-append s.popped r.items,
        ) in
      omega (
        arith,
        small,
        ltb→lt s.list.size (mem_size node) short,
        r.queue.room,
        no_bytes r.items none_left,
      )
    where
      no_bytes : (items : List ℕ) → length items ≡ 0 → total mem_size items ≡ 0
      no_bytes [] h = refl
      no_bytes (n ∷ ns) h = absurd (omega (arith, h))

  pub Sleep-IsSignalled :
      (p q : Sleeping)
      → IsRunning mem_size capacity (length work) consumers work p.system
      → Sleep mem_size (length work) p q
      → IsSignalled (length work) consumers p
      → IsSignalled (length work) consumers q
  Sleep-IsSignalled p q r (wait_read awake empty unclosed same) k =
      subst (IsSignalled (length work) consumers) (sym same) (record {
        within = omega (arith, awake);
        no_more = k.no_more;
        reader = inl (counter-IsEmpty p.system r empty);
        ends = λ all. absurd (ground (arith, all, r.ends, unclosed));
        writer = k.writer;
      })
  Sleep-IsSignalled p q r (wait_write before after node rest e awake short same) k =
      subst (IsSignalled (length work) consumers) (sym same) (record {
        within = k.within;
        no_more = k.no_more;
        reader = k.reader;
        ends = k.ends;
        writer = λ empty. absurd (not_empty p.system r before after node rest e short empty);
      })

  pub Sleep-system : (p q : Sleeping) → Sleep mem_size (length work) p q → q.system ≡ p.system
  Sleep-system p q (wait_read awake empty unclosed same) = ap (λ (x : Sleeping). x.system) same
  Sleep-system p q (wait_write before after node rest e awake short same) =
      ap (λ (x : Sleeping). x.system) same

  -- Nobody sleeps twice without a signal, and a step gives one to each thread at most.
  pub Sleep-asleep :
      (p q : Sleeping)
      → IsRunning mem_size capacity (length work) consumers work p.system
      → Sleep mem_size (length work) p q
      → q.readers + asleep (length work) q.writers ≡ 1 + p.readers + asleep (length work) p.writers
  Sleep-asleep p q r (wait_read awake empty unclosed same) = rw (same) (omega arith)
  Sleep-asleep p q r (wait_write before after node rest e awake short same) =
      let inside : length before < length work = omega (
        arith,
        r.everyone,
        ap (λ (ps : List Producer). length ps) e,
        length-append before (working (node ∷ rest) ∷ after),
      ) in
      rw (same) (omega (arith, asleep-more (length work) (length before) p.writers inside awake))
