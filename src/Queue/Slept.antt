-- ===== src/Queue/Slept.antt =====
-- How often a thread at `dedupList` fell asleep.
use im_dedup_plus.Prelude.{ℕ, suc, ◌+◌, ◌*◌, ◌^◌, ◌≤◌, ◌<◌, ◌≡◌, inl, refl, sym, subst, arith}
use im_dedup_plus.Prelude.{Option, length, List}
use im_dedup_plus.Queue.Chain.{count, IsSimple}
use im_dedup_plus.Queue.Threads.{System, start, Reach, here, step}
use im_dedup_plus.Queue.Signals.{Sleeping, Turns, first, make, sleep, all_awake}
use im_dedup_plus.Queue.Awake.{
  asleep, asleep-at_most, IsSignalled, Step-IsSignalled, Sleep-IsSignalled, Sleep-system,
  Sleep-asleep,
}
use im_dedup_plus.Queue.Invariant.{concat, IsRunning, Reach-IsRunning}

module _ (mem_size : ℕ → ℕ) (capacity consumers : ℕ) (work : List (List ℕ)) (next : ℕ → Option ℕ)
    (large : (n : ℕ) → 16 ≤ mem_size n) (bounded : capacity < 2 ^ 36) (few : length work < 2 ^ 8)
    (simple : IsSimple (concat work))
    (fits : (n : ℕ) → 1 ≤ count n (concat work) → mem_size n ≤ capacity) where
  -- What holds of the threads that sleep, and how often one fell asleep.
  pub record IsReached (p : Sleeping) (steps sleeps : ℕ) : Type 0 where
    pub reach : Reach mem_size (length work) (start capacity next work consumers) p.system steps
    pub signalled : IsSignalled (length work) consumers p
    pub slept :
        sleeps ≤ p.readers + asleep (length work) p.writers + (length work + consumers) * steps

  pub running :
      {s : System} {steps : ℕ}
      → Reach mem_size (length work) (start capacity next work consumers) s steps
      → IsRunning mem_size capacity (length work) consumers work s
  running = Reach-IsRunning mem_size capacity consumers work large bounded few simple next

  pub Turns-IsReached :
      {p : Sleeping} {steps sleeps : ℕ}
      → Turns mem_size
          (length work)
          consumers
          (all_awake capacity next work consumers)
          p
          steps
          sleeps
      → IsReached p steps sleeps
  unfolding all_awake start
  Turns-IsReached first = record {
    reach = here;
    signalled = record {
      within = omega arith;
      no_more = omega arith;
      reader = inl refl;
      ends = λ all. refl;
      writer = λ empty k. refl;
    };
    slept = omega arith;
  }
  Turns-IsReached (make {q} {steps} {sleeps} {t} before st awake) =
      let h = Turns-IsReached before in
      record {
        reach = step h.reach st;
        signalled =
            Step-IsSignalled mem_size capacity consumers work fits q (running h.reach) st awake
              h.signalled;
        slept = omega (
          arith,
          h.slept,
          h.signalled.within,
          h.signalled.no_more,
          asleep-at_most (length work) q.writers,
          more (length work + consumers) steps,
        );
      }
    where
      more : (a n : ℕ) → a * suc n ≡ a * n + a
      more a n = grind arith
  Turns-IsReached (sleep {q} {r} {steps} before falls) =
      let h = Turns-IsReached before in
      let same = Sleep-system mem_size capacity consumers work fits q r falls in
      record {
        reach =
            subst
              (λ (s : System).
                Reach mem_size (length work) (start capacity next work consumers) s steps)
              (sym same) h.reach;
        signalled =
            Sleep-IsSignalled mem_size capacity consumers work fits q r (running h.reach) falls
              h.signalled;
        slept = omega (
          arith,
          h.slept,
          Sleep-asleep mem_size capacity consumers work fits q r (running h.reach) falls,
        );
      }
