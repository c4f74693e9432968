-- ===== src/Queue/Counted.antt =====
-- How many steps the threads at the two ends of a list have made.
use im_dedup_plus.Prelude.{ℕ, suc, ◌+◌, ◌≡◌, sym, ap, subst, ◌∙◌, arith}
use im_dedup_plus.Prelude.{Option, length, length-append, List, [], ◌∷◌, ◌++◌}
use im_dedup_plus.Queue.Threads.{
  Producer, working, ended, System, start, Step, put, finish, get, leave, Reach, here, step,
}
use im_dedup_plus.Queue.Invariant.{
  pending, number_ended, concat, pending-append, ended-middle, pending-start, ended-start,
}

-- The steps made so far, and what is still to be put in.
pub record IsCounted (consumers : ℕ) (work : List (List ℕ)) (s : System) (steps : ℕ) : Type 0 where
  pub made :
      steps + s.consumers ≡ length s.pushed + length s.popped + number_ended s.producers + consumers
  pub put_in : length (pending s.producers) + length s.pushed ≡ length (concat work)

length-pending :
    (before after : List Producer) (p : Producer)
    → length (pending (before ++ p ∷ after))
      ≡ length (pending before) + length (pending (p ∷ after))
length-pending before after p =
    ap (λ (l : List ℕ). length l) (pending-append before (p ∷ after))
    ∙ length-append (pending before) (pending (p ∷ after))

-- What a list of producers has of both, from how it is made up.
module _ (s : System) (before after : List Producer) (p : Producer)
    (e : s.producers ≡ before ++ p ∷ after) where
  ended-of : number_ended s.producers ≡ number_ended before + number_ended (p ∷ after)
  ended-of = ap number_ended e ∙ ended-middle before after p

  pending-of : length (pending s.producers) ≡ length (pending before) + length (pending (p ∷ after))
  pending-of = ap (λ (ps : List Producer). length (pending ps)) e ∙ length-pending before after p

module _ (mem_size : ℕ → ℕ) (consumers threads : ℕ) (work : List (List ℕ)) where
  Step-IsCounted :
      {s t : System} {steps : ℕ}
      → Step mem_size threads s t
      → IsCounted consumers work s steps
      → IsCounted consumers work t (suc steps)
  Step-IsCounted {s = s} {steps = n} (put before after node rest list e fits p same) c =
      subst (λ (t : System). IsCounted consumers work t (suc n)) (sym same)
        (record {
          made = omega (
            arith,
            c.made,
            ended-of s before after (working (node ∷ rest)) e,
            ended-middle before after (working rest),
            length-append s.pushed (node ∷ []),
          );
          put_in = omega (
            arith,
            c.put_in,
            pending-of s before after (working (node ∷ rest)) e,
            length-pending before after (working rest),
            length-append s.pushed (node ∷ []),
          );
        })
  Step-IsCounted {s = s} {steps = n} (finish before after e same) c =
      subst (λ (t : System). IsCounted consumers work t (suc n)) (sym same)
        (record {
          made = omega (
            arith,
            c.made,
            ended-of s before after (working []) e,
            ended-middle before after ended,
          );
          put_in = omega (
            arith,
            c.put_in,
            pending-of s before after (working []) e,
            length-pending before after ended,
          );
        })
  Step-IsCounted {s = s} {steps = n} (get node left list some_left used p same) c =
      subst (λ (t : System). IsCounted consumers work t (suc n)) (sym same)
        (record {
          made = omega (arith, c.made, length-append s.popped (node ∷ []));
          put_in = c.put_in;
        })
  Step-IsCounted {s = s} {steps = n} (leave left some_left empty all same) c =
      subst (λ (t : System). IsCounted consumers work t (suc n)) (sym same)
        (record { made = omega (arith, c.made, some_left); put_in = c.put_in })

  pub Reach-IsCounted :
      (capacity : ℕ) (next : ℕ → Option ℕ) {s : System} {steps : ℕ}
      → Reach mem_size threads (start capacity next work consumers) s steps
      → IsCounted consumers work s steps
  unfolding start
  Reach-IsCounted capacity next here = record {
    made = omega (arith, ended-start work);
    put_in = omega (arith, ap (λ (l : List ℕ). length l) (pending-start work));
  }
  Reach-IsCounted capacity next (step r st) = Step-IsCounted st (Reach-IsCounted capacity next r)
