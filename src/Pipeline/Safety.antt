-- ===== src/Pipeline/Safety.antt =====
-- 2df.c, idelta.c, rejpeg.c with buffer.c: the data of the images that are worked on is there.
use im_dedup_plus.Prelude.{ℕ, ◌+◌, ◌^◌, ◌≤◌, ◌<◌, ◌≡◌, refl, sym, subst, arith, true}
use im_dedup_plus.Prelude.{Option, none, some, length, List, [], ◌∷◌}
use im_dedup_plus.Queue.Chain.{count, count-tail}
use native.Mathlib.Decide.{ℕ_discrete}
use im_dedup_plus.Buffer.{insert_to_buffer, move_in_buffer}
use im_dedup_plus.Buffer.Outcome.{Run, done, null_pointer, out_of_fuel, ◌>>=◌}
use im_dedup_plus.Buffer.Room.{IsBuffer, init_buffer-IsBuffer}
use im_dedup_plus.Buffer.Ends.{Kept}
use im_dedup_plus.Buffer.Keep.{insert_to_buffer-Keeps, move_in_buffer-Keeps}
use im_dedup_plus.Pipeline.{
  Job, inserting, comparing, refilling, detected, deduped, storing, finished, Uses, job_at, set_job,
  Event, acts, Pipeline, PipelineStep, unlocked, locked, links_at, insert_target, move_base,
  take_lock, step, steps, start_road,
}
use im_dedup_plus.Pipeline.Counts.{
  one, one-same, needs, arrives, returns, sum, sum-at, sum-set_job, IsCounted, changed,
}
use im_dedup_plus.Pipeline.Later.{Follows}
use im_dedup_plus.Pipeline.Keeps.{act-Follows, acts-Follows, links_at-needs}

-- What holds of the pipeline, where a step comes to one.
abbrev Each : (Pipeline → Type 0) → Run Pipeline → Type 0
Each P (done p) = P p
Each P null_pointer = Unit
Each P out_of_fuel = Unit

Each-bind :
    {A : Type 0} (P : Pipeline → Type 0) (r : Run A) (f : A → Run Pipeline)
    → ((a : A) → r ≡ done a → Each P (f a))
    → Each P (r >>= f)
Each-bind P (done a) f h = h a refl
Each-bind P null_pointer f h = tt
Each-bind P out_of_fuel f h = tt

count-length : (a : ℕ) (ns : List ℕ) → count a ns ≤ length ns
count-length a [] = omega arith
count-length a (n ∷ ns) = ground (arith, count-length a ns)

-- `link` is right, the buffer is, and what the work needs is in it.
pub record IsSound (images : ℕ) (node_size : ℕ → ℕ) (capacity : ℕ) (p : Pipeline) : Type 0 where
  pub counted : IsCounted images p.uses
  pub items : List ℕ
  pub buffer : IsBuffer node_size capacity (λ n. true) p.uses.known items p.buf
  pub there : (n : ℕ) → 1 ≤ sum (needs n) p.uses.jobs → 1 ≤ count n items

module _ (images : ℕ) (node_size : ℕ → ℕ) (capacity : ℕ) (few : images < 2 ^ 63)
    (large : (n : ℕ) → 0 < node_size n) (bounded : capacity < 2 ^ 64) where
  module _ (i fuel : ℕ) (log : List Event) (at : ℕ → ℕ) (p : Pipeline)
      (q : IsSound images node_size capacity p) where
    after : Uses
    after = acts images log p.uses

    soon : Follows images p.uses after
    unfolding after
    soon = acts-Follows images few log p.uses q.counted

    -- What is needed at the end without the node that just came stayed in the buffer.
    stays :
        (item : ℕ) (items' : List ℕ) (f : ℕ → ℕ)
        → 1 ≤ count item items'
        → Kept (links_at images log at p.uses) q.items items'
        → ((n : ℕ) → f n ≡ sum (needs n) after.jobs + one item n)
        → (n : ℕ) → 1 ≤ f n
        → 1 ≤ count n items'
    unfolding after
    stays item items' f came kept total n h = elim (ℕ_discrete item n) [
      | yes e ↦ subst (λ (x : ℕ). 1 ≤ count x items') e came
      | no ne ↦
          let needed : 1 ≤ sum (needs n) after.jobs = ground (arith, h, total n) in
          kept n (links_at-needs images few log at p.uses n q.counted needed)
            (q.there n (omega (arith, needed, soon.need n)))
    ]

    inserting-IsSound :
        (t : ℕ)
        → job_at i p.uses.jobs ≡ some (inserting t)
        → Each
            (IsSound images node_size capacity)
            (insert_target images node_size i fuel log at t p)
    unfolding insert_target after
    inserting-IsSound t e =
        Each-bind (IsSound images node_size capacity)
          (insert_to_buffer node_size (links_at images log at p.uses) fuel t p.buf)
          (λ b. done (record {
            buf = b;
            uses = record after {
              known = t ∷ after.known;
              jobs = set_job i (comparing t) after.jobs;
            };
          }))
          (λ b run.
            let e' = soon.waits i t e in
            let new : count t p.uses.known ≡ 0 = omega (
              arith,
              q.counted.fresh t,
              q.counted.once t,
              sum-at (arrives t) i (inserting t) p.uses.jobs e,
              one-same t,
            ) in
            let (h, right, held) =
              insert_to_buffer-Keeps node_size capacity (λ n. true) p.uses.known large bounded
                (links_at images log at p.uses) fuel t q.items p.buf b q.buffer new refl run in
            record {
              counted =
                  changed images few after soon.counted i (inserting t) (comparing t) after.link
                    (t ∷ after.known) e' (λ n. refl) (λ n. ground arith) (λ n. omega arith)
                    (λ n k. omega (arith, k, count-tail n t after.known));
              items = h.items;
              buffer =
                  subst
                    (λ (ks : List ℕ). IsBuffer node_size capacity (λ n. true) (t ∷ ks) h.items b)
                    (sym soon.known) right;
              there =
                  stays t h.items (λ n. sum (needs n) (set_job i (comparing t) after.jobs)) held.0
                    held.1
                    (λ n.
                      omega
                        (arith, sum-set_job (needs n) i (inserting t) (comparing t) after.jobs e'));
            })

    refilling-IsSound :
        (t base : ℕ)
        → job_at i p.uses.jobs ≡ some (refilling t base)
        → Each
            (IsSound images node_size capacity)
            (move_base images node_size i fuel log at t base p)
    unfolding move_base after
    refilling-IsSound t base e =
        Each-bind (IsSound images node_size capacity)
          (move_in_buffer node_size (links_at images log at p.uses) fuel base p.buf)
          (λ b. done (record {
            buf = b;
            uses = record after { jobs = set_job i (detected t base) after.jobs };
          }))
          (λ b run.
            let e' = soon.refills i t base e in
            let known_base : 1 ≤ count base p.uses.known = q.counted.back base (
              omega
                (arith, sum-at (returns base) i (refilling t base) p.uses.jobs e, one-same base)) in
            let target_there : 1 ≤ count t q.items =
              q.there t
                (omega (arith, sum-at (needs t) i (refilling t base) p.uses.jobs e, one-same t)) in
            let (h, right, held) =
              move_in_buffer-Keeps node_size capacity (λ n. true) p.uses.known large bounded
                (links_at images log at p.uses) fuel base q.items p.buf b q.buffer known_base
                (omega (arith, target_there, count-length t q.items)) run in
            record {
              counted =
                  changed images few after soon.counted i (refilling t base) (detected t base)
                    after.link after.known e' (λ n. refl) (λ n. refl) (λ n. omega arith)
                    (λ n k. omega (arith, k));
              items = h.items;
              buffer =
                  subst (λ (ks : List ℕ). IsBuffer node_size capacity (λ n. true) ks h.items b)
                    (sym soon.known) right;
              there =
                  stays base h.items (λ n. sum (needs n) (set_job i (detected t base) after.jobs))
                    held.0 held.1
                    (λ n. omega (
                      arith,
                      sum-set_job (needs n) i (refilling t base) (detected t base) after.jobs e',
                    ));
            })

    take_lock-IsSound :
        (o : Option Job)
        → job_at i p.uses.jobs ≡ o
        → Each (IsSound images node_size capacity) (take_lock images node_size i fuel log at o p)
    unfolding take_lock
    take_lock-IsSound (some (inserting t)) e = inserting-IsSound t e
    take_lock-IsSound (some (refilling t base)) e = refilling-IsSound t base e
    take_lock-IsSound (some (comparing t)) e = q
    take_lock-IsSound (some (detected t base)) e = q
    take_lock-IsSound (some (deduped t)) e = q
    take_lock-IsSound (some (storing t)) e = q
    take_lock-IsSound (some finished) e = q
    take_lock-IsSound none e = q

  step-IsSound :
      (s : PipelineStep) (p : Pipeline)
      → IsSound images node_size capacity p
      → Each (IsSound images node_size capacity) (step images node_size s p)
  unfolding step
  step-IsSound (unlocked e) p q =
      let soon = act-Follows images few p.uses q.counted e in
      record {
        counted = soon.counted;
        items = q.items;
        buffer =
            subst (λ (ks : List ℕ). IsBuffer node_size capacity (λ n. true) ks q.items p.buf)
              (sym soon.known) q.buffer;
        there = λ n h. q.there n (omega (arith, h, soon.need n));
      }
  step-IsSound (locked i fuel log at) p q =
      take_lock-IsSound i fuel log at p q (job_at i p.uses.jobs) refl

  steps-IsSound :
      (ss : List PipelineStep) (p : Pipeline)
      → IsSound images node_size capacity p
      → Each (IsSound images node_size capacity) (steps images node_size ss p)
  unfolding steps
  steps-IsSound [] p q = q
  steps-IsSound (s ∷ ss) p q =
      Each-bind (IsSound images node_size capacity) (step images node_size s p)
        (λ p'. steps images node_size ss p')
        (λ p' run.
          steps-IsSound ss p'
            (subst (Each (IsSound images node_size capacity)) run (step-IsSound s p q)))

  start_road-IsSound :
      (next pre : ℕ → Option ℕ) → IsSound images node_size capacity (start_road capacity next pre)
  unfolding start_road
  start_road-IsSound next pre = record {
    counted = record {
      links = λ n. refl;
      few = omega arith;
      fresh = λ n. refl;
      once = λ n. omega arith;
      born = λ n h. h;
      back = λ n h. h;
    };
    items = [];
    buffer = init_buffer-IsBuffer node_size capacity next pre (λ n. true);
    there = λ n h. h;
  }

  pub reached-IsSound :
      (ss : List PipelineStep) (next pre : ℕ → Option ℕ) (p : Pipeline)
      → steps images node_size ss (start_road capacity next pre) ≡ done p
      → IsSound images node_size capacity p
  reached-IsSound ss next pre p run =
      subst (Each (IsSound images node_size capacity)) run
        (steps-IsSound ss (start_road capacity next pre) (start_road-IsSound next pre))
