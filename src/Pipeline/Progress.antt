-- ===== src/Pipeline/Progress.antt =====
-- 2df.c with buffer.c: a thread that puts its image into the buffer comes to the end of that.
use im_dedup_plus.Prelude.{
  ℕ, suc, ◌+◌, ◌^◌, ◌≤◌, ◌<◌, ◌≡◌, refl, arith, Bool, true, some, length, List, ◌∷◌,
}
use im_dedup_plus.Queue.Chain.{count}
use im_dedup_plus.Buffer.Outcome.{done, ◌>>=◌}
use im_dedup_plus.Buffer.Ends.{free_total}
use im_dedup_plus.Buffer.Success.{insert_to_buffer_ends}
use im_dedup_plus.Pipeline.{
  inserting, comparing, set_job, job_at, Event, acts, Pipeline, locked, links_at, insert_target,
  take_lock, step,
}
use im_dedup_plus.Pipeline.Counts.{needs, arrives, sum, sum-at, one-same}
use im_dedup_plus.Pipeline.Keeps.{acts-Follows, links_at-needs}
use im_dedup_plus.Pipeline.Safety.{IsSound}

module _ (images : ℕ) (node_size : ℕ → ℕ) (capacity : ℕ) (i t : ℕ) (log : List Event) (at : ℕ → ℕ)
    (p : Pipeline) (q : IsSound images node_size capacity p) (free : ℕ → Bool) (keeper : ℕ) where
  -- For fewer than 2^63 images of positive sizes and a capacity below 2^64, in a state whose links and
  -- buffer are right: where an image waits to go into the buffer, the data of some image are needed when
  -- its thread gives the lock back, and the nodes whose links every round finds at 0 make room with what
  -- is left, the thread comes to its end within as many rounds as the buffer has nodes and one, whatever
  -- the others do meanwhile. The image then goes through the feature tables.
  pub step_ends :
      images < 2 ^ 63
      → ((n : ℕ) → 0 < node_size n)
      → capacity < 2 ^ 64
      → job_at i p.uses.jobs ≡ some (inserting t)
      → ((n : ℕ) → free n ≡ true → (round : ℕ) → links_at images log at p.uses round n ≡ 0)
      → 1 ≤ sum (needs keeper) (acts images log p.uses).jobs
      → node_size t ≤ p.buf.size + free_total node_size free q.items
      → (p' : Pipeline) × (step images node_size (locked i (suc (length q.items)) log at) p
          ≡ done p')
        × (p'.uses.jobs ≡ set_job i (comparing t) (acts images log p.uses).jobs)
        × (p'.buf.filled t ≡ true)
  unfolding step take_lock insert_target
  step_ends few large bounded e unused needed fits =
      let soon = acts-Follows images few log p.uses q.counted in
      let fresh : count t p.uses.known ≡ 0 = omega (
        arith,
        q.counted.fresh t,
        q.counted.once t,
        sum-at (arrives t) i (inserting t) p.uses.jobs e,
        one-same t,
      ) in
      let (b, items', run, right, there, kept) =
        insert_to_buffer_ends node_size capacity (λ n. true) p.uses.known q.items
          (links_at images log at p.uses) free t keeper p.buf large bounded unused
          (links_at-needs images few log at p.uses keeper q.counted needed)
          (q.there keeper (omega (arith, needed, soon.need keeper))) fits fresh refl q.buffer in
      let u = acts images log p.uses in
      (
        record {
          buf = b;
          uses = record u { known = t ∷ u.known; jobs = set_job i (comparing t) u.jobs };
        },
        rw (e, take_lock, insert_target, run, ◌>>=◌) refl,
        refl,
        right.content.full t there,
      )
