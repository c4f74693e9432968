-- ===== src/Pipeline/Promise.antt =====
-- 2df.c, idelta.c, rejpeg.c with buffer.c: what the threads rely on, whatever their order.
use im_dedup_plus.Prelude.{ℕ, ◌^◌, ◌≤◌, ◌<◌, ◌≡◌, arith, true, Option, some, List}
use im_dedup_plus.Buffer.Outcome.{done}
use im_dedup_plus.Pipeline.{Job, job_at, Pipeline, PipelineStep, steps, start_road}
use im_dedup_plus.Pipeline.Counts.{holds, needs, sum, sum-at}
use im_dedup_plus.Pipeline.Safety.{reached-IsSound}

module _ (images : ℕ) (node_size : ℕ → ℕ) (capacity : ℕ) (ss : List PipelineStep)
    (next pre : ℕ → Option ℕ) (p : Pipeline) where
  -- For fewer than 2^63 images of positive sizes and a capacity below 2^64: where the threads come to
  -- some state, in any order, each image that its work needs has its data. That is the target from when
  -- it is in the buffer until `rejpeg_thread` is through with it, and the base from when
  -- `move_in_buffer` is through until `dedup_thread` is. The file that `detect_thread` writes of an image
  -- without a base is left out: the image has no hold then.
  pub steps-filled :
      images < 2 ^ 63
      → ((n : ℕ) → 0 < node_size n)
      → capacity < 2 ^ 64
      → steps images node_size ss (start_road capacity next pre) ≡ done p
      → (i : ℕ) (j : Job) (n : ℕ) → job_at i p.uses.jobs ≡ some j
      → 1 ≤ needs n j
      → p.buf.filled n ≡ true
  steps-filled few large bounded run i j n e need =
      let q = reached-IsSound images node_size capacity few large bounded ss next pre p run in
      q.buffer.content.full n (q.there n (omega (arith, need, sum-at (needs n) i j p.uses.jobs e)))

  -- For fewer than 2^63 images of positive sizes and a capacity below 2^64: where the threads come to some
  -- state, in any order, `link` of each node is how often the work on the images holds it.
  pub steps-links :
      images < 2 ^ 63
      → ((n : ℕ) → 0 < node_size n)
      → capacity < 2 ^ 64
      → steps images node_size ss (start_road capacity next pre) ≡ done p
      → (n : ℕ) → p.uses.link n ≡ sum (holds n) p.uses.jobs
  steps-links few large bounded run n =
      (reached-IsSound images node_size capacity few large bounded ss next pre p run).counted.links
        n
