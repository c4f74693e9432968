-- ===== src/Tests/Pipelines.antt =====
-- 2df.c, idelta.c, rejpeg.c with buffer.c: two images, of which the first is the base of the second.
use im_dedup_plus.Prelude.{ℕ, suc, length, ◌≡◌, refl, arith, true, false, none, some, List, [], ◌∷◌}
use im_dedup_plus.Buffer.{insert_to_buffer, move_in_buffer}
use im_dedup_plus.Buffer.Outcome.{Run, done, null_pointer, out_of_fuel}
use im_dedup_plus.Pipeline.{
  detected, storing, comparing, job_at, set_job, decode, proceed, acts, Pipeline, PipelineStep,
  unlocked, locked, step, steps, start_road,
}
use im_dedup_plus.Pipeline.Counts.{holds, sum}
use im_dedup_plus.Pipeline.Safety.{IsSound, reached-IsSound}
use im_dedup_plus.Pipeline.Progress.{step_ends}
use im_dedup_plus.Pipeline.Promise.{steps-filled, steps-links}

abbrev same_size : ℕ → ℕ
same_size n = 40

abbrev empty : Pipeline
unfolding start_road
empty = start_road 100 (λ n. none) (λ n. none)

-- The second image is decoded while the first goes into the buffer; the first is then a base of the
-- second, and its own work ends while the second has it moved.
abbrev orders : List PipelineStep
orders =
    unlocked (decode 1)
    ∷ locked 0 1 (decode 2 ∷ []) (λ round. round)
    ∷ locked 1 1 [] (λ round. 0)
    ∷ unlocked (proceed 1 (some 1))
    ∷ locked 1 1 (proceed 0 none ∷ []) (λ round. 0)
    ∷ []

abbrev reached_by : Run Pipeline → Pipeline
unfolding start_road
reached_by (done p) = p
reached_by null_pointer = empty
reached_by out_of_fuel = empty

abbrev reached : Pipeline
unfolding steps start_road
reached = reached_by (steps 9 same_size orders empty)

reached_run : steps 9 same_size orders (start_road 100 (λ n. none) (λ n. none)) ≡ done reached
unfolding steps start_road reached insert_to_buffer move_in_buffer
reached_run = refl

filled_example : reached.buf.filled 1 ≡ true
unfolding reached insert_to_buffer move_in_buffer
filled_example =
    steps-filled 9 same_size 100 orders (λ n. none) (λ n. none) reached (omega arith)
      (λ n. omega arith) (omega arith) reached_run 1 (detected 2 1) 1 refl (omega arith)

links_example : reached.uses.link 1 ≡ sum (holds 1) reached.uses.jobs
links_example =
    steps-links 9 same_size 100 orders (λ n. none) (λ n. none) reached (omega arith)
      (λ n. omega arith) (omega arith) reached_run 1

-- The first image is compared, and the second waits.
abbrev waiting : Pipeline
unfolding steps start_road
waiting = reached_by (
    steps 9 same_size (unlocked (decode 1) ∷ locked 0 1 (decode 2 ∷ []) (λ round. round) ∷ [])
      empty)

waiting_run :
    steps 9 same_size
      (unlocked (decode 1) ∷ locked 0 1 (decode 2 ∷ []) (λ round. round) ∷ [])
      (start_road 100 (λ n. none) (λ n. none))
    ≡ done waiting
unfolding steps start_road waiting insert_to_buffer move_in_buffer
waiting_run = refl

abbrev waiting-IsSound : IsSound 9 same_size 100 waiting
waiting-IsSound =
    reached-IsSound 9 same_size 100 (omega arith) (λ n. omega arith) (omega arith)
      (unlocked (decode 1) ∷ locked 0 1 (decode 2 ∷ []) (λ round. round) ∷ []) (λ n. none)
      (λ n. none) waiting waiting_run

insertion_example :
    (p' : Pipeline) × (step 9 same_size
        (locked 1 (suc (length waiting-IsSound.items)) [] (λ round. 0))
        waiting
      ≡ done p')
    × (p'.uses.jobs ≡ set_job 1 (comparing 2) (acts 9 [] waiting.uses).jobs)
    × (p'.buf.filled 2 ≡ true)
unfolding waiting insert_to_buffer move_in_buffer
insertion_example =
    step_ends 9 same_size 100 1 2 [] (λ round. 0) waiting waiting-IsSound (λ n. false) 1
      (omega arith) (λ n. omega arith) (omega arith) refl (λ n h. absurd (cc h)) (omega arith)
      (omega arith)

-- While `detect_thread` has still to write the file of the first image, which has no base, the third
-- needs the room.
abbrev storing_orders : List PipelineStep
storing_orders =
    unlocked (decode 1)
    ∷ locked 0 1 [] (λ round. 0)
    ∷ unlocked (proceed 0 none)
    ∷ unlocked (decode 2)
    ∷ locked 1 1 [] (λ round. 0)
    ∷ unlocked (decode 3)
    ∷ locked 2 2 [] (λ round. 0)
    ∷ []

abbrev too_late : Pipeline
unfolding steps start_road
too_late = reached_by (steps 9 same_size storing_orders empty)

stored_too_late : (job_at 0 too_late.uses.jobs ≡ some (storing 1)) × (too_late.buf.filled 1 ≡ false)
unfolding too_late insert_to_buffer move_in_buffer
stored_too_late = (refl, refl)
