-- ===== src/Pipeline.antt =====
-- 2df.c, idelta.c, rejpeg.c: who uses an image, which `link` of its node counts, from its decoding to its
-- delta. The threads come in any order; what waits for the buffer's lock goes in between.
pub mod Counts
pub mod Later
pub mod Keeps
pub mod Safety
pub mod Promise
pub mod Progress
use im_dedup_plus.Prelude.{
  ℕ, zero, suc, ◌+◌, ◌^◌, u64, sub64, Bool, true, false, ◌==◌, ltb, ◌&&◌, if◌then◌else◌,
}
use im_dedup_plus.Prelude.{Option, none, some, List, [], ◌∷◌, ◌++◌, length, take}
use im_dedup_plus.Queue.Chain.{count}
use im_dedup_plus.Buffer.{Buffer, init_buffer, insert_to_buffer, move_in_buffer}
use im_dedup_plus.Buffer.Outcome.{Run, done, null_pointer, out_of_fuel, ◌>>=◌}

-- How far the work on an image is: before `insert_to_buffer`, in the loop over the features, before
-- `move_in_buffer`, with `dedup_thread`, with `rejpeg_thread`; before its file is written as it is, where
-- it has no base; over.
pub data Job : Type 0 where
  inserting : (target : ℕ) → Job
  comparing : (target : ℕ) → Job
  refilling : (target base : ℕ) → Job
  detected : (target base : ℕ) → Job
  deduped : (target : ℕ) → Job
  storing : (target : ℕ) → Job
  finished : Job

-- `link` of each node, the nodes there are, those that were in the buffer, and the work.
pub record Uses : Type 0 where
  pub link : ℕ → ℕ
  pub seen : List ℕ
  pub known : List ℕ
  pub jobs : List Job

unfoldable pub set_link : ℕ → ℕ → (ℕ → ℕ) → ℕ → ℕ
set_link node count link n = if node == n then count else link n

unfoldable pub hold : ℕ → (ℕ → ℕ) → ℕ → ℕ
unfolding set_link
hold node link = set_link node (u64 (link node + 1)) link

unfoldable pub release : ℕ → (ℕ → ℕ) → ℕ → ℕ
unfolding set_link
release node link = set_link node (sub64 (link node) 1) link

abbrev pub job_at : ℕ → List Job → Option Job
job_at i [] = none
job_at zero (j ∷ jobs) = some j
job_at (suc i) (j ∷ jobs) = job_at i jobs

abbrev pub set_job : ℕ → Job → List Job → List Job
set_job i j [] = []
set_job zero j (k ∷ jobs) = j ∷ jobs
set_job (suc i) j (k ∷ jobs) = k ∷ set_job i j jobs

-- A new node, or some image goes on: with the base that was chosen for it, if any.
pub data Event : Type 0 where
  decode : (target : ℕ) → Event
  proceed : (i : ℕ) → (base : Option ℕ) → Event

-- `detect_a_single_img` with a base: from the feature tables, which only have nodes that were in the buffer.
unfoldable pub hold_base : ℕ → (target base : ℕ) → Uses → Uses
unfolding hold
hold_base i target base u =
    if ltb 0 (count base u.known)
    then record u { link = hold base u.link; jobs = set_job i (refilling target base) u.jobs }
    else u

-- And without: `detect_thread` then writes the file of the image, and has no hold on it.
unfoldable pub drop_target : ℕ → (target : ℕ) → Uses → Uses
unfolding release
drop_target i target u = record u {
  link = release target u.link;
  jobs = set_job i (storing target) u.jobs;
}

-- When `detect_thread` has written it.
unfoldable pub end_store : ℕ → Uses → Uses
end_store i u = record u { jobs = set_job i finished u.jobs }

-- `dedup_thread`, when the instructions are there.
unfoldable pub release_base : ℕ → (target base : ℕ) → Uses → Uses
unfolding release
release_base i target base u = record u {
  link = release base u.link;
  jobs = set_job i (deduped target) u.jobs;
}

-- `rejpeg_thread`, when the blocks are coded.
unfoldable pub release_target : ℕ → (target : ℕ) → Uses → Uses
unfolding release
release_target i target u = record u {
  link = release target u.link;
  jobs = set_job i finished u.jobs;
}

-- What a thread does without the buffer's lock.
unfoldable pub go_on : ℕ → Option ℕ → Option Job → Uses → Uses
unfolding hold_base drop_target end_store release_base release_target
go_on i none (some (comparing t)) u = drop_target i t u
go_on i (some b) (some (comparing t)) u = hold_base i t b u
go_on i base (some (detected t b)) u = release_base i t b u
go_on i base (some (deduped t)) u = release_target i t u
go_on i base (some (storing t)) u = end_store i u
go_on i base (some (inserting t)) u = u
go_on i base (some (refilling t b)) u = u
go_on i base (some finished) u = u
go_on i base none u = u

-- `malloc` gives a node that is not there yet, as long as there are fewer than `images`.
unfoldable pub act : ℕ → Event → Uses → Uses
unfolding set_link go_on
act images (decode t) u =
    if (count t u.seen == 0) && ltb (length u.jobs) images
    then record u {
      link = set_link t 1 u.link;
      seen = t ∷ u.seen;
      jobs = u.jobs ++ inserting t ∷ [];
    }
    else u
act images (proceed i base) u = go_on i base (job_at i u.jobs) u

unfoldable pub acts : ℕ → List Event → Uses → Uses
unfolding act
acts images [] u = u
acts images (e ∷ log) u = acts images log (act images e u)

pub record Pipeline : Type 0 where
  pub buf : Buffer
  pub uses : Uses

-- A thread without the lock; or one that takes it, with a bound on its rounds, with what the others do
-- until it gives it back, and with how much of that is done at each round.
pub data PipelineStep : Type 0 where
  unlocked : Event → PipelineStep
  locked : (i fuel : ℕ) → (log : List Event) → (at : ℕ → ℕ) → PipelineStep

-- The links that the rounds find.
unfoldable pub links_at : ℕ → List Event → (ℕ → ℕ) → Uses → ℕ → ℕ → ℕ
unfolding acts
links_at images log at u round = (acts images (take (at round) log) u).link

-- `detect_a_single_img` puts its image into the buffer.
unfoldable pub insert_target :
    ℕ → (ℕ → ℕ) → ℕ → ℕ → List Event → (ℕ → ℕ) → (target : ℕ) → Pipeline → Run Pipeline
unfolding links_at
insert_target images node_size i fuel log at target p = do
  b ← insert_to_buffer node_size (links_at images log at p.uses) fuel target p.buf
  let u = acts images log p.uses
  done (record {
    buf = b;
    uses = record u { known = target ∷ u.known; jobs = set_job i (comparing target) u.jobs };
  })

-- And has its base there.
unfoldable pub move_base :
    ℕ → (ℕ → ℕ) → ℕ → ℕ → List Event → (ℕ → ℕ) → (target base : ℕ) → Pipeline → Run Pipeline
unfolding links_at
move_base images node_size i fuel log at target base p = do
  b ← move_in_buffer node_size (links_at images log at p.uses) fuel base p.buf
  let u = acts images log p.uses
  done (record { buf = b; uses = record u { jobs = set_job i (detected target base) u.jobs } })

unfoldable pub take_lock :
    ℕ → (ℕ → ℕ) → ℕ → ℕ → List Event → (ℕ → ℕ) → Option Job → Pipeline → Run Pipeline
unfolding insert_target move_base
take_lock images node_size i fuel log at (some (inserting t)) p =
    insert_target images node_size i fuel log at t p
take_lock images node_size i fuel log at (some (refilling t b)) p =
    move_base images node_size i fuel log at t b p
take_lock images node_size i fuel log at (some (comparing t)) p = done p
take_lock images node_size i fuel log at (some (detected t b)) p = done p
take_lock images node_size i fuel log at (some (deduped t)) p = done p
take_lock images node_size i fuel log at (some (storing t)) p = done p
take_lock images node_size i fuel log at (some finished) p = done p
take_lock images node_size i fuel log at none p = done p

unfoldable pub step : ℕ → (ℕ → ℕ) → PipelineStep → Pipeline → Run Pipeline
unfolding take_lock
step images node_size (unlocked e) p = done (record p { uses = act images e p.uses })
step images node_size (locked i fuel log at) p =
    take_lock images node_size i fuel log at (job_at i p.uses.jobs) p

unfoldable pub steps : ℕ → (ℕ → ℕ) → List PipelineStep → Pipeline → Run Pipeline
unfolding step
steps images node_size [] p = done p
steps images node_size (s ∷ more) p = do
  q ← step images node_size s p
  steps images node_size more q

-- No image yet. What a node is decoded with is its data.
unfoldable pub start_road : ℕ → (next pre : ℕ → Option ℕ) → Pipeline
unfolding init_buffer
start_road capacity next pre = record {
  buf = init_buffer capacity next pre (λ n. true);
  uses = record { link = λ n. 0; seen = []; known = []; jobs = [] };
}
