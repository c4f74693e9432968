-- ===== src/Pipeline/Counts.antt =====
-- 2df.c, idelta.c, rejpeg.c: `link` beside the images that are worked on, while no thread has the
-- buffer's lock.
use im_dedup_plus.Prelude.{
  ℕ, zero, suc, ◌+◌, ◌*◌, ◌^◌, ◌≤◌, ◌<◌, ◌≡◌, ◌⊎◌, refl, ap, arith, ◌==◌, if◌then◌else◌, inl, inr,
}
use im_dedup_plus.Prelude.{Option, none, some, List, [], ◌∷◌, ◌++◌, length}
use im_dedup_plus.Queue.Chain.{count}
use im_dedup_plus.Buffer.Insert.{nought}
use im_dedup_plus.Pipeline.{
  Job, inserting, comparing, refilling, detected, deduped, storing, finished, Uses, set_link, hold,
  release, job_at, set_job,
}

abbrev pub one : ℕ → ℕ → ℕ
one node n = if node == n then 1 else 0

-- How often the work on an image counts for a node: in `link`, for its data to be there under a hold, as
-- a new node, and as one whose data may have gone.
abbrev pub holds : ℕ → Job → ℕ
holds n (inserting t) = one t n
holds n (comparing t) = one t n
holds n (refilling t b) = one t n + one b n
holds n (detected t b) = one t n + one b n
holds n (deduped t) = one t n
holds n (storing t) = 0
holds n finished = 0

abbrev pub needs : ℕ → Job → ℕ
needs n (inserting t) = 0
needs n (comparing t) = one t n
needs n (refilling t b) = one t n
needs n (detected t b) = one t n + one b n
needs n (deduped t) = one t n
needs n (storing t) = 0
needs n finished = 0

abbrev pub arrives : ℕ → Job → ℕ
arrives n (inserting t) = one t n
arrives n (comparing t) = 0
arrives n (refilling t b) = 0
arrives n (detected t b) = 0
arrives n (deduped t) = 0
arrives n (storing t) = 0
arrives n finished = 0

abbrev pub returns : ℕ → Job → ℕ
returns n (inserting t) = 0
returns n (comparing t) = 0
returns n (refilling t b) = one b n
returns n (detected t b) = 0
returns n (deduped t) = 0
returns n (storing t) = 0
returns n finished = 0

pub one-same : (n : ℕ) → one n n ≡ 1
one-same n = ground arith

abbrev pub sum : (Job → ℕ) → List Job → ℕ
sum f [] = 0
sum f (j ∷ jobs) = f j + sum f jobs

pub sum-append : (f : Job → ℕ) (xs ys : List Job) → sum f (xs ++ ys) ≡ sum f xs + sum f ys
sum-append f [] ys = omega arith
sum-append f (x ∷ xs) ys = omega (arith, sum-append f xs ys)

pub sum-set_job :
    (f : Job → ℕ) (i : ℕ) (j k : Job) (jobs : List Job)
    → job_at i jobs ≡ some j
    → sum f (set_job i k jobs) + f j ≡ sum f jobs + f k
sum-set_job f i j k [] e = absurd (cc e)
sum-set_job f zero j k (x ∷ jobs) e = omega (arith, ap (λ (o : Option Job). weight o) e)
  where
    weight : Option Job → ℕ
    weight none = 0
    weight (some x) = f x
sum-set_job f (suc i) j k (x ∷ jobs) e = omega (arith, sum-set_job f i j k jobs e)

pub length-set_job : (i : ℕ) (j : Job) (jobs : List Job) → length (set_job i j jobs) ≡ length jobs
length-set_job i j [] = refl
length-set_job zero j (k ∷ jobs) = refl
length-set_job (suc i) j (k ∷ jobs) = omega (arith, length-set_job i j jobs)

pub holds-at_most : (n : ℕ) (jobs : List Job) → sum (holds n) jobs ≤ 2 * length jobs
holds-at_most n [] = omega arith
holds-at_most n (inserting t ∷ jobs) = ground (arith, holds-at_most n jobs)
holds-at_most n (comparing t ∷ jobs) = ground (arith, holds-at_most n jobs)
holds-at_most n (refilling t b ∷ jobs) = ground (arith, holds-at_most n jobs)
holds-at_most n (detected t b ∷ jobs) = ground (arith, holds-at_most n jobs)
holds-at_most n (deduped t ∷ jobs) = ground (arith, holds-at_most n jobs)
holds-at_most n (storing t ∷ jobs) = omega (arith, holds-at_most n jobs)
holds-at_most n (finished ∷ jobs) = omega (arith, holds-at_most n jobs)

pub needs-holds : (n : ℕ) (jobs : List Job) → sum (needs n) jobs ≤ sum (holds n) jobs
needs-holds n [] = omega arith
needs-holds n (inserting t ∷ jobs) = omega (arith, needs-holds n jobs)
needs-holds n (comparing t ∷ jobs) = omega (arith, needs-holds n jobs)
needs-holds n (refilling t b ∷ jobs) = omega (arith, needs-holds n jobs)
needs-holds n (detected t b ∷ jobs) = omega (arith, needs-holds n jobs)
needs-holds n (deduped t ∷ jobs) = omega (arith, needs-holds n jobs)
needs-holds n (storing t ∷ jobs) = omega (arith, needs-holds n jobs)
needs-holds n (finished ∷ jobs) = omega (arith, needs-holds n jobs)

-- `link` is the number of uses; a node is new once, before its uses; a base that comes back was there before.
pub record IsCounted (images : ℕ) (u : Uses) : Type 0 where
  pub links : (n : ℕ) → u.link n ≡ sum (holds n) u.jobs
  pub few : length u.jobs ≤ images
  pub fresh : (n : ℕ) → count n u.known + sum (arrives n) u.jobs ≡ count n u.seen
  pub once : (n : ℕ) → count n u.seen ≤ 1
  pub born : (n : ℕ) → 1 ≤ sum (holds n) u.jobs → 1 ≤ count n u.seen
  pub back : (n : ℕ) → 1 ≤ sum (returns n) u.jobs → 1 ≤ count n u.known

pub hold-one : (b n : ℕ) (link : ℕ → ℕ) → link b + 1 < 2 ^ 64 → hold b link n ≡ link n + one b n
unfolding hold set_link
hold-one b n link h = ground arith

pub release-one :
    (b n : ℕ) (link : ℕ → ℕ) → 0 < link b → link b < 2 ^ 64 → release b link n + one b n ≡ link n
unfolding release set_link
release-one b n link h k = ground arith

pub sum-at :
    (f : Job → ℕ) (i : ℕ) (j : Job) (jobs : List Job) → job_at i jobs ≡ some j → f j ≤ sum f jobs
sum-at f i j jobs e = omega (arith, sum-set_job f i j j jobs e, sum-rest f i j jobs e)
  where
    sum-rest :
        (f : Job → ℕ) (i : ℕ) (j : Job) (jobs : List Job)
        → job_at i jobs ≡ some j
        → f j ≤ sum f (set_job i j jobs)
    sum-rest f i j [] e = absurd (cc e)
    sum-rest f zero j (x ∷ jobs) e = omega arith
    sum-rest f (suc i) j (x ∷ jobs) e = omega (arith, sum-rest f i j jobs e)

module _ (images : ℕ) (bounded : images < 2 ^ 63) (u : Uses) (c : IsCounted images u) where
  -- Work that goes from one stage to the next.
  pub changed :
      (i : ℕ) (j k : Job) (link : ℕ → ℕ) (known : List ℕ)
      → job_at i u.jobs ≡ some j
      → ((n : ℕ) → link n + holds n j ≡ u.link n + holds n k)
      → ((n : ℕ) → count n known + arrives n k ≡ count n u.known + arrives n j)
      → ((n : ℕ) → holds n k ≤ holds n j + count n u.seen)
      → ((n : ℕ) → 1 ≤ count n u.known + returns n k → 1 ≤ count n known)
      → IsCounted images
          (record { link = link; seen = u.seen; known = known; jobs = set_job i k u.jobs })
  changed i j k link known e linked new older known_base = record {
    links = λ n. omega (arith, linked n, c.links n, sum-set_job (holds n) i j k u.jobs e);
    few = omega (arith, c.few, length-set_job i k u.jobs);
    fresh = λ n. omega (arith, new n, c.fresh n, sum-set_job (arrives n) i j k u.jobs e);
    once = c.once;
    born = λ n h. omega (arith, h, seen_before n, older n, sum-set_job (holds n) i j k u.jobs e);
    back = λ n h. known_base n (omega (arith, h, before n, sum-set_job (returns n) i j k u.jobs e));
  }
    where
      seen_before : (n : ℕ) → (sum (holds n) u.jobs ≡ 0) ⊎ (1 ≤ count n u.seen)
      seen_before n = elim (nought (sum (holds n) u.jobs)) [
        | inl z ↦ inl z
        | inr p ↦ inr (c.born n p)
      ]

      before : (n : ℕ) → (sum (returns n) u.jobs ≡ 0) ⊎ (1 ≤ count n u.known)
      before n = elim (nought (sum (returns n) u.jobs)) [ inl z ↦ inl z | inr p ↦ inr (c.back n p) ]

  pub used : (n i : ℕ) (j : Job) → job_at i u.jobs ≡ some j → holds n j ≤ u.link n
  used n i j e = omega (arith, c.links n, sum-at (holds n) i j u.jobs e)

  pub bound : (n : ℕ) → u.link n + 2 ≤ 2 ^ 64
  bound n = omega (arith, c.links n, c.few, holds-at_most n u.jobs, bounded)
