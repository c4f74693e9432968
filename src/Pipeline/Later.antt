-- ===== src/Pipeline/Later.antt =====
-- 2df.c, idelta.c, rejpeg.c: what stays of the uses while a thread waits for the lock.
use im_dedup_plus.Prelude.{ℕ, zero, suc, ◌≤◌, ◌≡◌, refl, subst, ◌∙◌, arith}
use im_dedup_plus.Prelude.{Option, none, some, List, [], ◌∷◌, ◌++◌}
use im_dedup_plus.Pipeline.{
  Job, inserting, comparing, refilling, detected, deduped, storing, finished, Uses, job_at, set_job,
}
use im_dedup_plus.Pipeline.Counts.{needs, sum, IsCounted}

-- What holds of the uses later on.
pub record Follows (images : ℕ) (u v : Uses) : Type 0 where
  pub counted : IsCounted images v
  pub known : v.known ≡ u.known
  pub need : (n : ℕ) → sum (needs n) v.jobs ≤ sum (needs n) u.jobs
  pub waits :
      (i t : ℕ) → job_at i u.jobs ≡ some (inserting t) → job_at i v.jobs ≡ some (inserting t)
  pub refills :
      (i t b : ℕ) → job_at i u.jobs ≡ some (refilling t b) → job_at i v.jobs ≡ some (refilling t b)

-- Work that waits for the lock.
abbrev pub AtLock : Option Job → Type 0
AtLock (some (inserting t)) = Unit
AtLock (some (refilling t b)) = Unit
AtLock (some (comparing t)) = ⊥
AtLock (some (detected t b)) = ⊥
AtLock (some (deduped t)) = ⊥
AtLock (some (storing t)) = ⊥
AtLock (some finished) = ⊥
AtLock none = ⊥

pub set_job-AtLock :
    (i k : ℕ) (j l : Job) (jobs : List Job)
    → job_at i jobs ≡ some j
    → (AtLock (some j) → ⊥)
    → AtLock (job_at k jobs)
    → job_at k (set_job i l jobs) ≡ job_at k jobs
set_job-AtLock i k j l [] e away at = refl
set_job-AtLock zero zero j l (x ∷ jobs) e away at = absurd (away (subst AtLock e at))
set_job-AtLock zero (suc k) j l (x ∷ jobs) e away at = refl
set_job-AtLock (suc i) zero j l (x ∷ jobs) e away at = refl
set_job-AtLock (suc i) (suc k) j l (x ∷ jobs) e away at = set_job-AtLock i k j l jobs e away at

pub append-job_at :
    (k : ℕ) (j l : Job) (jobs : List Job)
    → job_at k jobs ≡ some j
    → job_at k (jobs ++ l ∷ []) ≡ some j
append-job_at k j l [] e = absurd (cc e)
append-job_at zero j l (x ∷ jobs) e = e
append-job_at (suc k) j l (x ∷ jobs) e = append-job_at k j l jobs e

pub Follows-same : (images : ℕ) (u : Uses) → IsCounted images u → Follows images u u
Follows-same images u c = record {
  counted = c;
  known = refl;
  need = λ n. omega arith;
  waits = λ i t e. e;
  refills = λ i t b e. e;
}

pub Follows-trans :
    (images : ℕ) (u v w : Uses) → Follows images u v → Follows images v w → Follows images u w
Follows-trans images u v w f g = record {
  counted = g.counted;
  known = g.known ∙ f.known;
  need = λ n. omega (arith, f.need n, g.need n);
  waits = λ i t e. g.waits i t (f.waits i t e);
  refills = λ i t b e. g.refills i t b (f.refills i t b e);
}
