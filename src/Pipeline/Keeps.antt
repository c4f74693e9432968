-- ===== src/Pipeline/Keeps.antt =====
-- 2df.c, idelta.c, rejpeg.c: what the threads without the buffer's lock leave as it was.
use im_dedup_plus.Prelude.{
  ℕ, zero, suc, ◌+◌, ◌^◌, ◌≤◌, ◌<◌, ◌≡◌, ◌≢◌, ◌⊎◌, refl, sym, subst, ap, ◌∙◌, arith, ◌==◌, ltb,
  ltb→lt, ◌&&◌, Bool-cases, inl, inr,
}
use im_dedup_plus.Prelude.{
  Option, none, some, List, [], ◌∷◌, ◌++◌, length, length-append, take, drop,
}
use native.Mathlib.Decide.{ℕ_discrete}
use im_dedup_plus.Queue.Chain.{count}
use im_dedup_plus.Buffer.Insert.{nought}
use im_dedup_plus.Pipeline.{
  Job, inserting, comparing, refilling, detected, deduped, storing, finished, Uses, set_link, hold,
  release, job_at, set_job, Event, decode, proceed, hold_base, drop_target, end_store, release_base,
  release_target, go_on, act, acts, links_at,
}
use im_dedup_plus.Pipeline.Counts.{
  one, holds, needs, needs-holds, arrives, returns, sum, sum-append, sum-set_job, IsCounted,
  hold-one, release-one, one-same, changed, used, bound,
}
use im_dedup_plus.Pipeline.Later.{
  Follows, AtLock, set_job-AtLock, append-job_at, Follows-same, Follows-trans,
}

module _ (images : ℕ) (bounded : images < 2 ^ 63) (u : Uses) (c : IsCounted images u) where
  Follows-changed :
      (i : ℕ) (j k : Job) (link : ℕ → ℕ)
      → job_at i u.jobs ≡ some j
      → (AtLock (some j) → ⊥)
      → ((n : ℕ) → link n + holds n j ≡ u.link n + holds n k)
      → ((n : ℕ) → arrives n k ≡ arrives n j)
      → ((n : ℕ) → needs n k ≤ needs n j)
      → ((n : ℕ) → holds n k ≤ holds n j + count n u.seen)
      → ((n : ℕ) → 1 ≤ count n u.known + returns n k → 1 ≤ count n u.known)
      → Follows images u (record u { link = link; jobs = set_job i k u.jobs })
  Follows-changed i j k link e away linked new need older known_base = record {
    counted =
        changed images bounded u c i j k link u.known e linked (λ n. omega (arith, new n)) older
          known_base;
    known = refl;
    need = λ n. omega (arith, need n, sum-set_job (needs n) i j k u.jobs e);
    waits = λ l t w. set_job-AtLock i l j k u.jobs e away (subst AtLock (sym w) tt) ∙ w;
    refills = λ l t b w. set_job-AtLock i l j k u.jobs e away (subst AtLock (sym w) tt) ∙ w;
  }

  base_known : (b n : ℕ) → 0 < count b u.known → 1 ≤ count n u.known + one b n → 1 ≤ count n u.known
  base_known b n k h = elim (ℕ_discrete b n) [
    | yes e ↦ subst (λ (x : ℕ). 1 ≤ count x u.known) e k
    | no ne ↦ ground arith
  ]

  known_seen : (b n : ℕ) → 0 < count b u.known → one b n ≤ count n u.seen
  known_seen b n k = elim (ℕ_discrete b n) [
    | yes e ↦ let k' = subst (λ (x : ℕ). 1 ≤ count x u.known) e k in ground (arith, k', c.fresh n)
    | no ne ↦ ground arith
  ]

  go_on-Follows :
      (i : ℕ) (base : Option ℕ) (o : Option Job)
      → job_at i u.jobs ≡ o
      → Follows images u (go_on i base o u)
  unfolding go_on hold_base drop_target end_store release_base release_target
  go_on-Follows i none (some (comparing t)) e =
      Follows-changed i (comparing t) (storing t) (release t u.link) e (λ x. x)
        (λ n. omega (
          arith,
          release-one t n u.link
              (omega (arith, used images bounded u c t i (comparing t) e, one-same t))
              (omega (arith, bound images bounded u c t)),
        ))
        (λ n. refl) (λ n. omega arith) (λ n. omega arith) (λ n h. omega (arith, h))
  go_on-Follows i (some b) (some (comparing t)) e = elim (Bool-cases (ltb 0 (count b u.known))) [
    | inl k ↦
        rw (hold_base, k)
          (Follows-changed i (comparing t) (refilling t b) (hold b u.link) e (λ x. x)
            (λ n. omega (arith, hold-one b n u.link (omega (arith, bound images bounded u c b))))
            (λ n. refl) (λ n. omega arith)
            (λ n. omega (arith, known_seen b n (ltb→lt 0 (count b u.known) k)))
            (λ n h. base_known b n (ltb→lt 0 (count b u.known) k) h))
    | inr k ↦ rw (hold_base, k) (Follows-same images u c)
  ]
  go_on-Follows i base (some (detected t b)) e =
      Follows-changed i (detected t b) (deduped t) (release b u.link) e (λ x. x)
        (λ n. omega (
          arith,
          release-one b n u.link
              (omega (arith, used images bounded u c b i (detected t b) e, one-same b))
              (omega (arith, bound images bounded u c b)),
        ))
        (λ n. refl) (λ n. omega arith) (λ n. omega arith) (λ n h. omega (arith, h))
  go_on-Follows i base (some (deduped t)) e =
      Follows-changed i (deduped t) finished (release t u.link) e (λ x. x)
        (λ n. omega (
          arith,
          release-one t n u.link
              (omega (arith, used images bounded u c t i (deduped t) e, one-same t))
              (omega (arith, bound images bounded u c t)),
        ))
        (λ n. refl) (λ n. omega arith) (λ n. omega arith) (λ n h. omega (arith, h))
  go_on-Follows i base (some (storing t)) e =
      Follows-changed i (storing t) finished u.link e (λ x. x) (λ n. refl) (λ n. refl)
        (λ n. omega arith) (λ n. omega arith) (λ n h. omega (arith, h))
  go_on-Follows i base (some (inserting t)) e = Follows-same images u c
  go_on-Follows i base (some (refilling t b)) e = Follows-same images u c
  go_on-Follows i base (some finished) e = Follows-same images u c
  go_on-Follows i base none e = Follows-same images u c

  at_new : (t n : ℕ) (f : ℕ → ℕ) → f t ≡ 0 → (t ≢ n) ⊎ (f n ≡ 0)
  at_new t n f z = elim (ℕ_discrete t n) [
    | yes e ↦ inr (subst (λ (x : ℕ). f x ≡ 0) e z)
    | no ne ↦ inl ne
  ]

  unused : (t : ℕ) → count t u.seen ≡ 0 → sum (holds t) u.jobs ≡ 0
  unused t z = elim (nought (sum (holds t) u.jobs)) [
    | inl e ↦ e
    | inr p ↦ absurd (omega (arith, z, c.born t p))
  ]

  grow :
      (t : ℕ)
      → count t u.seen ≡ 0
      → length u.jobs < images
      → Follows images u (record {
        link = set_link t 1 u.link;
        seen = t ∷ u.seen;
        known = u.known;
        jobs = u.jobs ++ inserting t ∷ [];
      })
  unfolding set_link
  grow t new room = record {
    counted = record {
      links = λ n. ground (
        arith,
        c.links n,
        at_new t n (λ x. sum (holds x) u.jobs) (unused t new),
        sum-append (holds n) u.jobs (inserting t ∷ []),
      );
      few = omega (arith, room, length-append u.jobs (inserting t ∷ []));
      fresh = λ n. ground (arith, c.fresh n, sum-append (arrives n) u.jobs (inserting t ∷ []));
      once = λ n. ground (arith, c.once n, at_new t n (λ x. count x u.seen) new);
      born = λ n h. born_too n (omega (arith, h, sum-append (holds n) u.jobs (inserting t ∷ [])));
      back = λ n h. c.back n (omega (arith, h, sum-append (returns n) u.jobs (inserting t ∷ [])));
    };
    known = refl;
    need = λ n. omega (arith, sum-append (needs n) u.jobs (inserting t ∷ []));
    waits = λ i a e. append-job_at i (inserting a) (inserting t) u.jobs e;
    refills = λ i a b e. append-job_at i (refilling a b) (inserting t) u.jobs e;
  }
    where
      born_too : (n : ℕ) → 1 ≤ sum (holds n) u.jobs + one t n → 1 ≤ count n (t ∷ u.seen)
      born_too n h = elim (nought (sum (holds n) u.jobs)) [
        | inl z ↦ ground (arith, z, h)
        | inr p ↦ ground (arith, c.born n p)
      ]

  pub act-Follows : (e : Event) → Follows images u (act images e u)
  unfolding act
  act-Follows (proceed i base) = go_on-Follows i base (job_at i u.jobs) refl
  act-Follows (decode t) = elim (Bool-cases ((count t u.seen == 0) && ltb (length u.jobs) images)) [
    | inl k ↦
        let new : count t u.seen ≡ 0 = ground arith in
        let room : length u.jobs < images = ground arith in rw (act, k) (grow t new room)
    | inr k ↦ rw (act, k) (Follows-same images u c)
  ]

module _ (images : ℕ) (bounded : images < 2 ^ 63) where
  pub acts-Follows :
      (log : List Event) (u : Uses) → IsCounted images u → Follows images u (acts images log u)
  unfolding acts
  acts-Follows [] u c = Follows-same images u c
  acts-Follows (e ∷ log) u c =
      let now = act-Follows images bounded u c e in
      Follows-trans images u (act images e u) (acts images log (act images e u)) now
        (acts-Follows log (act images e u) now.counted)

  acts-take :
      (n : ℕ) (log : List Event) (u : Uses)
      → acts images log u ≡ acts images (drop n log) (acts images (take n log) u)
  unfolding acts
  acts-take zero log u = refl
  acts-take (suc n) [] u = refl
  acts-take (suc n) (e ∷ log) u = acts-take n log (act images e u)

  -- A node whose data is needed at the end counts in `link` at each round before.
  pub links_at-needs :
      (log : List Event) (at : ℕ → ℕ) (u : Uses) (n : ℕ)
      → IsCounted images u
      → 1 ≤ sum (needs n) (acts images log u).jobs
      → (round : ℕ) → links_at images log at u round n ≢ 0
  unfolding links_at
  links_at-needs log at u n c h round z =
      let early = acts images (take (at round) log) u in
      let soon = acts-Follows (take (at round) log) u c in
      let later = acts-Follows (drop (at round) log) early soon.counted in
      let same : sum (needs n) (acts images log u).jobs
          ≡ sum (needs n) (acts images (drop (at round) log) early).jobs =
        ap (λ (v : Uses). sum (needs n) v.jobs) (acts-take (at round) log u) in
      absurd
        (omega (arith, h, z, same, later.need n, soon.counted.links n, needs-holds n early.jobs))
