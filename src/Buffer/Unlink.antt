-- ===== src/Buffer/Unlink.antt =====
-- buffer.c: a node goes out from between its neighbours.
use native.Mathlib.Decide.{ℕ_discrete}
use im_dedup_plus.Prelude.{ℕ, ◌≤◌, ◌≡◌, ◌≢◌, sym, subst, ap, ◌∙◌, arith}
use im_dedup_plus.Prelude.{Option, some, some_injective, length, List, [], ◌∷◌, ◌++◌}
use im_dedup_plus.Queue.{set_next}
use im_dedup_plus.Queue.Chain.{
  count, count-here, count-tail, IsSimple, IsChain, IsLast, set_next-same, set_next-other,
  set_next-IsChain, last-count,
}
use im_dedup_plus.Queue.Linked.{IsLast-tail}
use im_dedup_plus.Buffer.Chain.{
  IsBack, remove, remove-same, remove-other, IsSimple-tail, IsSimple-head, first-IsBack,
}
use im_dedup_plus.Buffer.Removal.{rest-there}

-- A node that is not the last one has a successor in the list.
pub next-there :
    (next : ℕ → Option ℕ) (head tail : Option ℕ) (a : ℕ) (ns : List ℕ)
    → 1 ≤ count a ns
    → tail ≢ some a
    → IsLast tail ns
    → IsChain next head ns
    → (q : ℕ) × (next a ≡ some q) × (1 ≤ count q ns)
next-there next head tail a [] h ne is_last c = absurd (omega (arith, h))
next-there next head tail a (n ∷ []) h ne is_last c =
    absurd (ne (is_last ∙ ap (λ (x : ℕ). some x) (single h)))
  where
    single : 1 ≤ count a (n ∷ []) → n ≡ a
    single k = ground arith
next-there next head tail a (n ∷ m ∷ ns) h ne is_last (e, c) = elim (ℕ_discrete n a) [
  | yes p ↦ (
    m,
    subst (λ (x : ℕ). next x ≡ some m) p c.0,
    omega (arith, count-here m ns, count-tail m n (m ∷ ns)),
  )
  | no other ↦
      let (q, found, there) =
        next-there next (next n) tail a (m ∷ ns) (rest-there a n (m ∷ ns) other h) ne is_last c in
      (q, found, omega (arith, there, count-tail q n (m ∷ ns)))
]

-- The node before leads to the one behind.
abbrev pub Bridged : (pre next : ℕ → Option ℕ) → Option ℕ → ℕ → List ℕ → Type 0
Bridged pre next head a ns =
    (p : ℕ) × (pre a ≡ some p)
    × (p ≢ a)
    × (1 ≤ count p ns)
    × IsChain (set_next p (next a) next) head (remove a ns)

bridge-second :
    (pre next : ℕ → Option ℕ) (before head : Option ℕ) (n a : ℕ) (ns : List ℕ)
    → IsSimple (n ∷ a ∷ ns)
    → IsBack pre before (n ∷ a ∷ ns)
    → IsChain next head (n ∷ a ∷ ns)
    → n ≢ a
    → Bridged pre next head a (n ∷ a ∷ ns)
bridge-second pre next before head n a ns simple back (e, (e', c)) ne =
    let absent = IsSimple-head n (a ∷ ns) simple in
    let f = set_next n (next a) next in
    (
      n,
      back.1.0,
      ne,
      omega (arith, count-here n (a ∷ ns)),
      subst (λ (l : List ℕ). IsChain f head l)
          (sym (remove-other a n (a ∷ ns) ne ∙ ap (λ (l : List ℕ). n ∷ l) (remove-same a ns)))
          (
            e,
            subst (λ (h : Option ℕ). IsChain f h ns) (sym (set_next-same n (next a) next))
                (set_next-IsChain n (next a) next (next a) ns
                  (omega (arith, absent, count-tail n a ns)) c),
          ),
    )

-- For a node that is not the first.
pub unlink-IsChain :
    (pre next : ℕ → Option ℕ) (before head : Option ℕ) (a n : ℕ) (ns : List ℕ)
    → n ≢ a
    → 1 ≤ count a ns
    → IsSimple (n ∷ ns)
    → IsBack pre before (n ∷ ns)
    → IsChain next head (n ∷ ns)
    → Bridged pre next head a (n ∷ ns)
unlink-IsChain pre next before head a n [] ne there simple back c = absurd (omega (arith, there))
unlink-IsChain pre next before head a n (m ∷ ns) ne there simple back c = elim (ℕ_discrete m a) [
  | yes p ↦
      subst (λ (x : ℕ). Bridged pre next head x (n ∷ m ∷ ns)) p
        (bridge-second pre next before head n m ns simple back c (λ q. ne (q ∙ p)))
  | no other ↦
      let (p, found, differ, in_rest, rest) =
        unlink-IsChain pre next (some n) (next n) a m ns other (rest-there a m ns other there)
          (IsSimple-tail n (m ∷ ns) simple) back.1 c.1 in
      let apart : n ≢ p = λ e. absurd (
        omega
          (arith, in_rest, IsSimple-head n (m ∷ ns) simple, ap (λ (x : ℕ). count x (m ∷ ns)) e)) in
      let f = set_next p (next a) next in
      (
        p,
        found,
        differ,
        omega (arith, in_rest, count-tail p n (m ∷ ns)),
        subst (λ (l : List ℕ). IsChain f head l) (sym (remove-other a n (m ∷ ns) ne))
            (
              c.0,
              subst (λ (h : Option ℕ). IsChain f h (remove a (m ∷ ns)))
                  (sym (set_next-other p (next a) next n apart)) rest,
            ),
      )
]

IsBack-first :
    (pre next : ℕ → Option ℕ) (before : Option ℕ) (n q : ℕ) (ns : List ℕ)
    → next n ≡ some q
    → IsSimple (n ∷ ns)
    → IsBack pre before (n ∷ ns)
    → IsChain next (next n) ns
    → IsBack (set_next q (pre n) pre) before ns
IsBack-first pre next before n q [] behind simple back c = tt
IsBack-first pre next before n q (m ∷ ns) behind simple back c =
    let same : m ≡ q = some_injective m q (sym c.0 ∙ behind) in
    subst (λ (x : ℕ). IsBack (set_next x (pre n) pre) before (m ∷ ns)) same
      (subst (λ (b : Option ℕ). IsBack (set_next m b pre) before (m ∷ ns)) (sym back.0)
        (first-IsBack m ns pre (some n) before (IsSimple-tail n (m ∷ ns) simple) back.1))

-- The node behind gets the one before.
pub unlink-IsBack :
    (pre next : ℕ → Option ℕ) (before head tail : Option ℕ) (a q : ℕ) (ns : List ℕ)
    → 1 ≤ count a ns
    → tail ≢ some a
    → next a ≡ some q
    → IsLast tail ns
    → IsSimple ns
    → IsBack pre before ns
    → IsChain next head ns
    → IsBack (set_next q (pre a) pre) before (remove a ns)
unlink-IsBack pre next before head tail a q [] there ne behind is_last simple back c = tt
unlink-IsBack pre next before head tail a q (n ∷ ns) there ne behind is_last simple back c =
    elim (ℕ_discrete n a) [
      | yes p ↦
          subst (λ (x : ℕ). IsBack (set_next q (pre x) pre) before (remove x (n ∷ ns))) p
            (subst (IsBack (set_next q (pre n) pre) before) (sym (remove-same n ns))
              (IsBack-first pre next before n q ns (ap next p ∙ behind) simple back c.1))
      | no other ↦
          let there' = rest-there a n ns other there in
          let last' = IsLast-tail tail n ns is_last in
          let (r, found, in_rest) = next-there next (next n) tail a ns there' ne last' c.1 in
          let apart : n ≢ q = λ e. absurd (
            omega (
              arith,
              in_rest,
              IsSimple-head n ns simple,
              ap (λ (x : ℕ). count x ns) (e ∙ some_injective q r (sym behind ∙ found)),
            )) in
          subst (IsBack (set_next q (pre a) pre) before) (sym (remove-other a n ns other)) (
            set_next-other q (pre a) pre n (λ e. apart e) ∙ back.0,
            unlink-IsBack pre next (some n) (next n) tail a q ns there' ne behind last'
                (IsSimple-tail n ns simple) back.1 c.1,
          )
    ]

pub unlink-IsLast :
    (tail : Option ℕ) (a : ℕ) (ns : List ℕ)
    → tail ≢ some a
    → IsLast tail ns
    → IsLast tail (remove a ns)
unlink-IsLast tail a [] ne is_last = tt
unlink-IsLast tail a (n ∷ []) ne is_last = elim (ℕ_discrete n a) [
  | yes p ↦ absurd (ne (is_last ∙ ap (λ (x : ℕ). some x) p))
  | no other ↦ subst (IsLast tail) (sym (remove-other a n [] other)) is_last
]
unlink-IsLast tail a (n ∷ m ∷ ns) ne is_last = elim (ℕ_discrete n a) [
  | yes p ↦
      subst (λ (x : ℕ). IsLast tail (remove x (n ∷ m ∷ ns))) p
        (subst (IsLast tail) (sym (remove-same n (m ∷ ns))) is_last)
  | no other ↦ subst (IsLast tail) (sym (remove-other a n (m ∷ ns) other)) (
      IsLast-push tail n (remove a (m ∷ ns)) (some_left m ns is_last)
        (unlink-IsLast tail a (m ∷ ns) ne is_last))
]
  where
    IsLast-push :
        (tail : Option ℕ) (n : ℕ) (ms : List ℕ)
        → 1 ≤ length ms
        → IsLast tail ms
        → IsLast tail (n ∷ ms)
    IsLast-push tail n [] h l = absurd (omega (arith, h))
    IsLast-push tail n (m ∷ ms) h l = l

    some_left : (m : ℕ) (ns : List ℕ) → IsLast tail (m ∷ ns) → 1 ≤ length (remove a (m ∷ ns))
    some_left m [] l = elim (ℕ_discrete m a) [
      | yes p ↦ absurd (ne (l ∙ ap (λ (x : ℕ). some x) p))
      | no other ↦
          subst (λ (l : List ℕ). 1 ≤ length l) (sym (remove-other a m [] other)) (omega arith)
    ]
    some_left m (k ∷ ns) l = ground arith

-- Something is left.
pub remove-nonempty :
    (tail : Option ℕ) (a : ℕ) (ns : List ℕ)
    → 1 ≤ count a ns
    → tail ≢ some a
    → IsLast tail ns
    → 1 ≤ length (remove a ns)
remove-nonempty tail a [] there ne is_last = absurd (omega (arith, there))
remove-nonempty tail a (n ∷ []) there ne is_last = elim (ℕ_discrete n a) [
  | yes p ↦ absurd (ne (is_last ∙ ap (λ (x : ℕ). some x) p))
  | no other ↦ absurd (omega (arith, rest-there a n [] other there))
]
remove-nonempty tail a (n ∷ m ∷ ns) there ne is_last = ground arith

-- The last node goes behind the others.
pub remove-last :
    (a : ℕ) (ns : List ℕ)
    → 1 ≤ length ns
    → IsSimple ns
    → IsLast (some a) ns
    → remove a ns ++ (a ∷ []) ≡ ns
remove-last a [] some_node simple is_last = absurd (omega (arith, some_node))
remove-last a (n ∷ []) some_node simple is_last =
    let same : a ≡ n = some_injective a n is_last in
    subst (λ (x : ℕ). remove x (n ∷ []) ++ (x ∷ []) ≡ n ∷ []) (sym same)
      (ap (λ (l : List ℕ). l ++ (n ∷ [])) (remove-same n []))
remove-last a (n ∷ m ∷ ns) some_node simple is_last =
    let other : n ≢ a = λ p. absurd (
      omega (
        arith,
        IsSimple-head n (m ∷ ns) simple,
        last-count a m ns is_last,
        ap (λ (x : ℕ). count x (m ∷ ns)) p,
      )) in
    ap (λ (l : List ℕ). l ++ (a ∷ [])) (remove-other a n (m ∷ ns) other)
    ∙ ap (λ (l : List ℕ). n ∷ l)
        (remove-last a (m ∷ ns) (omega arith) (IsSimple-tail n (m ∷ ns) simple) is_last)
