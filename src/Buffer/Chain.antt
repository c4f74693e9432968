-- ===== src/Buffer/Chain.antt =====
-- Nodes that hang together both ways, by `next` and by `pre`.
use mathlib.Core.Path.{fun_ext}
use im_dedup_plus.Prelude.{
  ℕ, ◌≡◌, ◌≢◌, refl, sym, subst, ◌∙◌, arith, ◌==◌, if◌then◌else◌, true, false,
}
use im_dedup_plus.Prelude.{Option, none, some, List, [], ◌∷◌, ◌++◌}
use im_dedup_plus.Queue.{set_next}
use im_dedup_plus.Queue.Chain.{
  count, count-here, count-tail, count-other, IsSimple, IsChain, IsLast, set_next-same,
  set_next-other, set_next-IsChain, append-IsChain,
}

-- `pre` of each node is the one before it.
abbrev pub IsBack : (ℕ → Option ℕ) → Option ℕ → List ℕ → Type 0
IsBack pre before [] = Unit
IsBack pre before (n ∷ ns) = (pre n ≡ before) × IsBack pre (some n) ns

-- The list without a node.
abbrev pub remove : ℕ → List ℕ → List ℕ
remove a [] = []
remove a (n ∷ ns) = if n == a then ns else n ∷ remove a ns

pub remove-same : (a : ℕ) (ns : List ℕ) → remove a (a ∷ ns) ≡ ns
remove-same a ns = let on : (a == a) ≡ true = ground arith in rw (on) refl

pub remove-other : (a n : ℕ) (ns : List ℕ) → n ≢ a → remove a (n ∷ ns) ≡ n ∷ remove a ns
remove-other a n ns h = let off : (n == a) ≡ false = ground arith in rw (off) refl

pub count-skip : (a n : ℕ) (ns : List ℕ) → n ≢ a → count a (n ∷ ns) ≡ count a ns
count-skip a n ns h = ground arith

pub IsSimple-tail : (n : ℕ) (ns : List ℕ) → IsSimple (n ∷ ns) → IsSimple ns
IsSimple-tail n ns simple a = omega (arith, simple a, count-tail a n ns)

pub IsSimple-head : (n : ℕ) (ns : List ℕ) → IsSimple (n ∷ ns) → count n ns ≡ 0
IsSimple-head n ns simple = omega (arith, simple n, count-here n ns)

set_next_comm :
    (a b : ℕ) (x y : Option ℕ) (next : ℕ → Option ℕ)
    → a ≢ b
    → set_next a x (set_next b y next) ≡ set_next b y (set_next a x next)
unfolding set_next
set_next_comm a b x y next h = fun_ext λ n. ground arith

-- A change of `pre` of a node that is not there.
pub set_next-IsBack :
    (node : ℕ) (target : Option ℕ) (pre : ℕ → Option ℕ) (before : Option ℕ) (ns : List ℕ)
    → count node ns ≡ 0
    → IsBack pre before ns
    → IsBack (set_next node target pre) before ns
set_next-IsBack node target pre before [] h c = tt
set_next-IsBack node target pre before (n ∷ ns) h (e, c) = (
  set_next-other node target pre n (count-other node n ns h) ∙ e,
  set_next-IsBack node target pre (some n) ns (omega (arith, h, count-tail node n ns)) c,
)

-- The first node gets another neighbour in front of it.
pub first-IsBack :
    (n : ℕ) (ns : List ℕ) (pre : ℕ → Option ℕ) (before target : Option ℕ)
    → IsSimple (n ∷ ns)
    → IsBack pre before (n ∷ ns)
    → IsBack (set_next n target pre) target (n ∷ ns)
first-IsBack n ns pre before target simple (e, c) = (
  set_next-same n target pre,
  set_next-IsBack n target pre (some n) ns (IsSimple-head n ns simple) c,
)

-- A node behind the last one, whose `pre` is the old `tail`.
pub append-IsBack :
    (last node : ℕ) (pre : ℕ → Option ℕ) (before : Option ℕ) (n : ℕ) (ns : List ℕ)
    → count node (n ∷ ns) ≡ 0
    → IsLast (some last) (n ∷ ns)
    → IsBack pre before (n ∷ ns)
    → IsBack (set_next node (some last) pre) before ((n ∷ ns) ++ (node ∷ []))
append-IsBack last node pre before n [] fresh is_last (e, c) = (
  set_next-other node (some last) pre n (count-other node n [] fresh) ∙ e,
  (set_next-same node (some last) pre ∙ is_last, tt),
)
append-IsBack last node pre before n (m ∷ ns) fresh is_last (e, c) = (
  set_next-other node (some last) pre n (count-other node n (m ∷ ns) fresh) ∙ e,
  append-IsBack last node pre (some n) m ns (omega (arith, fresh, count-tail node n (m ∷ ns)))
      is_last c,
)

last-other :
    (last node n : ℕ) (ns : List ℕ)
    → count node (n ∷ ns) ≡ 0
    → IsLast (some last) (n ∷ ns)
    → node ≢ last
last-other last node n [] fresh is_last p = count-other node n [] fresh (ground arith)
last-other last node n (m ∷ ns) fresh is_last p =
    last-other last node m ns (omega (arith, fresh, count-tail node n (m ∷ ns))) is_last p

-- The same by `next`, whose end is set last.
pub behind-IsChain :
    (last node : ℕ) (next : ℕ → Option ℕ) (head : Option ℕ) (n : ℕ) (ns : List ℕ)
    → IsSimple (n ∷ ns)
    → count node (n ∷ ns) ≡ 0
    → IsLast (some last) (n ∷ ns)
    → IsChain next head (n ∷ ns)
    → IsChain (set_next node none (set_next last (some node) next)) head ((n ∷ ns) ++ (node ∷ []))
behind-IsChain last node next head n ns simple fresh is_last c =
    subst (λ (f : ℕ → Option ℕ). IsChain f head ((n ∷ ns) ++ (node ∷ [])))
      (sym
        (set_next_comm node last none (some node) next (last-other last node n ns fresh is_last)))
      (append-IsChain last node (set_next node none next) head n ns simple fresh
        (set_next-same node none next) is_last
        (set_next-IsChain node none next head (n ∷ ns) fresh c))
