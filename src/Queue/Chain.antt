-- ===== src/Queue/Chain.antt =====
-- The nodes that hang together by `next`, and how often a node is in a list.
use im_dedup_plus.Prelude.{
  ℕ, ◌+◌, ◌≤◌, ◌≡◌, ◌≢◌, refl, sym, subst, ◌∙◌, arith, ◌==◌, if◌then◌else◌, true, false,
}
use im_dedup_plus.Prelude.{Option, none, some, List, [], ◌∷◌, ◌++◌}
use native.Mathlib.Decide.{ℕ_discrete}
use im_dedup_plus.Queue.{set_next}

abbrev pub count : ℕ → List ℕ → ℕ
count a [] = 0
count a (n ∷ ns) = if n == a then 1 + count a ns else count a ns

pub count-append : (a : ℕ) (xs ys : List ℕ) → count a (xs ++ ys) ≡ count a xs + count a ys
count-append a [] ys = omega arith
count-append a (x ∷ xs) ys = ground (arith, count-append a xs ys)

pub count-here : (n : ℕ) (ns : List ℕ) → count n (n ∷ ns) ≡ 1 + count n ns
count-here n ns = ground arith

pub count-tail : (a n : ℕ) (ns : List ℕ) → count a ns ≤ count a (n ∷ ns)
count-tail a n ns = ground arith

pub count-other : (a n : ℕ) (ns : List ℕ) → count a (n ∷ ns) ≡ 0 → n ≢ a
count-other a n ns h e = ground arith

-- No node is in the list twice.
abbrev pub IsSimple : List ℕ → Type 0
IsSimple ns = (a : ℕ) → count a ns ≤ 1

-- From `head` on, `next` leads through the nodes in their order and then to `NULL`.
abbrev pub IsChain : (ℕ → Option ℕ) → Option ℕ → List ℕ → Type 0
IsChain next head [] = head ≡ none
IsChain next head (n ∷ ns) = (head ≡ some n) × IsChain next (next n) ns

-- `tail` is the last of the nodes, if there is any.
abbrev pub IsLast : Option ℕ → List ℕ → Type 0
IsLast tail [] = Unit
IsLast tail (n ∷ []) = tail ≡ some n
IsLast tail (n ∷ m ∷ ns) = IsLast tail (m ∷ ns)

pub set_next-other :
    (node : ℕ) (target : Option ℕ) (next : ℕ → Option ℕ) (n : ℕ)
    → n ≢ node
    → set_next node target next n ≡ next n
unfolding set_next
set_next-other node target next n h =
    let off : (n == node) ≡ false = ground arith in rw (set_next, off) refl

pub set_next-same :
    (node : ℕ) (target : Option ℕ) (next : ℕ → Option ℕ) → set_next node target next node ≡ target
unfolding set_next
set_next-same node target next =
    let on : (node == node) ≡ true = ground arith in rw (set_next, on) refl

-- A change of a node that is not there.
pub set_next-IsChain :
    (node : ℕ) (target : Option ℕ) (next : ℕ → Option ℕ) (head : Option ℕ) (ns : List ℕ)
    → count node ns ≡ 0
    → IsChain next head ns
    → IsChain (set_next node target next) head ns
set_next-IsChain node target next head [] h c = c
set_next-IsChain node target next head (n ∷ ns) h (e, c) = (
  e,
  rw (set_next-other node target next n (count-other node n ns h))
      (set_next-IsChain node target next (next n) ns (ground arith) c),
)

-- Two addresses that are one pointer.
same-node : (l n : ℕ) → some l ≡ some n → l ≡ n
same-node l n e = ground arith

pub last-count : (l n : ℕ) (ns : List ℕ) → IsLast (some l) (n ∷ ns) → 1 ≤ count l (n ∷ ns)
last-count l n [] e = ground (arith, same-node l n e)
last-count l n (m ∷ ns) h = omega (arith, last-count l m ns h, count-tail l n (m ∷ ns))

-- The last node gets a successor.
pub append-IsChain :
    (last node : ℕ) (next : ℕ → Option ℕ) (head : Option ℕ) (n : ℕ) (ns : List ℕ)
    → IsSimple (n ∷ ns)
    → count node (n ∷ ns) ≡ 0
    → next node ≡ none
    → IsLast (some last) (n ∷ ns)
    → IsChain next head (n ∷ ns)
    → IsChain (set_next last (some node) next) head ((n ∷ ns) ++ (node ∷ []))
append-IsChain last node next head n [] simple fresh unset is_last (e, c) =
    let same : last ≡ n = same-node last n is_last in
    let other : node ≢ n = λ p. count-other node n [] fresh (sym p) in
    (
      e,
      (
        subst (λ (l : ℕ). set_next l (some node) next n ≡ some node) (sym same)
            (set_next-same n (some node) next),
        subst (λ (l : ℕ). set_next l (some node) next node ≡ none) (sym same)
            (set_next-other n (some node) next node other ∙ unset),
      ),
    )
append-IsChain last node next head n (m ∷ ns) simple fresh unset is_last (e, c) =
    let other : n ≢ last =
      λ p. absurd (omega (arith, last-count last m ns is_last, simple last, twice p)) in
    (
      e,
      rw (set_next-other last (some node) next n other) (
          append-IsChain last node next (next n) m ns
            (λ a. omega (arith, simple a, count-tail a n (m ∷ ns)))
            (omega (arith, fresh, count-tail node n (m ∷ ns))) unset is_last c),
    )
  where
    twice : n ≡ last → count last (n ∷ m ∷ ns) ≡ 1 + count last (m ∷ ns)
    twice p = ground arith

pub append-IsLast : (node : ℕ) (ns : List ℕ) → IsLast (some node) (ns ++ (node ∷ []))
append-IsLast node [] = refl
append-IsLast node (n ∷ []) = refl
append-IsLast node (n ∷ m ∷ ns) = append-IsLast node (m ∷ ns)

-- The last node is one.
pub tail_node :
    (tail : Option ℕ) (n : ℕ) (ns : List ℕ)
    → IsLast tail (n ∷ ns)
    → (l : ℕ) × (tail ≡ some l) × IsLast (some l) (n ∷ ns)
tail_node tail n [] e = (n, e, refl)
tail_node tail n (m ∷ ns) h = tail_node tail m ns h

pub append-IsSimple :
    (node : ℕ) (ns : List ℕ) → IsSimple ns → count node ns ≡ 0 → IsSimple (ns ++ (node ∷ []))
append-IsSimple node ns simple fresh a = elim (ℕ_discrete node a) [
  | yes e ↦
      subst (λ (b : ℕ). count b (ns ++ (node ∷ [])) ≤ 1) e
        (omega (arith, count-append node ns (node ∷ []), count-here node [], fresh))
  | no ne ↦
      let none_more : count a (node ∷ []) ≡ 0 = ground arith in
      omega (arith, count-append a ns (node ∷ []), simple a, none_more)
]
