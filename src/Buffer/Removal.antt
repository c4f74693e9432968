-- ===== src/Buffer/Removal.antt =====
-- buffer.c: the nodes that are left when one goes out.
use native.Mathlib.Decide.{ℕ_discrete}
use im_dedup_plus.Prelude.{ℕ, ◌+◌, ◌≤◌, ◌≡◌, ◌≢◌, refl, subst, ap, ◌∙◌, arith}
use im_dedup_plus.Prelude.{List, [], ◌∷◌}
use im_dedup_plus.Queue.Chain.{count, count-append, IsSimple}
use im_dedup_plus.Queue.Linked.{total}
use im_dedup_plus.Buffer.Chain.{
  count-skip, remove, remove-same, remove-other, IsSimple-tail, IsSimple-head,
}

pub rest-there : (a n : ℕ) (ns : List ℕ) → n ≢ a → 1 ≤ count a (n ∷ ns) → 1 ≤ count a ns
rest-there a n ns ne h = omega (arith, h, count-skip a n ns ne)

pub count-remove-same : (a : ℕ) (ns : List ℕ) → IsSimple ns → count a (remove a ns) ≡ 0
count-remove-same a [] simple = refl
count-remove-same a (n ∷ ns) simple = elim (ℕ_discrete n a) [
  | yes e ↦
      subst (λ (x : ℕ). count x (remove x (n ∷ ns)) ≡ 0) e
        (ap (count n) (remove-same n ns) ∙ IsSimple-head n ns simple)
  | no ne ↦
      ap (count a) (remove-other a n ns ne)
      ∙ count-skip a n (remove a ns) ne
      ∙ count-remove-same a ns (IsSimple-tail n ns simple)
]

-- A node is counted as before, except the one that went.
pub count-remove :
    (b a : ℕ) (ns : List ℕ) → 1 ≤ count a ns → count b (remove a ns) + count b (a ∷ []) ≡ count b ns
count-remove b a [] h = absurd (omega (arith, h))
count-remove b a (n ∷ ns) h = elim (ℕ_discrete n a) [
  | yes e ↦
      subst (λ (x : ℕ). count b (remove x (n ∷ ns)) + count b (x ∷ []) ≡ count b (n ∷ ns)) e
        (ap (λ (l : List ℕ). count b l + count b (n ∷ [])) (remove-same n ns)
          ∙ omega (arith, count-append b (n ∷ []) ns))
  | no ne ↦
      ap (λ (l : List ℕ). count b l + count b (a ∷ [])) (remove-other a n ns ne)
      ∙ omega (
        arith,
        count-append b (n ∷ []) (remove a ns),
        count-append b (n ∷ []) ns,
        count-remove b a ns (rest-there a n ns ne h),
      )
]

pub total-remove :
    (node_size : ℕ → ℕ) (a : ℕ) (ns : List ℕ)
    → 1 ≤ count a ns
    → total node_size (remove a ns) + node_size a ≡ total node_size ns
total-remove node_size a [] h = absurd (omega (arith, h))
total-remove node_size a (n ∷ ns) h = elim (ℕ_discrete n a) [
  | yes e ↦
      subst
        (λ (x : ℕ). total node_size (remove x (n ∷ ns)) + node_size x ≡ total node_size (n ∷ ns)) e
        (ap (λ (l : List ℕ). total node_size l + node_size n) (remove-same n ns) ∙ omega arith)
  | no ne ↦
      ap (λ (l : List ℕ). total node_size l + node_size a) (remove-other a n ns ne)
      ∙ omega (arith, total-remove node_size a ns (rest-there a n ns ne h))
]

pub remove-IsSimple : (a : ℕ) (ns : List ℕ) → 1 ≤ count a ns → IsSimple ns → IsSimple (remove a ns)
remove-IsSimple a ns h simple b = omega (arith, count-remove b a ns h, simple b)
