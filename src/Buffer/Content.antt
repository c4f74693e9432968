-- ===== src/Buffer/Content.antt =====
-- buffer.c: which of the nodes have their data.
use native.Mathlib.Decide.{ℕ_discrete}
use im_dedup_plus.Prelude.{ℕ, ◌≤◌, ◌≡◌, ◌≢◌, sym, subst, ap, ◌∙◌, arith, Bool, true, false}
use im_dedup_plus.Prelude.{List, [], ◌∷◌, ◌++◌}
use im_dedup_plus.Queue.Chain.{count, count-append, count-here, count-tail, IsSimple}
use im_dedup_plus.Buffer.{set_filled}
use im_dedup_plus.Buffer.Chain.{count-skip, IsSimple-head}

-- Of the nodes that are known, just those in the list have their data; of any other node, `others`
-- tells whether it has.
pub record HasContent (others : ℕ → Bool) (known items : List ℕ) (filled : ℕ → Bool) : Type 0 where
  pub listed : (n : ℕ) → 1 ≤ count n items → 1 ≤ count n known
  pub full : (n : ℕ) → 1 ≤ count n items → filled n ≡ true
  pub held : (n : ℕ) → 1 ≤ count n known → filled n ≡ true → 1 ≤ count n items
  pub kept : (n : ℕ) → count n known ≡ 0 → filled n ≡ others n

pub set_filled-other :
    (n a : ℕ) (b : Bool) (filled : ℕ → Bool) → n ≢ a → set_filled n b filled a ≡ filled a
unfolding set_filled
set_filled-other n a b filled h = ground arith

pub set_filled-same : (n : ℕ) (b : Bool) (filled : ℕ → Bool) → set_filled n b filled n ≡ b
unfolding set_filled
set_filled-same n b filled = ground arith

-- A node in one list is none of another.
pub apart : (n a : ℕ) (ns : List ℕ) → count n ns ≡ 0 → 1 ≤ count a ns → n ≢ a
apart n a ns absent there e = absurd (omega (arith, absent, there, ap (λ (x : ℕ). count x ns) e))

-- A node without its data is not the one that has it.
unlike : (n a : ℕ) (filled : ℕ → Bool) → set_filled n false filled a ≡ true → n ≢ a
unlike n a filled e p =
    cc (sym (set_filled-same n false filled) ∙ ap (λ (x : ℕ). set_filled n false filled x) p ∙ e)

earlier :
    (item a : ℕ) (items : List ℕ) → item ≢ a → 1 ≤ count a (items ++ item ∷ []) → 1 ≤ count a items
earlier item a items ne h =
    omega (arith, h, count-append a items (item ∷ []), count-skip a item [] ne)

at_end : (a : ℕ) (items : List ℕ) → 1 ≤ count a (items ++ a ∷ [])
at_end a items = omega (arith, count-append a items (a ∷ []), count-here a [])

module _ (others : ℕ → Bool) (known : List ℕ) (filled : ℕ → Bool) where
  -- The order does not matter.
  pub HasContent-order :
      (items items' : List ℕ)
      → ((a : ℕ) → count a items' ≡ count a items)
      → HasContent others known items filled
      → HasContent others known items' filled
  HasContent-order items items' same q = record {
    listed = λ a h. q.listed a (omega (arith, h, same a));
    full = λ a h. q.full a (omega (arith, h, same a));
    held = λ a h e. omega (arith, q.held a h e, same a);
    kept = q.kept;
  }

  -- The data of the first node goes.
  pub HasContent-drop :
      (n : ℕ) (ns : List ℕ)
      → IsSimple (n ∷ ns)
      → HasContent others known (n ∷ ns) filled
      → HasContent others known ns (set_filled n false filled)
  HasContent-drop n ns simple q = record {
    listed = λ a h. q.listed a (omega (arith, h, count-tail a n ns));
    full = λ a h.
        set_filled-other n a false filled (apart n a ns (IsSimple-head n ns simple) h)
        ∙ q.full a (omega (arith, h, count-tail a n ns));
    held = λ a h e.
        let other = unlike n a filled e in
        omega (
          arith,
          count-skip a n ns other,
          q.held a h (sym (set_filled-other n a false filled other) ∙ e),
        );
    kept = λ a h.
        set_filled-other n a false filled
          (λ p. apart a n known h (q.listed n (omega (arith, count-here n ns))) (sym p))
        ∙ q.kept a h;
  }

  -- A node that was not known, with its data.
  pub HasContent-new :
      (item : ℕ) (items : List ℕ)
      → others item ≡ true
      → count item known ≡ 0
      → HasContent others known items filled
      → HasContent others (item ∷ known) (items ++ item ∷ []) filled
  HasContent-new item items there fresh q = record {
    listed = λ a h. elim (ℕ_discrete item a) [
      | yes p ↦
          subst (λ (x : ℕ). 1 ≤ count x (item ∷ known)) p (omega (arith, count-here item known))
      | no ne ↦ omega (arith, count-skip a item known ne, q.listed a (earlier item a items ne h))
    ];
    full = λ a h. elim (ℕ_discrete item a) [
      | yes p ↦ subst (λ (x : ℕ). filled x ≡ true) p (q.kept item fresh ∙ there)
      | no ne ↦ q.full a (earlier item a items ne h)
    ];
    held = λ a h e. elim (ℕ_discrete item a) [
      | yes p ↦ subst (λ (x : ℕ). 1 ≤ count x (items ++ item ∷ [])) p (at_end item items)
      | no ne ↦ omega (
        arith,
        q.held a (omega (arith, h, count-skip a item known ne)) e,
        count-append a items (item ∷ []),
      )
    ];
    kept = λ a h. q.kept a (omega (arith, h, count-tail a item known));
  }

  -- The data of a known node comes back.
  pub HasContent-fill :
      (item : ℕ) (items : List ℕ)
      → 1 ≤ count item known
      → HasContent others known items filled
      → HasContent others known (items ++ item ∷ []) (set_filled item true filled)
  HasContent-fill item items known_item q = record {
    listed = λ a h. elim (ℕ_discrete item a) [
      | yes p ↦ subst (λ (x : ℕ). 1 ≤ count x known) p known_item
      | no ne ↦ q.listed a (earlier item a items ne h)
    ];
    full = λ a h. elim (ℕ_discrete item a) [
      | yes p ↦
          subst (λ (x : ℕ). set_filled item true filled x ≡ true) p
            (set_filled-same item true filled)
      | no ne ↦ set_filled-other item a true filled ne ∙ q.full a (earlier item a items ne h)
    ];
    held = λ a h e. elim (ℕ_discrete item a) [
      | yes p ↦ subst (λ (x : ℕ). 1 ≤ count x (items ++ item ∷ [])) p (at_end item items)
      | no ne ↦ omega (
        arith,
        q.held a h (sym (set_filled-other item a true filled ne) ∙ e),
        count-append a items (item ∷ []),
      )
    ];
    kept = λ a h.
        set_filled-other item a true filled (λ p. apart a item known h known_item (sym p))
        ∙ q.kept a h;
  }
