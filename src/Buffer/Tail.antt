-- ===== src/Buffer/Tail.antt =====
-- buffer.c: what an item at the tail, between its neighbours or behind the others meets.
use im_dedup_plus.Prelude.{ℕ, ◌≤◌, ◌≡◌, ◌≢◌, refl, sym, ap, ◌∙◌, arith, true, false, ◌==◌}
use im_dedup_plus.Prelude.{Option, none, some, length, List, [], ◌∷◌}
use native.Mathlib.Decide.{ℕ_discrete}
use im_dedup_plus.Queue.{set_next}
use im_dedup_plus.Queue.Chain.{count}
use im_dedup_plus.Buffer.{Buffer, append_item, link_before, unlink_item, is_tail}
use im_dedup_plus.Buffer.Outcome.{Run, done, ◌>>=◌, deref}

pub count-length : (a : ℕ) (ns : List ℕ) → 1 ≤ count a ns → 1 ≤ length ns
count-length a [] h = absurd (omega (arith, h))
count-length a (n ∷ ns) h = omega arith

pub is_tail-same : (item : ℕ) (tail : Option ℕ) → tail ≡ some item → is_tail item tail ≡ true
unfolding is_tail
is_tail-same item tail e = let on : (item == item) ≡ true = ground arith in ap (is_tail item) e ∙ on

pub is_tail-other : (item : ℕ) (tail : Option ℕ) → tail ≢ some item → is_tail item tail ≡ false
unfolding is_tail
is_tail-other item none ne = refl
is_tail-other item (some t) ne = elim (ℕ_discrete t item) [
  | yes p ↦ absurd (ne (ap (λ (x : ℕ). some x) p))
  | no other ↦ ground arith
]

pub is_tail-tail : (item : ℕ) (tail : Option ℕ) → is_tail item tail ≡ true → tail ≡ some item
unfolding is_tail
is_tail-tail item none e = absurd (cc e)
is_tail-tail item (some t) e =
    let same : item ≡ t = ground arith in ap (λ (x : ℕ). some x) (sym same)

pub append-run :
    (item last : ℕ) (buf : Buffer)
    → buf.tail ≡ some last
    → append_item item buf
      ≡ done (record buf {
        next = set_next item none (set_next last (some item) buf.next);
        pre = set_next item (some last) buf.pre;
        tail = some item;
      })
unfolding append_item
append-run item last buf e =
    ap
      (λ (t : Option ℕ). deref t >>= λ l. done (record buf {
        next = set_next item none (set_next l (some item) buf.next);
        pre = set_next item t buf.pre;
        tail = some item;
      }))
      e

-- What follows `link_before`.
pub close_gap : ℕ → Buffer → Run Buffer
close_gap item before = do
  after ← deref (before.next item)
  done (record before { pre = set_next after (before.pre item) before.pre })

pub close_gap-done :
    (item after : ℕ) (before : Buffer)
    → before.next item ≡ some after
    → close_gap item before
      ≡ done (record before { pre = set_next after (before.pre item) before.pre })
unfolding close_gap
close_gap-done item after before e =
    ap
      (λ (n : Option ℕ).
        deref n >>= λ x. done (record before { pre = set_next x (before.pre item) before.pre }))
      e

pub unlink-run :
    (item after : ℕ) (pre : Option ℕ) (buf : Buffer)
    → buf.pre item ≡ pre
    → (link_before pre item buf).next item ≡ some after
    → unlink_item item buf
      ≡ done (record (link_before pre item buf) {
        pre = set_next after ((link_before pre item buf).pre item) (link_before pre item buf).pre;
      })
unfolding unlink_item close_gap
unlink-run item after pre buf e behind =
    ap (λ (p : Option ℕ). close_gap item (link_before p item buf)) e
    ∙ close_gap-done item after (link_before pre item buf) behind
