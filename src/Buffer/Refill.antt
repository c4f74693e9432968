-- ===== src/Buffer/Refill.antt =====
-- buffer.c: `move_in_buffer` beside `use_again`, where the data of the item has gone.
use im_dedup_plus.Prelude.{
  ℕ, ◌-◌, ◌^◌, ◌≤◌, ◌<◌, ◌≡◌, ◌≢◌, refl, sym, subst, ◌∙◌, arith, sub64, Bool, true, false, ◌==◌,
  if◌then◌else◌, Bool-cases, inl, inr,
}
use im_dedup_plus.Prelude.{length, List, [], ◌∷◌, ◌++◌}
use native.Mathlib.Decide.{ℕ_discrete}
use im_dedup_plus.Queue.Chain.{count, count-here}
use im_dedup_plus.Buffer.{
  Buffer, set_filled, append_item, move_action, make_room, fill_buf_node, move_in_buffer,
}
use im_dedup_plus.Buffer.Outcome.{done}
use im_dedup_plus.Buffer.Chain.{count-skip}
use im_dedup_plus.Buffer.Spec.{evict, insert_held, use_again}
use im_dedup_plus.Buffer.Content.{
  HasContent, HasContent-new, set_filled-same, set_filled-other, apart,
}
use im_dedup_plus.Buffer.Room.{IsBuffer}
use im_dedup_plus.Buffer.Evict.{Agrees, make_room-evict}
use im_dedup_plus.Buffer.Insert.{Ample, evict-Ample, Agrees-then, nought}
use im_dedup_plus.Buffer.Tail.{append-run}
use im_dedup_plus.Buffer.Move.{placed, again}

abbrev without : ℕ → List ℕ → List ℕ
without a [] = []
without a (n ∷ ns) = if n == a then without a ns else n ∷ without a ns

count-without-same : (a : ℕ) (ns : List ℕ) → count a (without a ns) ≡ 0
count-without-same a [] = refl
count-without-same a (n ∷ ns) = ground (arith, count-without-same a ns)

count-without-other : (b a : ℕ) (ns : List ℕ) → a ≢ b → count b (without a ns) ≡ count b ns
count-without-other b a [] ne = refl
count-without-other b a (n ∷ ns) ne = ground (arith, count-without-other b a ns ne)

module _ (others : ℕ → Bool) (known : List ℕ) (item : ℕ) where
  -- While its data comes back, the item counts as one that is not known.
  forget :
      (items : List ℕ) (filled : ℕ → Bool)
      → count item items ≡ 0
      → HasContent others known items filled
      → HasContent
          (set_filled item true others)
          (without item known)
          items
          (set_filled item true filled)
  forget items filled absent q = record {
    listed = λ a h.
        let ne = apart item a items absent h in
        omega (arith, count-without-other a item known ne, q.listed a h);
    full = λ a h. set_filled-other item a true filled (apart item a items absent h) ∙ q.full a h;
    held = λ a h e.
        let ne = apart item a (without item known) (count-without-same item known) h in
        q.held a (omega (arith, h, count-without-other a item known ne))
          (sym (set_filled-other item a true filled ne) ∙ e);
    kept = λ a h. elim (ℕ_discrete item a) [
      | yes p ↦
          subst (λ (x : ℕ). set_filled item true filled x ≡ set_filled item true others x) p
            (set_filled-same item true filled ∙ sym (set_filled-same item true others))
      | no ne ↦
          set_filled-other item a true filled ne
          ∙ q.kept a (omega (arith, h, count-without-other a item known ne))
          ∙ sym (set_filled-other item a true others ne)
    ];
  }

  recall :
      (items : List ℕ) (filled : ℕ → Bool)
      → 1 ≤ count item known
      → HasContent (set_filled item true others) (item ∷ without item known) items filled
      → HasContent others known items filled
  recall items filled known_item q = record {
    listed = λ a h. elim (ℕ_discrete item a) [
      | yes p ↦ subst (λ (x : ℕ). 1 ≤ count x known) p known_item
      | no ne ↦ omega (arith, q.listed a h, as_before a ne)
    ];
    full = q.full;
    held = λ a h e. elim (ℕ_discrete item a) [
      | yes p ↦
          q.held a
            (subst (λ (x : ℕ). 1 ≤ count x (item ∷ without item known)) p
              (omega (arith, count-here item (without item known))))
            e
      | no ne ↦ q.held a (omega (arith, h, as_before a ne)) e
    ];
    kept = λ a h.
        let ne : item ≢ a = λ p. apart a item known h known_item (sym p) in
        q.kept a (omega (arith, h, as_before a ne)) ∙ set_filled-other item a true others ne;
  }
    where
      as_before : (a : ℕ) → item ≢ a → count a (item ∷ without item known) ≡ count a known
      as_before a ne =
          count-skip a item (without item known) ne ∙ count-without-other a item known ne

module _ (node_size : ℕ → ℕ) (capacity : ℕ) (others : ℕ → Bool) (known : List ℕ)
    (large : (n : ℕ) → 0 < node_size n) (bounded : capacity < 2 ^ 64) (links : ℕ → ℕ → ℕ)
    (fuel item : ℕ) (items : List ℕ) (buf : Buffer)
    (q : IsBuffer node_size capacity others known items buf) (known_item : 1 ≤ count item known)
    (some_node : 1 ≤ length items) where
  -- The buffer with the data back, before there is room for it.
  filling : Buffer
  unfolding set_filled
  filling = record buf { filled = set_filled item true buf.filled }

  refill :
      count item items ≡ 0
      → Agrees node_size capacity others known
          (move_action (λ e b. make_room node_size links fuel e b) item (node_size item) filling)
          (insert_held node_size links fuel item items buf.size)
  unfolding move_action insert_held filling
  refill absent =
      let some_bytes : (node_size item == 0) ≡ false = ground (arith, large item) in
      let told = set_filled item true others in
      let forgotten : IsBuffer node_size capacity told (without item known) items filling = record {
        linked = record {
          chained = q.linked.chained;
          back = q.linked.back;
          last = q.linked.last;
          room = q.linked.room;
          simple = q.linked.simple;
        };
        content = forget others known item items buf.filled absent q.content;
      } in
      rw (move_action, some_bytes)
        (Agrees-then node_size capacity told others (without item known) known
          (Ample (node_size item) items)
          (λ b. append_item item (record b { size = sub64 b.size (node_size item) }))
          (λ h. done (record { items = h.items ++ item ∷ []; room = h.room - node_size item }))
          (make_room node_size links fuel (node_size item) filling)
          (evict node_size links fuel (node_size item) items buf.size)
          (make_room-evict node_size capacity told (without item known) large bounded links fuel
            (node_size item) items filling forgotten)
          (evict-Ample node_size links fuel (node_size item) items buf.size)
          (λ b h k same ample.
            let missing =
              not_listed (without item known) h.items b.filled told (count-without-same item known)
                k.content in
            let (last, tailed, linked) =
              placed node_size capacity bounded item h.items b (ample.1 some_node) missing
                (omega (arith, ample.0, same)) k.linked in
            rw (append-run item last (record b { size = sub64 b.size (node_size item) }) tailed) (
              record {
                linked = record {
                  chained = linked.chained;
                  back = linked.back;
                  last = linked.last;
                  room = linked.room;
                  simple = linked.simple;
                };
                content = recall others known item (h.items ++ item ∷ []) b.filled known_item (
                    HasContent-new told (without item known) b.filled item h.items
                      (set_filled-same item true others) (count-without-same item known) k.content);
              },
              omega (arith, ample.0, same, k.linked.room, bounded),
            )))
    where
      not_listed :
          (ks is : List ℕ) (filled told : ℕ → Bool)
          → count item ks ≡ 0
          → HasContent told ks is filled
          → count item is ≡ 0
      not_listed ks is filled told h c = elim (nought (count item is)) [
        | inl e ↦ e
        | inr more ↦ absurd (omega (arith, h, c.listed item more))
      ]

  -- For positive sizes and a capacity below 2^64, whatever the other threads do with the links: a node
  -- that a buffer of at least one node knows moves behind the others,
  -- with its data back where it had gone, as `use_again` says, or fails as it does.
  pub move_in_buffer-use_again :
      Agrees node_size capacity others known
        (move_in_buffer node_size links fuel item buf)
        (use_again node_size links (buf.filled item) fuel item items buf.size)
  unfolding move_in_buffer use_again fill_buf_node filling
  move_in_buffer-use_again = elim (Bool-cases (buf.filled item)) [
    | inl there ↦
        rw (move_in_buffer, fill_buf_node, there)
          (again node_size capacity bounded others known (λ e b. make_room node_size links fuel e b)
            item items buf q (q.content.held item known_item there))
    | inr gone ↦
        let absent : count item items ≡ 0 = elim (nought (count item items)) [
          | inl e ↦ e
          | inr more ↦ absurd (cc (sym gone ∙ q.content.full item more))
        ] in
        rw (move_in_buffer, fill_buf_node, gone) (refill absent)
  ]
