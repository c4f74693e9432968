-- ===== src/Rejpeg/Retry/Ends.antt =====
-- rejpeg.c: the doubling of the buffer comes to an end, at 0 if not before.
use native.Mathlib.Nat.{pow-suc}
use im_dedup_plus.Prelude.{ℕ, suc, ◌*◌, ◌^◌, ◌≡◌, ap, ◌∙◌, arith, u32, ◌<<<◌}

doubled : (c i : ℕ) → u32 (u32 (c * 2 ^ i) <<< 1) ≡ u32 (c * 2 ^ suc i)
doubled c i =
    let twice : c * 2 ^ suc i ≡ c * 2 ^ i * 2 = ap (λ (p : ℕ). c * p) (pow-suc 2 i) ∙ grind arith in
    rw twice (omega arith)
