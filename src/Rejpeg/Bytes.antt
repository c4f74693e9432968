-- ===== src/Rejpeg/Bytes.antt =====
-- Little-endian numbers in the buffers of rejpeg.c.
use im_dedup_plus.Prelude.{
  ℕ, zero, suc, ◌+◌, ◌*◌, ◌/◌, ◌%◌, ◌^◌, ◌<◌, ◌≡◌, refl, ap, ap₂, sym, ◌∙◌, arith,
}
use im_dedup_plus.Prelude.{Option, none, some, ◌>>=◌, length, List, [], ◌∷◌, ◌++◌, append-nil}

-- `memcpy(buf, &n, sizeof(uint32_t))`.
unfoldable pub u32_bytes : ℕ → List ℕ
u32_bytes n = n % 256 ∷ n / 256 % 256 ∷ n / 65536 % 256 ∷ n / 16777216 % 256 ∷ []

-- The 16-bit words of the value data.
unfoldable pub word_bytes : List ℕ → List ℕ
word_bytes [] = []
word_bytes (w ∷ ws) = w % 256 ∷ w / 256 % 256 ∷ word_bytes ws

-- `memcpy(&n, ptr, sizeof(uint32_t))`, and what is behind.
unfoldable pub read_u32 : List ℕ → Option (ℕ × List ℕ)
read_u32 (a ∷ b ∷ c ∷ d ∷ rest) = some (a + 256 * b + 65536 * c + 16777216 * d, rest)
read_u32 (a ∷ b ∷ c ∷ []) = none
read_u32 (a ∷ b ∷ []) = none
read_u32 (a ∷ []) = none
read_u32 [] = none

-- `n` bytes, and what is behind.
unfoldable pub read_bytes : ℕ → List ℕ → Option (List ℕ × List ℕ)
read_bytes zero bs = some ([], bs)
read_bytes (suc n) [] = none
read_bytes (suc n) (b ∷ bs) = do (taken, rest) ← read_bytes n bs; some (b ∷ taken, rest)

-- The bytes as `short`s.
unfoldable pub words_of : List ℕ → List ℕ
words_of (a ∷ b ∷ bs) = (a + 256 * b) ∷ words_of bs
words_of (a ∷ []) = []
words_of [] = []

abbrev pub AllWords : List ℕ → Type 0
AllWords [] = Unit
AllWords (w ∷ ws) = (w < 2 ^ 16) × AllWords ws

pub read_u32-u32_bytes :
    (n : ℕ) (rest : List ℕ) → n < 2 ^ 32 → read_u32 (u32_bytes n ++ rest) ≡ some (n, rest)
unfolding read_u32 u32_bytes
read_u32-u32_bytes n rest h =
    ap (λ (m : ℕ). some (m, rest))
      {x = n % 256
        + 256 * (n / 256 % 256)
        + 65536 * (n / 65536 % 256)
        + 16777216 * (n / 16777216 % 256)}
      {y = n} (omega arith)

pub read_bytes-append :
    (taken rest : List ℕ) → read_bytes (length taken) (taken ++ rest) ≡ some (taken, rest)
unfolding read_bytes
read_bytes-append [] rest = refl
read_bytes-append (b ∷ bs) rest = rw (read_bytes-append bs rest) refl

pub words_of-word_bytes : (ws : List ℕ) → AllWords ws → words_of (word_bytes ws) ≡ ws
unfolding words_of word_bytes
words_of-word_bytes [] h = refl
words_of-word_bytes (w ∷ ws) (p, h) = ap₂ ◌∷◌ (omega arith) (words_of-word_bytes ws h)

pub length-word_bytes : (ws : List ℕ) → length (word_bytes ws) ≡ 2 * length ws
unfolding word_bytes
length-word_bytes [] = omega arith
length-word_bytes (w ∷ ws) = omega (arith, length-word_bytes ws)

pub read_all : (n : ℕ) (bs : List ℕ) → length bs ≡ n → read_bytes n bs ≡ some (bs, [])
read_all n bs h =
    ap (λ (k : ℕ). read_bytes k bs) (sym h)
    ∙ ap (λ (l : List ℕ). read_bytes (length bs) l) (sym (append-nil bs))
    ∙ read_bytes-append bs []
