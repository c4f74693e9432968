-- ===== src/Buffer/Outcome.antt =====
-- What a function of buffer.c comes to: a result, an access through `NULL`, or more rounds than the
-- fuel allows.
use im_dedup_plus.Prelude.{ℕ, Option, none, some}

pub data Run (A : Type 0) : Type 0 where
  done : A → Run A
  null_pointer : Run A
  out_of_fuel : Run A

infixl 5 ◌>>=◌
abbrev pub ◌>>=◌ : {A B : Type 0} → Run A → (A → Run B) → Run B
done a >>= f = f a
null_pointer >>= f = null_pointer
out_of_fuel >>= f = out_of_fuel

abbrev pub deref : Option ℕ → Run ℕ
deref none = null_pointer
deref (some n) = done n
