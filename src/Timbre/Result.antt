-- ===== src/Timbre/Result.antt =====
-- The results of decoding (crates/timbre-xbt/src/lib.rs, `TimbreError`).
use maestro_dogecoin_indexer.Prelude.{ℕ, Option, none, some}

-- The errors, without their texts.
pub data TimbreError : Type 0 where
  malformed_input invalid_utf8 : TimbreError
  varuint_casting : ℕ → TimbreError

-- `Result<A, TimbreError>`, with a panic as a third case.
pub data Result (A : Type 0) : Type 0 where
  ok : A → Result A
  failed : TimbreError → Result A
  panicked : Result A

infixl 5 ◌>>=◌
abbrev pub ◌>>=◌ : {A B : Type 0} → Result A → (A → Result B) → Result B
ok a >>= f = f a
failed e >>= f = failed e
panicked >>= f = panicked

-- `ok_or`
abbrev pub ok_or : {A : Type 0} → Option A → TimbreError → Result A
ok_or none e = failed e
ok_or (some a) e = ok a
