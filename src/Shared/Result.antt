-- ===== src/Shared/Result.antt =====
-- The outcome of Python code that returns a value or raises, with no state of its own.
use mathlib.Core.Option.{Option, none, some}

pub data Result {ℓ} (X A : Type ℓ) : Type ℓ where
  ok : A → Result X A
  raised : X → Result X A

infixl 10 ◌>>=◌ ◌>>◌
abbrev pub ◌>>=◌ {ℓ} : {X A B : Type ℓ} → Result X A → (A → Result X B) → Result X B
ok a >>= f = f a
raised x >>= f = raised x

abbrev pub ◌>>◌ {ℓ} : {X A B : Type ℓ} → Result X A → Result X B → Result X B
m >> k = m >>= λ _. k

-- A value that must be there; `x` is raised where it is not.
abbrev pub some_or {ℓ} : {X A : Type ℓ} → Option A → X → Result X A
some_or none x = raised x
some_or (some a) x = ok a
