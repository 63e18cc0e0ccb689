-- ===== src/Py/Effect.antt =====
-- Methods that change an object and may raise: what was assigned before the exception stays
-- assigned.
pub mod Post
pub mod Frame
use py_sqlbridge.Py.Result.{Exc, Result, ok, err}

abbrev pub Effect : Type 0 → Type 0 → Type 0
Effect S A = S → Result A × S

module _ {S A B : Type 0} where
  abbrev pub and_then : (A → Effect S B) → Result A × S → Result B × S
  and_then f (ok a, s) = f a s
  and_then f (err e, s) = (err e, s)

infixl 5 ◌>>=◌ ◌>>◌
abbrev pub ◌>>=◌ : {S A B : Type 0} → Effect S A → (A → Effect S B) → Effect S B
m >>= f = λ s. and_then f (m s)

abbrev pub ◌>>◌ : {S B : Type 0} → Effect S (Unit {0}) → Effect S B → Effect S B
m >> k = m >>= λ _. k

module _ {S A : Type 0} where
  abbrev pub return : A → Effect S A
  return a = λ s. (ok a, s)

  abbrev pub raise : Exc → Effect S A
  raise e = λ s. (err e, s)

  -- A computation that changes nothing.
  abbrev pub lift : Result A → Effect S A
  lift r = λ s. (r, s)

abbrev pub modify : {S : Type 0} → (S → S) → Effect S (Unit {0})
modify f = λ s. (ok tt, f s)

abbrev pub read : {S : Type 0} → Effect S S
read = λ s. (ok s, s)
