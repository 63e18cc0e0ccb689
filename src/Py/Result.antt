-- ===== src/Py/Result.antt =====
-- Exceptions as values. A message is not modelled, the class that a handler can catch is.
use py_sqlbridge.Prelude.{◌≡◌, refl, ◌⊎◌, inl, inr, Bool, true, false}

-- The classes that the source raises, or lets escape from the standard library.
pub data Exc : Type 0 where
  protocol_error value_error struct_error index_error decode_error encode_error : Exc
  tls_error auth_error assertion_error overflow_error source_error type_error : Exc
  -- Whatever a query handler raised.
  handler_error : Exc
  -- No Python exception: a loop of the model ran out of rounds.
  out_of_fuel : Exc

pub data Result {ℓ} (Value : Type ℓ) : Type ℓ where
  err : Exc → Result Value
  ok : Value → Result Value

infixl 5 ◌>>=◌ ◌>>◌
abbrev pub ◌>>=◌ {ℓ κ} :
    {Value : Type ℓ} {Next : Type κ} → Result Value → (Value → Result Next) → Result Next
err raised >>= next = err raised
ok value >>= next = next value

abbrev pub ◌>>◌ {ℓ} : {Next : Type ℓ} → Result (Unit {0}) → Result Next → Result Next
first >> second = first >>= λ _. second

-- `if test: raise exc`
abbrev pub raise_if : Bool → Exc → Result (Unit {0})
raise_if false exc = ok tt
raise_if true exc = err exc

module _ {ℓ} {Value : Type ℓ} where
  pub Result-cases :
      (out : Result Value) → ((value : Value) × (out ≡ ok value)) ⊎ ((exc : Exc) × (out ≡ err exc))
  Result-cases (err exc) = inr (exc, refl)
  Result-cases (ok value) = inl (value, refl)

module _ {ℓ κ} {Value : Type ℓ} {Next : Type κ} where
  -- A bind that raises: its first part does, or what follows it.
  pub bind-eq-err :
      {exc : Exc} (first : Result Value) (next : Value → Result Next)
      → (first >>= next) ≡ err exc
      → (first ≡ err exc) ⊎ ((value : Value) × (first ≡ ok value) × (next value ≡ err exc))
  bind-eq-err (err raised) next h = inl cc
  bind-eq-err (ok value) next h = inr (value, refl, h)

  -- What a successful bind went through.
  pub bind-eq-ok :
      {result : Next} (first : Result Value) (next : Value → Result Next)
      → (first >>= next) ≡ ok result
      → (value : Value) × (first ≡ ok value) × (next value ≡ ok result)
  bind-eq-ok (err raised) next h = cc
  bind-eq-ok (ok value) next h = (value, refl, h)

-- `m` returns, or raises `c`: it raises nothing else.
pub data RaisesOnly {ℓ} (c : Exc) {A : Type ℓ} : Result A → Type ℓ where
  returns : (a : A) → RaisesOnly c (ok a)
  raises : RaisesOnly c (err c)

module _ {ℓ} {c : Exc} {A : Type ℓ} where
  pub RaisesOnly-err : (m : Result A) {e : Exc} → RaisesOnly c m → m ≡ err e → e ≡ c
  RaisesOnly-err _ (returns a) h = cc
  RaisesOnly-err _ raises h = cc

  pub RaisesOnly-of_err : (m : Result A) → ((e : Exc) → m ≡ err e → e ≡ c) → RaisesOnly c m
  RaisesOnly-of_err (ok a) h = returns a
  RaisesOnly-of_err (err e) h = rw (h e refl) raises

  pub RaisesOnly-ok : (m : Result A) {a : A} → m ≡ ok a → RaisesOnly c m
  RaisesOnly-ok m {a} h = rw h (returns a)

module _ {c : Exc} where
  pub RaisesOnly-raise_if : (b : Bool) → RaisesOnly c (raise_if b c)
  RaisesOnly-raise_if true = raises
  RaisesOnly-raise_if false = returns tt

module _ {ℓ κ} {c : Exc} {A : Type ℓ} {B : Type κ} where
  pub RaisesOnly-bind :
      (m : Result A) (f : A → Result B)
      → RaisesOnly c m
      → ((a : A) → RaisesOnly c (f a))
      → RaisesOnly c (m >>= f)
  RaisesOnly-bind _ f (returns a) k = k a
  RaisesOnly-bind _ f raises k = raises
