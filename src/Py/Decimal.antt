-- ===== src/Py/Decimal.antt =====
-- `str(n)` of a number that is not negative.
use native.Mathlib.Nat.{pow-suc}
use py_sqlbridge.Prelude.{
  ℕ, zero, suc, ◌+◌, ◌/◌, ◌%◌, ◌^◌, ◌≤◌, ◌<◌, arith, inl, inr, [], ◌∷◌, ◌++◌, ltb, if◌then◌else◌,
  length, length-append, All, All-append, Bool-cases,
}
use py_sqlbridge.Py.Utf16.{Str}
use py_sqlbridge.Py.Utf16.RoundTrip.{IsScalar}

-- The digits, with fuel; `n` has fewer than `n + 1` of them.
digits : ℕ → ℕ → Str
digits zero n = []
digits (suc fuel) n =
    let front = digits fuel (n / 10) in
    if ltb n 10 then (b'0' + n) ∷ [] else front ++ (b'0' + n % 10) ∷ []

unfoldable pub decimal : ℕ → Str
unfolding digits
decimal n = digits (suc n) n

digit-IsScalar : (d : ℕ) → d < 10 → IsScalar (b'0' + d)
digit-IsScalar d h = (omega arith, ground arith)

digits-IsScalar : (fuel n : ℕ) → All IsScalar (digits fuel n)
unfolding digits
digits-IsScalar zero n = tt
digits-IsScalar (suc fuel) n = elim (Bool-cases (ltb n 10)) [
  | inl small ↦ rw small (digit-IsScalar n (ground arith), tt)
  | inr big ↦ rw big (
      All-append IsScalar (digits fuel (n / 10)) _ (digits-IsScalar fuel (n / 10))
        (digit-IsScalar (n % 10) (omega arith), tt))
]

pub decimal-IsScalar : (n : ℕ) → All IsScalar (decimal n)
unfolding decimal
decimal-IsScalar n = digits-IsScalar (suc n) n

length-digits : (fuel n k : ℕ) → n < 10 ^ suc k → length (digits fuel n) ≤ suc k
unfolding digits
length-digits zero n k h = omega arith
length-digits (suc fuel) n zero h = let small : n < 10 = omega arith in ground arith
length-digits (suc fuel) n (suc k) h =
    let smaller : n / 10 < 10 ^ suc k = omega (arith, pow-suc 10 (suc k)) in
    let ih = length-digits fuel (n / 10) k smaller in
    let size = length-append (digits fuel (n / 10)) ((b'0' + n % 10) ∷ []) in
    ground (arith, ih, size)

-- Numbers of at most five digits.
pub length-decimal : (n : ℕ) → n < 65536 → length (decimal n) < 256
unfolding decimal
length-decimal n h = omega (arith, length-digits (suc n) n 4 (omega arith))
