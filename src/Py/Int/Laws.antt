-- ===== src/Py/Int/Laws.antt =====
-- Integers are read back from the bytes that are written of them.
use py_sqlbridge.Prelude.{
  ℕ, ◌+◌, ◌-◌, ◌*◌, ◌^◌, ◌<◌, ◌≡◌, refl, ap, arith, Bool, true, false, inl, inr, ltb, length,
  Bool-cases, if◌then◌else◌, ltb→lt, le→ltb,
}
use py_sqlbridge.Py.Result.{Exc, ok}
use py_sqlbridge.Py.Bytes.{Bytes, le_bytes}
use py_sqlbridge.Py.Bytes.Fields.{length-le_bytes, le_value-le_bytes}
use py_sqlbridge.Py.Int.{
  ℤ, pos, negsuc, signed_value, le_integer, fits_bytes, write_integer, integer_value,
}

pub length-le_integer : (w : ℕ) (z : ℤ) → length (le_integer w z) ≡ w
unfolding le_integer
length-le_integer w (pos n) = length-le_bytes w n
length-le_integer w (negsuc n) = length-le_bytes w (256 ^ w - (n + 1))

signed_of :
    (w v : ℕ)
    → v < 256 ^ w
    → signed_value (le_bytes w v)
      ≡ (if ltb (2 * v) (256 ^ w) then pos v else negsuc (256 ^ w - v - 1))
unfolding signed_value
signed_of w v h = rw (le_value-le_bytes w v h, length-le_bytes w v) refl

integer_value-le_integer :
    (signed : Bool) (w : ℕ) (z : ℤ)
    → fits_bytes signed w z ≡ true
    → integer_value signed (le_integer w z) ≡ z
unfolding le_integer
integer_value-le_integer false w (pos n) h = ap pos (le_value-le_bytes w n (ltb→lt n (256 ^ w) h))
integer_value-le_integer false w (negsuc n) h = cc
integer_value-le_integer true w (pos n) h =
    let small = ltb→lt (2 * n) (256 ^ w) h in rw (signed_of w n (omega (arith, small)), h) refl
integer_value-le_integer true w (negsuc n) h =
    let small : 2 * n + 1 < 256 ^ w = ltb→lt (2 * n + 1) (256 ^ w) h in
    let v = 256 ^ w - (n + 1) in
    let big : ltb (2 * v) (256 ^ w) ≡ false = le→ltb (2 * v) (256 ^ w) (omega (arith, small)) in
    let back : 256 ^ w - v - 1 ≡ n = omega (arith, small) in
    rw (signed_of w v (omega (arith, small)), big) (ap negsuc back)

-- What is written of an integer: as many bytes as the field has, from which it is read.
pub write_integer-eq-ok :
    (raised : Exc) (signed : Bool) (w : ℕ) (z : ℤ) {raw : Bytes}
    → write_integer raised signed w z ≡ ok raw
    → (length raw ≡ w) × (integer_value signed raw ≡ z)
write_integer-eq-ok raised signed w z {raw} h = elim (Bool-cases (fits_bytes signed w z)) [
  | inl fits ↦
      let same : le_integer w z ≡ raw =
        (let e : ok (le_integer w z) ≡ ok raw = rw fits at h in cc) in
      rw (← same) (length-le_integer w z, integer_value-le_integer signed w z fits)
  | inr over ↦ cc (rw over at h)
]
