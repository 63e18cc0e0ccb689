-- ===== src/Py/Int.antt =====
-- Python's integers, as far as the wire reads and writes them.
pub mod Laws
use py_sqlbridge.Prelude.{ℕ, ◌+◌, ◌-◌, ◌*◌, ◌^◌, Bool, true, false, ltb, length, if◌then◌else◌}
use py_sqlbridge.Py.Result.{Exc, Result, ok, err}
use py_sqlbridge.Py.Bytes.{Bytes, le_bytes, le_value}

-- `negsuc n` is -(n + 1).
pub data ℤ : Type 0 where
  pos : ℕ → ℤ
  negsuc : ℕ → ℤ

-- `int.from_bytes(raw, "little", signed=True)`
pub signed_value : Bytes → ℤ
signed_value raw =
    let v = le_value raw in
    let modulus = 256 ^ length raw in
    if ltb (2 * v) modulus then pos v else negsuc (modulus - v - 1)

-- The `w` bytes of an integer, lowest first: two's complement where it is signed.
unfoldable pub le_integer : ℕ → ℤ → Bytes
unfolding le_bytes
le_integer w (pos n) = le_bytes w n
le_integer w (negsuc n) = le_bytes w (256 ^ w - (n + 1))

-- Whether an integer has `w` bytes, signed or not.
abbrev pub fits_bytes : Bool → ℕ → ℤ → Bool
fits_bytes false w (pos n) = ltb n (256 ^ w)
fits_bytes false w (negsuc n) = false
fits_bytes true w (pos n) = ltb (2 * n) (256 ^ w)
fits_bytes true w (negsuc n) = ltb (2 * n + 1) (256 ^ w)

-- `number.to_bytes(w, "little", signed=signed)`, and a signed field of `struct.pack`: they differ
-- in what they raise.
abbrev pub write_integer : Exc → Bool → ℕ → ℤ → Result Bytes
write_integer raised signed w z = if fits_bytes signed w z then ok (le_integer w z) else err raised

-- `int.from_bytes(raw, "little", signed=signed)`
abbrev pub integer_value : Bool → Bytes → ℤ
integer_value true raw = signed_value raw
integer_value false raw = pos (le_value raw)
