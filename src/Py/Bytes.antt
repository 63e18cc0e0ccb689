-- ===== src/Py/Bytes.antt =====
-- Python's `bytes` as lists of numbers, and the integer fields of the `struct` module.
pub mod Fields
pub mod Cursor
pub mod Total
use mathlib.Core.List.{reverse}
use py_sqlbridge.Prelude.{
  ℕ, zero, suc, ◌+◌, ◌-◌, ◌*◌, ◌/◌, ◌%◌, ◌^◌, ◌<◌, Bool, Option, none, some, List, [], ◌∷◌, leb,
  ltb, length, take, drop, get_elem?, if◌then◌else◌,
}
use py_sqlbridge.Py.Result.{Exc, Result, ok, err, struct_error, index_error, value_error}

abbrev pub Bytes : Type 0
Bytes = List ℕ

abbrev pub IsByte : ℕ → Type 0
IsByte b = b < 256

-- `p[a:b]` for positions that are not negative: what lies past the end is left out.
abbrev pub slice {ℓ} : {A : Type ℓ} → List A → ℕ → ℕ → List A
slice p a b = take (b - a) (drop a p)

abbrev pub or_raise {ℓ} : {A : Type ℓ} → Exc → Option A → Result A
or_raise e none = err e
or_raise e (some a) = ok a

-- `p[i]`
unfoldable pub index : Bytes → ℕ → Result ℕ
index p i = or_raise index_error (get_elem? p i)

-- The `w` bytes of a number, lowest first, and the number that bytes stand for.
unfoldable pub le_bytes : ℕ → ℕ → Bytes
le_bytes zero n = []
le_bytes (suc w) n = (n % 256) ∷ le_bytes w (n / 256)

pub le_value : Bytes → ℕ
le_value [] = 0
le_value (b ∷ bs) = b + 256 * le_value bs

unfoldable pub be_bytes : ℕ → ℕ → Bytes
unfolding le_bytes
be_bytes w n = reverse (le_bytes w n)

pub be_value : Bytes → ℕ
unfolding le_value
be_value bs = le_value (reverse bs)

-- `struct.pack` of one unsigned field of `w` bytes, in either byte order.
unfoldable pub pack_le : ℕ → ℕ → Result Bytes
unfolding le_bytes
pack_le w n = if ltb n (256 ^ w) then ok (le_bytes w n) else err struct_error

unfoldable pub pack_be : ℕ → ℕ → Result Bytes
unfolding be_bytes
pack_be w n = if ltb n (256 ^ w) then ok (be_bytes w n) else err struct_error

-- `bytes([n])`
unfoldable pub byte : ℕ → Result Bytes
byte n = if ltb n 256 then ok (n ∷ []) else err value_error

-- `struct.unpack_from` of one unsigned field of `w` bytes at `at`.
unfoldable pub unpack_le : ℕ → Bytes → ℕ → Result ℕ
unfolding le_value
unpack_le w p at =
    if leb (at + w) (length p) then ok (le_value (slice p at (at + w))) else err struct_error

unfoldable pub unpack_be : ℕ → Bytes → ℕ → Result ℕ
unfolding be_value
unpack_be w p at =
    if leb (at + w) (length p) then ok (be_value (slice p at (at + w))) else err struct_error
