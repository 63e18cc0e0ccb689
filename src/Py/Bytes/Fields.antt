-- ===== src/Py/Bytes/Fields.antt =====
-- The bytes of a number stand for it, and there are as many as the field is wide.
use mathlib.Core.List.{reverse-reverse}
use native.Mathlib.Nat.{pow-suc}
use py_sqlbridge.Prelude.{
  ℕ, zero, suc, ◌+◌, ◌*◌, ◌/◌, ◌%◌, ◌^◌, ◌≤◌, ◌<◌, ◌≡◌, refl, ap, ◌∙◌, arith, [], ◌∷◌, All, length,
  length-reverse, lt→ltb,
}
use py_sqlbridge.Py.Result.{ok}
use py_sqlbridge.Py.Bytes.{
  Bytes, IsByte, le_bytes, le_value, be_bytes, be_value, pack_le, pack_be, byte, unpack_le,
  unpack_be,
}

pub length-le_bytes : (w n : ℕ) → length (le_bytes w n) ≡ w
unfolding le_bytes
length-le_bytes zero n = refl
length-le_bytes (suc w) n = ap suc (length-le_bytes w (n / 256))

pub length-be_bytes : (w n : ℕ) → length (be_bytes w n) ≡ w
unfolding be_bytes
length-be_bytes w n = length-reverse (le_bytes w n) ∙ length-le_bytes w n

pub le_value-le_bytes : (w n : ℕ) → n < 256 ^ w → le_value (le_bytes w n) ≡ n
unfolding le_bytes le_value
le_value-le_bytes zero n h = omega arith
le_value-le_bytes (suc w) n h =
    let small : n / 256 < 256 ^ w = omega (arith, pow-suc 256 w) in
    omega (arith, le_value-le_bytes w (n / 256) small)

pub be_value-be_bytes : (w n : ℕ) → n < 256 ^ w → be_value (be_bytes w n) ≡ n
unfolding be_bytes be_value
be_value-be_bytes w n h = ap le_value (reverse-reverse (le_bytes w n)) ∙ le_value-le_bytes w n h

le_value-lt : (bs : Bytes) → All IsByte bs → le_value bs < 256 ^ length bs
unfolding le_value
le_value-lt [] h = omega arith
le_value-lt (b ∷ bs) h = omega (arith, h.0, le_value-lt bs h.1, pow-suc 256 (length bs))

le_bytes-le_value :
    (bs : Bytes) (w : ℕ) → All IsByte bs → w ≡ length bs → le_bytes w (le_value bs) ≡ bs
unfolding le_bytes le_value
le_bytes-le_value [] zero h e = refl
le_bytes-le_value [] (suc w) h e = absurd (omega arith)
le_bytes-le_value (b ∷ bs) zero h e = absurd (omega arith)
le_bytes-le_value (b ∷ bs) (suc w) h e =
    let low : (b + 256 * le_value bs) % 256 ≡ b = omega arith in
    let high : (b + 256 * le_value bs) / 256 ≡ le_value bs = omega arith in
    rw (low, high) (ap (λ t. b ∷ t) (le_bytes-le_value bs w h.1 (omega arith)))

le_bytes-IsByte : (w n : ℕ) → All IsByte (le_bytes w n)
unfolding le_bytes
le_bytes-IsByte zero n = tt
le_bytes-IsByte (suc w) n = (omega arith, le_bytes-IsByte w (n / 256))

pub le_value_one : (n : ℕ) → le_value (n ∷ []) ≡ n
unfolding le_value
le_value_one n = omega arith

pub pack_le_fits : (w n : ℕ) → n < 256 ^ w → pack_le w n ≡ ok (le_bytes w n)
unfolding pack_le
pack_le_fits w n h = rw (lt→ltb n (256 ^ w) h)

pub pack_be_fits : (w n : ℕ) → n < 256 ^ w → pack_be w n ≡ ok (be_bytes w n)
unfolding pack_be
pack_be_fits w n h = rw (lt→ltb n (256 ^ w) h)

pub pack_le-eq-ok :
    (w n : ℕ) {bs : Bytes} → pack_le w n ≡ ok bs → (n < 256 ^ w) × (bs ≡ le_bytes w n)
unfolding pack_le
pack_le-eq-ok w n h = ground arith

pub pack_be-eq-ok :
    (w n : ℕ) {bs : Bytes} → pack_be w n ≡ ok bs → (n < 256 ^ w) × (bs ≡ be_bytes w n)
unfolding pack_be
pack_be-eq-ok w n h = ground arith

pub byte_fits : (n : ℕ) → n < 256 → byte n ≡ ok (n ∷ [])
unfolding byte
byte_fits n h = rw (lt→ltb n 256 h)

pub byte-eq-ok : (n : ℕ) {bs : Bytes} → byte n ≡ ok bs → (n < 256) × (bs ≡ n ∷ [])
unfolding byte
byte-eq-ok n h = ground arith

unpack_le_within :
    (w : ℕ) (p : Bytes) (at : ℕ) {n : ℕ} → unpack_le w p at ≡ ok n → at + w ≤ length p
unfolding unpack_le
unpack_le_within w p at h = ground arith

unpack_be_within :
    (w : ℕ) (p : Bytes) (at : ℕ) {n : ℕ} → unpack_be w p at ≡ ok n → at + w ≤ length p
unfolding unpack_be
unpack_be_within w p at h = ground arith
