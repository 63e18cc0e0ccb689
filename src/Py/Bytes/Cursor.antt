-- ===== src/Py/Bytes/Cursor.antt =====
-- Reading at a position of which it is known what lies behind it.
use py_sqlbridge.Prelude.{
  ℕ, zero, suc, ◌+◌, ◌-◌, ◌^◌, ◌≤◌, ◌<◌, ◌≡◌, refl, ap, ◌∙◌, arith, List, [], ◌∷◌, ◌++◌, length,
  length-append, length-drop, take, drop, take-length, drop-length, drop-drop, le→leb,
}
use py_sqlbridge.Py.Result.{ok}
use py_sqlbridge.Py.Bytes.{
  Bytes, slice, index, le_bytes, le_value, be_bytes, be_value, unpack_le, unpack_be,
}
use py_sqlbridge.Py.Bytes.Fields.{
  length-le_bytes, length-be_bytes, le_value-le_bytes, be_value-be_bytes,
}

module _ {ℓ} {A : Type ℓ} (p : List A) (at : ℕ) (xs rest : List A)
    (here : drop at p ≡ xs ++ rest) where
  pub advance : (b : ℕ) → b ≡ at + length xs → drop b p ≡ rest
  advance b e =
      drop-drop at (length xs) b p e
      ∙ ap (λ t. drop (length xs) t) here
      ∙ drop-length xs rest (length xs) refl

  pub slice_here : (b : ℕ) → b ≡ at + length xs → slice p at b ≡ xs
  slice_here b e = ap (λ t. take (b - at) t) here ∙ take-length xs rest (b - at) (omega arith)

  -- Bytes that are there lie within.
  room_here : 0 < length xs → at + length xs ≤ length p
  room_here h = omega (arith, length-drop at p, ap length here, length-append xs rest)

pub index_here : (p : Bytes) (at b : ℕ) (rest : Bytes) → drop at p ≡ b ∷ rest → index p at ≡ ok b
unfolding index
index_here [] zero b rest h = cc
index_here [] (suc at) b rest h = cc
index_here (x ∷ p) zero b rest h = cc
index_here (x ∷ p) (suc at) b rest h = index_here p at b rest h

pub unpack_le_here :
    (w : ℕ) (p : Bytes) (at n : ℕ) (rest : Bytes)
    → drop at p ≡ le_bytes w n ++ rest
    → n < 256 ^ w
    → 0 < w
    → unpack_le w p at ≡ ok n
unfolding unpack_le
unpack_le_here w p at n rest h fits pos =
    let wide : length (le_bytes w n) ≡ w = length-le_bytes w n in
    let room : at + w ≤ length p = omega (arith, room_here p at (le_bytes w n) rest h) in
    rw (le→leb (at + w) (length p) room) (
      ap ok (
        ap le_value (slice_here p at (le_bytes w n) rest h (at + w) (omega arith))
        ∙ le_value-le_bytes w n fits))

pub unpack_be_here :
    (w : ℕ) (p : Bytes) (at n : ℕ) (rest : Bytes)
    → drop at p ≡ be_bytes w n ++ rest
    → n < 256 ^ w
    → 0 < w
    → unpack_be w p at ≡ ok n
unfolding unpack_be
unpack_be_here w p at n rest h fits pos =
    let wide : length (be_bytes w n) ≡ w = length-be_bytes w n in
    let room : at + w ≤ length p = omega (arith, room_here p at (be_bytes w n) rest h) in
    rw (le→leb (at + w) (length p) room) (
      ap ok (
        ap be_value (slice_here p at (be_bytes w n) rest h (at + w) (omega arith))
        ∙ be_value-be_bytes w n fits))

-- What lies behind a field.
pub past_le :
    (w : ℕ) (p : Bytes) (at n b : ℕ) (rest : Bytes)
    → drop at p ≡ le_bytes w n ++ rest
    → b ≡ at + w
    → drop b p ≡ rest
past_le w p at n b rest h e =
    advance p at (le_bytes w n) rest h b (omega (arith, length-le_bytes w n))

pub past_be :
    (w : ℕ) (p : Bytes) (at n b : ℕ) (rest : Bytes)
    → drop at p ≡ be_bytes w n ++ rest
    → b ≡ at + w
    → drop b p ≡ rest
past_be w p at n b rest h e =
    advance p at (be_bytes w n) rest h b (omega (arith, length-be_bytes w n))
