-- ===== src/Py/Utf16/Sizes.antt =====
-- How many bytes a text takes: two for a character of the basic plane, four for any other.
use py_sqlbridge.Prelude.{
  ℕ, ◌+◌, ◌*◌, ◌≤◌, ◌≡◌, ap, arith, inl, inr, List, [], ◌∷◌, ◌++◌, ltb, length, Bool-cases,
  if◌then◌else◌,
}
use py_sqlbridge.Py.Result.{ok, bind-eq-ok}
use py_sqlbridge.Py.Bytes.{Bytes}
use py_sqlbridge.Py.Utf16.{
  Str, is_surrogate, units_of, units, unit_bytes, encode_utf16, units_pass, encode_pass,
}
use py_sqlbridge.Py.Utf16.RoundTrip.{length-unit_bytes}

-- The characters outside the basic plane.
abbrev pub astral : Str → ℕ
astral [] = 0
astral (c ∷ s) = (if ltb c 0x10000 then 0 else 1) + astral s

length-units : (s : Str) (us : List ℕ) → units s ≡ ok us → length us ≡ length s + astral s
unfolding units
length-units [] us e = let same : [] ≡ us = cc in omega (arith, ap length same)
length-units (c ∷ s) us e =
    let (rest, done, last) = bind-eq-ok (units s) _ e in
    let ih = length-units s rest done in
    elim (Bool-cases (is_surrogate c)) [
      | inl bad ↦ cc (rw bad at last)
      | inr plain ↦
          let whole : ok (units_of c ++ rest) ≡ ok us = rw plain at last in
          let same : units_of c ++ rest ≡ us = cc in
          elim (Bool-cases (ltb c 0x10000)) [
            | inl small ↦ rw small (omega (arith, ap length (rw small at same)))
            | inr big ↦ rw big (omega (arith, ap length (rw big at same)))
          ]
    ]

pub length-encode_utf16 :
    (s : Str) (bs : Bytes) → encode_utf16 s ≡ ok bs → length bs ≡ 2 * (length s + astral s)
unfolding encode_utf16
length-encode_utf16 s bs e =
    let (us, done, last) = bind-eq-ok (units s) _ e in
    let same : unit_bytes us ≡ bs = cc in
    omega (arith, ap length same, length-unit_bytes us, length-units s us done)

length-units_pass : (s : Str) → length (units_pass s) ≡ length s + astral s
unfolding units_pass
length-units_pass [] = omega arith
length-units_pass (c ∷ s) = elim (Bool-cases (ltb c 0x10000)) [
  | inl small ↦ rw small (omega (arith, length-units_pass s))
  | inr big ↦ rw big (omega (arith, length-units_pass s))
]

pub length-encode_pass : (s : Str) → length (encode_pass s) ≡ 2 * (length s + astral s)
unfolding encode_pass
length-encode_pass s = omega (arith, length-unit_bytes (units_pass s), length-units_pass s)

pub astral-le : (s : Str) → astral s ≤ length s
astral-le [] = omega arith
astral-le (c ∷ s) = ground (arith, astral-le s)
