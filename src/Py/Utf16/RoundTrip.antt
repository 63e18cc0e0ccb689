-- ===== src/Py/Utf16/RoundTrip.antt =====
-- Strict decoding gives back what strict encoding wrote; the lengths that encoding gives.
use py_sqlbridge.Prelude.{
  ℕ, ◌+◌, ◌*◌, ◌/◌, ◌%◌, ◌<◌, ◌≡◌, refl, ap, arith, false, inl, inr, List, [], ◌∷◌, ◌++◌, ltb,
  length, All, Bool-cases,
}
use py_sqlbridge.Py.Result.{Exc, Result, ok, err, decode_error, ◌>>=◌, bind-eq-ok, bind-eq-err}
use py_sqlbridge.Py.Bytes.{Bytes, IsByte}
use py_sqlbridge.Py.Utf16.{
  Str, IsCodePoint, is_high, is_low, is_surrogate, units_of, units, unit_bytes, bytes_units,
  decode_units, encode_utf16, decode_utf16,
}

bytes_units-unit_bytes : (us : List ℕ) → bytes_units (unit_bytes us) ≡ ok us
unfolding bytes_units unit_bytes
bytes_units-unit_bytes [] = refl
bytes_units-unit_bytes (u ∷ us) =
    rw (bytes_units-unit_bytes us, (let e : u % 256 + 256 * (u / 256) ≡ u = omega arith in e))

decode_units_small :
    (c : ℕ) (us : List ℕ) (s : Str)
    → is_surrogate c ≡ false
    → decode_units us ≡ ok s
    → decode_units (c ∷ us) ≡ ok (c ∷ s)
unfolding decode_units
decode_units_small c [] s h e = ground arith
decode_units_small c (u ∷ us) s h e = ground arith

decode_units_of :
    (c : ℕ) (us : List ℕ) (s : Str)
    → IsCodePoint c
    → is_surrogate c ≡ false
    → decode_units us ≡ ok s
    → decode_units (units_of c ++ us) ≡ ok (c ∷ s)
decode_units_of c us s point plain e = elim (Bool-cases (ltb c 0x10000)) [
  | inl small ↦ rw small (decode_units_small c us s plain e)
  | inr big ↦ rw big (unfold decode_units in ground arith)
]

decode_units-units :
    (s : Str) (us : List ℕ) → All IsCodePoint s → units s ≡ ok us → decode_units us ≡ ok s
unfolding units
decode_units-units [] us h e = unfold decode_units in ground arith
decode_units-units (c ∷ s) us h e =
    let (rest, done, last) = bind-eq-ok (units s) _ e in
    elim (Bool-cases (is_surrogate c)) [
      | inl bad ↦ cc (rw bad at last)
      | inr plain ↦
          let whole : ok (units_of c ++ rest) ≡ ok us = rw plain at last in
          let same : units_of c ++ rest ≡ us = cc in
          rw (← same) (decode_units_of c rest s h.0 plain (decode_units-units s rest h.1 done))
    ]

-- A text that encodes is decoded from its bytes.
pub decode-encode_utf16 :
    (s : Str) (bs : Bytes) → All IsCodePoint s → encode_utf16 s ≡ ok bs → decode_utf16 bs ≡ ok s
unfolding encode_utf16 decode_utf16
decode-encode_utf16 s bs h e =
    let (us, done, last) = bind-eq-ok (units s) _ e in
    let same : unit_bytes us ≡ bs = cc in
    rw (← same, bytes_units-unit_bytes us) (decode_units-units s us h done)

pub length-unit_bytes : (us : List ℕ) → length (unit_bytes us) ≡ 2 * length us
unfolding unit_bytes
length-unit_bytes [] = omega arith
length-unit_bytes (u ∷ us) = omega (arith, length-unit_bytes us)

-- An encoding has an even number of bytes.
pub encode_utf16_even : (s : Str) (bs : Bytes) → encode_utf16 s ≡ ok bs → length bs % 2 ≡ 0
unfolding encode_utf16
encode_utf16_even s bs e =
    let (us, done, last) = bind-eq-ok (units s) _ e in
    let same : unit_bytes us ≡ bs = cc in omega (arith, ap length same, length-unit_bytes us)

bytes_units_errors : (bs : Bytes) (e : Exc) → bytes_units bs ≡ err e → e ≡ decode_error
unfolding bytes_units
bytes_units_errors [] e h = cc
bytes_units_errors (a ∷ []) e h = cc
bytes_units_errors (a ∷ b ∷ bs) e h = ground (arith, bytes_units_errors bs e)

-- What goes on by returning raises only what it started from raised.
then_errors :
    {A B : Type 0} (m : Result A) (f : A → B) {e : Exc}
    → (m >>= λ a. ok (f a)) ≡ err e
    → (m ≡ err e → e ≡ decode_error)
    → e ≡ decode_error
then_errors (ok a) f h k = cc
then_errors (err x) f h k = k (cc)

decode_units_errors : (us : List ℕ) (e : Exc) → decode_units us ≡ err e → e ≡ decode_error
unfolding decode_units
decode_units_errors [] e h = cc
decode_units_errors (u ∷ []) e h = ground arith
decode_units_errors (u ∷ v ∷ us) e h = elim (Bool-cases (is_high u)) [
  | inl first ↦ elim (Bool-cases (is_low v)) [
    | inl second ↦
        then_errors (decode_units us) _ (rw (first, second) at h) (decode_units_errors us e)
    | inr other ↦ cc (rw (first, other) at h)
  ]
  | inr plain ↦ elim (Bool-cases (is_low u)) [
    | inl stray ↦ cc (rw (plain, stray) at h)
    | inr alone ↦
        then_errors (decode_units (v ∷ us)) _ (rw (plain, alone) at h)
          (decode_units_errors (v ∷ us) e)
  ]
]

-- Decoding raises `UnicodeDecodeError` and nothing else.
pub decode_utf16_errors : (bs : Bytes) (e : Exc) → decode_utf16 bs ≡ err e → e ≡ decode_error
unfolding decode_utf16
decode_utf16_errors bs e h = elim (bind-eq-err (bytes_units bs) decode_units h) [
  | inl failed ↦ bytes_units_errors bs e failed
  | inr (us, done, failed) ↦ decode_units_errors us e failed
]

-- The code points that are no surrogates: those that strict encoding takes.
abbrev pub IsScalar : ℕ → Type 0
IsScalar c = (c < 0x110000) × (is_surrogate c ≡ false)

pub IsScalar-IsCodePoint : (s : Str) → All IsScalar s → All IsCodePoint s
IsScalar-IsCodePoint [] h = tt
IsScalar-IsCodePoint (c ∷ s) h = (h.0.0, IsScalar-IsCodePoint s h.1)

units_total : (s : Str) → All IsScalar s → (us : List ℕ) × (units s ≡ ok us)
unfolding units
units_total [] h = ([], refl)
units_total (c ∷ s) h = let (us, done) = units_total s h.1 in (units_of c ++ us, rw (done, h.0.1))

pub encode_utf16_total : (s : Str) → All IsScalar s → (bs : Bytes) × (encode_utf16 s ≡ ok bs)
unfolding encode_utf16
encode_utf16_total s h = let (us, done) = units_total s h in (unit_bytes us, rw done)

abbrev IsUnit : ℕ → Type 0
IsUnit u = u < 65536

units_of-IsUnit :
    (c : ℕ) (us : List ℕ) → IsCodePoint c → All IsUnit us → All IsUnit (units_of c ++ us)
units_of-IsUnit c us h k = elim (Bool-cases (ltb c 0x10000)) [
  | inl small ↦ rw small (ground arith, k)
  | inr big ↦ rw big (ground arith, (ground arith, k))
]

units-IsUnit : (s : Str) (us : List ℕ) → All IsCodePoint s → units s ≡ ok us → All IsUnit us
unfolding units
units-IsUnit [] us h e = let same : [] ≡ us = cc in rw (← same) tt
units-IsUnit (c ∷ s) us h e =
    let (rest, done, last) = bind-eq-ok (units s) _ e in
    elim (Bool-cases (is_surrogate c)) [
      | inl bad ↦ cc (rw bad at last)
      | inr plain ↦
          let whole : ok (units_of c ++ rest) ≡ ok us = rw plain at last in
          let same : units_of c ++ rest ≡ us = cc in
          rw (← same) (units_of-IsUnit c rest h.0 (units-IsUnit s rest h.1 done))
    ]

unit_bytes-IsByte : (us : List ℕ) → All IsUnit us → All IsByte (unit_bytes us)
unfolding unit_bytes
unit_bytes-IsByte [] h = tt
unit_bytes-IsByte (u ∷ us) h = (omega arith, (omega (arith, h.0), unit_bytes-IsByte us h.1))

-- What is written are bytes.
pub encode_utf16-IsByte :
    (s : Str) (bs : Bytes) → All IsCodePoint s → encode_utf16 s ≡ ok bs → All IsByte bs
unfolding encode_utf16
encode_utf16-IsByte s bs h e =
    let (us, done, last) = bind-eq-ok (units s) _ e in
    let same : unit_bytes us ≡ bs = cc in
    rw (← same) (unit_bytes-IsByte us (units-IsUnit s us h done))
