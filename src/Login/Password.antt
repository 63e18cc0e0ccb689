-- ===== src/Login/Password.antt =====
-- The client's scrambling of a password, and the server's.
use py_sqlbridge.Prelude.{
  ℕ, zero, suc, ◌%◌, ◌<◌, ◌≡◌, refl, arith, Bool, true, ◌&&◌, [], ◌∷◌, map, length, ◌==◌, ==_iff,
  All, Bool-cases, ltb, inl, inr,
}
use py_sqlbridge.Py.Result.{ok}
use py_sqlbridge.Py.Bytes.{Bytes, IsByte}
use py_sqlbridge.Py.Utf16.{Str}
use py_sqlbridge.Py.Utf16.RoundTrip.{
  decode-encode_utf16, encode_utf16_even, encode_utf16-IsByte, encode_utf16_total, IsScalar,
  IsScalar-IsCodePoint,
}
use py_sqlbridge.Login.{scramble, unscramble, obfuscate_password, deobfuscate_password}

-- Every number below a bound passes the test.
passes : (ℕ → Bool) → ℕ → Bool
passes test zero = true
passes test (suc bound) = passes test bound && test bound

passes-below :
    (test : ℕ → Bool) (bound : ℕ)
    → passes test bound ≡ true
    → (byte : ℕ) → byte < bound
    → test byte ≡ true
unfolding passes
passes-below test zero all byte small = absurd (omega arith)
passes-below test (suc bound) all byte small =
    let front : passes test bound ≡ true = ground arith in
    let last : test bound ≡ true = ground arith in
    elim (Bool-cases (ltb byte bound)) [
      | inl below ↦ passes-below test bound front byte (ground arith)
      | inr other ↦ let same : byte ≡ bound = ground arith in rw same last
    ]

bytes_pass : passes (λ byte. unscramble (scramble byte) == byte) 256 ≡ true
unfolding passes unscramble scramble
bytes_pass = refl

-- Every byte comes back.
unscramble-scramble : (b : ℕ) → b < 256 → unscramble (scramble b) ≡ b
unscramble-scramble b h = (==_iff _ b).0 (passes-below _ 256 bytes_pass b h)

unscramble-All : (bs : Bytes) → All IsByte bs → map unscramble (map scramble bs) ≡ bs
unscramble-All [] h = refl
unscramble-All (b ∷ bs) h = rw (unscramble-scramble b h.0, unscramble-All bs h.1)

-- Every password without surrogates can be scrambled, and the server reads back what the client
-- scrambled.
pub deobfuscate-obfuscate :
    (password : Str)
    → All IsScalar password
    → (raw : Bytes) × (obfuscate_password password ≡ ok raw)
      × (deobfuscate_password raw ≡ ok password)
unfolding obfuscate_password deobfuscate_password
deobfuscate-obfuscate password scalars =
    let (bytes, encoded) = encode_utf16_total password scalars in
    let points = IsScalar-IsCodePoint password scalars in
    let same = unscramble-All bytes (encode_utf16-IsByte password bytes points encoded) in
    (
      map scramble bytes,
      rw encoded,
      rw (
        same,
        (==_iff (length bytes % 2) 0).1 (encode_utf16_even password bytes encoded),
        decode-encode_utf16 password bytes points encoded,
      ),
    )
