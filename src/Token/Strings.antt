-- ===== src/Token/Strings.antt =====
-- The two string forms: when they are written, and how a client that counts UTF-16 units reads them.
use py_sqlbridge.Prelude.{
  ℕ, ◌+◌, ◌*◌, ◌≤◌, ◌<◌, ◌≡◌, refl, sym, ap, ◌∙◌, arith, ◌∷◌, ◌++◌, length, length-append, take,
  drop, take-length, drop-length, append_assoc, All,
}
use py_sqlbridge.Py.Result.{Result, ok, bind-eq-ok}
use py_sqlbridge.Py.Bytes.{Bytes, pack_le, le_bytes, le_value, slice}
use py_sqlbridge.Py.Bytes.Fields.{
  byte_fits, pack_le_fits, pack_le-eq-ok, length-le_bytes, le_value-le_bytes,
}
use py_sqlbridge.Py.Utf16.{Str, IsCodePoint, encode_utf16, decode_utf16}
use py_sqlbridge.Py.Utf16.RoundTrip.{IsScalar, encode_utf16_total, decode-encode_utf16}
use py_sqlbridge.Py.Utf16.Sizes.{astral, astral-le, length-encode_utf16}
use py_sqlbridge.Token.{b_varchar, us_varchar}

pub b_varchar_total :
    (s : Str)
    → All IsScalar s
    → length s < 256
    → (bs : Bytes) × (b_varchar s ≡ ok bs) × (length bs ≤ 1 + 4 * length s)
unfolding b_varchar
b_varchar_total s scalars small =
    let (encoded, e) = encode_utf16_total s scalars in
    (
      length s ∷ encoded,
      rw (e, byte_fits (length s) small),
      omega (arith, length-encode_utf16 s encoded e, astral-le s),
    )

pub us_varchar_total :
    (s : Str)
    → All IsScalar s
    → length s < 65536
    → (bs : Bytes) × (us_varchar s ≡ ok bs) × (length bs ≤ 2 + 4 * length s)
unfolding us_varchar
us_varchar_total s scalars small =
    let (encoded, e) = encode_utf16_total s scalars in
    (
      le_bytes 2 (length s) ++ encoded,
      rw (e, pack_le_fits 2 (length s) small),
      omega (
        arith,
        length-encode_utf16 s encoded e,
        astral-le s,
        length-append (le_bytes 2 (length s)) encoded,
        length-le_bytes 2 (length s),
      ),
    )

-- A client's reading of a US_VARCHAR: two bytes of count, then as many UTF-16 units, and the rest.
pub read_us_varchar : Bytes → Result Str × Bytes
read_us_varchar bytes =
    let units = le_value (slice bytes 0 2) in
    (decode_utf16 (take (2 * units) (drop 2 bytes)), drop (2 * units) (drop 2 bytes))

us_varchar-eq-ok :
    (s : Str) (bs : Bytes)
    → us_varchar s ≡ ok bs
    → (encoded : Bytes) × (encode_utf16 s ≡ ok encoded)
      × (length s < 65536)
      × (bs ≡ le_bytes 2 (length s) ++ encoded)
unfolding us_varchar
us_varchar-eq-ok s bs h =
    let (encoded, e, h1) = bind-eq-ok (encode_utf16 s) _ h in
    let (count, packed, h2) = bind-eq-ok (pack_le 2 (length s)) _ h1 in
    let (small, shape) = pack_le-eq-ok 2 (length s) packed in (encoded, e, small, cc (h2, shape))

counted : (n : ℕ) (encoded : Bytes) → n < 65536 → le_value (slice (le_bytes 2 n ++ encoded) 0 2) ≡ n
counted n encoded small =
    ap le_value (take-length (le_bytes 2 n) encoded 2 (sym (length-le_bytes 2 n)))
    ∙ le_value-le_bytes 2 n small

-- A text of the basic plane that is written is read back by a client, which goes on with what
-- follows it.
pub read-us_varchar :
    (s : Str) (bs rest : Bytes)
    → All IsCodePoint s
    → astral s ≡ 0
    → us_varchar s ≡ ok bs
    → read_us_varchar (bs ++ rest) ≡ (ok s, rest)
unfolding read_us_varchar
read-us_varchar s bs rest points plain h =
    let (encoded, e, small, shape) = us_varchar-eq-ok s bs h in
    let size : 2 * length s ≡ length encoded = omega (arith, length-encode_utf16 s encoded e) in
    let head = le_bytes 2 (length s) in
    rw (
      shape,
      append_assoc head encoded rest,
      counted (length s) (encoded ++ rest) small,
      drop-length head (encoded ++ rest) 2 (sym (length-le_bytes 2 (length s))),
      take-length encoded rest (2 * length s) size,
      drop-length encoded rest (2 * length s) size,
      decode-encode_utf16 s encoded points e,
    )

-- The count that is written is the text's number of characters, where a client counts UTF-16
-- units: for each character outside the basic plane, the text has two bytes more than the client
-- takes.
pub us_varchar-astral :
    (s : Str) (bs : Bytes)
    → us_varchar s ≡ ok bs
    → (le_value (slice bs 0 2) ≡ length s)
      × (length (drop 2 bs) ≡ 2 * le_value (slice bs 0 2) + 2 * astral s)
us_varchar-astral s bs h =
    let (encoded, e, small, shape) = us_varchar-eq-ok s bs h in
    let head = le_bytes 2 (length s) in
    rw
      (
        shape,
        counted (length s) encoded small,
        drop-length head encoded 2 (sym (length-le_bytes 2 (length s))),
      )
      (refl, omega (arith, length-encode_utf16 s encoded e))
