-- ===== src/Py/Utf16.antt =====
-- Python's `str` as a list of code points, and its utf-16-le codec: strict, and with the error
-- handler `surrogatepass`.
pub mod RoundTrip
pub mod Sizes
use py_sqlbridge.Prelude.{
  ℕ, ◌+◌, ◌-◌, ◌*◌, ◌/◌, ◌%◌, ◌<◌, Bool, true, false, ◌&&◌, List, [], ◌∷◌, ◌++◌, leb, ltb,
  if◌then◌else◌,
}
use py_sqlbridge.Py.Result.{Result, ok, err, encode_error, decode_error, ◌>>=◌}
use py_sqlbridge.Py.Bytes.{Bytes}

abbrev pub Str : Type 0
Str = List ℕ

abbrev pub IsCodePoint : ℕ → Type 0
IsCodePoint c = c < 0x110000

-- The code units from U+D800 and from U+DC00 on, the first and second halves of a pair.
abbrev pub is_high : ℕ → Bool
is_high u = leb 0xd800 u && ltb u 0xdc00

abbrev pub is_low : ℕ → Bool
is_low u = leb 0xdc00 u && ltb u 0xe000

abbrev pub is_surrogate : ℕ → Bool
is_surrogate u = leb 0xd800 u && ltb u 0xe000

-- The code units of one code point.
abbrev pub units_of : ℕ → List ℕ
units_of c =
    if ltb c 0x10000
    then c ∷ []
    else (0xd800 + (c - 0x10000) / 1024) ∷ (0xdc00 + (c - 0x10000) % 1024) ∷ []

-- Encoding with `surrogatepass`: a lone surrogate is one code unit like any other.
pub units_pass : Str → List ℕ
units_pass [] = []
units_pass (c ∷ s) = units_of c ++ units_pass s

-- Strict encoding: a surrogate cannot be encoded.
pub units : Str → Result (List ℕ)
units [] = ok []
units (c ∷ s) = do us ← units s; if is_surrogate c then err encode_error else ok (units_of c ++ us)

pub unit_bytes : List ℕ → Bytes
unit_bytes [] = []
unit_bytes (u ∷ us) = (u % 256) ∷ (u / 256) ∷ unit_bytes us

-- Two bytes a unit; a last odd byte is truncated data.
pub bytes_units : Bytes → Result (List ℕ)
bytes_units [] = ok []
bytes_units (a ∷ []) = err decode_error
bytes_units (a ∷ b ∷ bs) = do us ← bytes_units bs; ok ((a + 256 * b) ∷ us)

abbrev joined : ℕ → ℕ → ℕ
joined u v = 0x10000 + (u - 0xd800) * 1024 + (v - 0xdc00)

-- Strict decoding: a first half is followed by a second half, which stands nowhere else.
pub decode_units : List ℕ → Result Str
decode_units [] = ok []
decode_units (u ∷ []) = if is_surrogate u then err decode_error else ok (u ∷ [])
decode_units (u ∷ v ∷ us) =
    let alone = (do s ← decode_units (v ∷ us); ok (u ∷ s)) in
    let pair = (do s ← decode_units us; ok (joined u v ∷ s)) in
    if is_high u
    then (if is_low v then pair else err decode_error)
    else if is_low u
    then err decode_error
    else alone

-- `s.encode("utf-16-le")`
unfoldable pub encode_utf16 : Str → Result Bytes
unfolding units unit_bytes
encode_utf16 s = do us ← units s; ok (unit_bytes us)

-- `s.encode("utf-16-le", "surrogatepass")`
unfoldable pub encode_pass : Str → Bytes
unfolding units_pass unit_bytes
encode_pass s = unit_bytes (units_pass s)

-- `b.decode("utf-16-le")`
unfoldable pub decode_utf16 : Bytes → Result Str
unfolding bytes_units decode_units
decode_utf16 bs = do us ← bytes_units bs; decode_units us
