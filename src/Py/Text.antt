-- ===== src/Py/Text.antt =====
-- Text literals as lists of code points.
use Prim.Native.Char.{code}
use Prim.Native.String.{String}
use py_sqlbridge.Prelude.{◌≡◌, arith, Bool, true, ◌&&◌, [], ◌∷◌, ltb, All}
use py_sqlbridge.Py.Utf16.{Str}
use py_sqlbridge.Py.Utf16.RoundTrip.{IsScalar}

abbrev pub text : String → Str
text String.[] = []
text (String.◌∷◌ c s) = code c ∷ text s

abbrev pub ascii : Str → Bool
ascii [] = true
ascii (c ∷ s) = ltb c 128 && ascii s

pub ascii-IsScalar : (s : Str) → ascii s ≡ true → All IsScalar s
ascii-IsScalar [] h = tt
ascii-IsScalar (c ∷ s) h = ((ground arith, ground arith), ascii-IsScalar s (ground arith))
