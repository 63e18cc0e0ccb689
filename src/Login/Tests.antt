-- ===== src/Login/Tests.antt =====
-- A scrambled password, and a login that is too short.
use py_sqlbridge.Prelude.{◌≡◌, refl, [], ◌∷◌}
use py_sqlbridge.Py.Result.{Exc, ok, err, protocol_error}
use py_sqlbridge.Py.Bytes.{Bytes}
use py_sqlbridge.Py.Text.{text, ascii-IsScalar}
use py_sqlbridge.Login.{Login7, parse, deobfuscate_password, obfuscate_password}
use py_sqlbridge.Login.Password.{deobfuscate-obfuscate}
use py_sqlbridge.Login.Bounds.{IsPointed, parse_login_errors}

deobfuscate-obfuscate_example :
    (raw : Bytes) × (obfuscate_password (text "sa") ≡ ok raw)
    × (deobfuscate_password raw ≡ ok (text "sa"))
deobfuscate-obfuscate_example = deobfuscate-obfuscate (text "sa") (ascii-IsScalar (text "sa") refl)

refuse_short : parse (94 ∷ 0 ∷ 0 ∷ 0 ∷ []) ≡ err protocol_error
unfolding parse
refuse_short = refl

parse_login_errors_example :
    ((e : Exc) → parse (94 ∷ 0 ∷ 0 ∷ 0 ∷ []) ≡ err e → e ≡ protocol_error)
    × ((l : Login7) → parse (94 ∷ 0 ∷ 0 ∷ 0 ∷ []) ≡ ok l → IsPointed (94 ∷ 0 ∷ 0 ∷ 0 ∷ []) l)
parse_login_errors_example = parse_login_errors (94 ∷ 0 ∷ 0 ∷ 0 ∷ [])
