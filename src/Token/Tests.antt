-- ===== src/Token/Tests.antt =====
-- Answers to a login and to a failed batch, and texts as a client reads them.
use py_sqlbridge.Prelude.{ℕ, ◌+◌, ◌*◌, ◌≡◌, refl, arith, some, [], ◌∷◌, ◌++◌, length, drop}
use py_sqlbridge.Py.Result.{ok}
use py_sqlbridge.Py.Bytes.{Bytes, slice, le_value, pack_le, le_bytes}
use py_sqlbridge.Py.Utf16.{encode_utf16}
use py_sqlbridge.Py.Text.{text, ascii-IsScalar}
use py_sqlbridge.Py.Utf16.Sizes.{astral}
use py_sqlbridge.Versions.{tds_74}
use py_sqlbridge.Token.{Notice, LoginAnswer, default_collation, us_varchar, error_response}
use py_sqlbridge.Token.Walk.{token_kinds}
use py_sqlbridge.Token.Strings.{read_us_varchar, read-us_varchar, us_varchar-astral}
use py_sqlbridge.Token.Streams.{error_response_walk}

abbrev refused_login : Notice
refused_login = record {
  number = 18456;
  message = text "Login failed";
  state = 1;
  severity = 14;
  server = text "host";
  procedure = [];
  line = 1;
}

error_response_walk_example :
    (bytes : Bytes) × (error_response refused_login tds_74 ≡ ok bytes)
    × (token_kinds 2 tds_74 bytes ≡ some (0xaa ∷ 0xfd ∷ []))
error_response_walk_example = error_response_walk refused_login tds_74 (record {
  number_fits = omega arith;
  state_fits = omega arith;
  severity_fits = omega arith;
  message_fits = record { scalars = ascii-IsScalar (text "Login failed") refl; size = omega arith };
  server_fits = record { scalars = ascii-IsScalar (text "host") refl; size = omega arith };
  procedure_fits = record { scalars = tt; size = omega arith };
  line_fits = omega arith;
})

abbrev answer : LoginAnswer
answer = record {
  major = 17;
  minor = 0;
  build = 1000;
  server_name = text "host";
  database_name = text "master";
  language_name = text "us_english";
  size = 4096;
  collation = default_collation;
  tds_version = tds_74;
}

-- "é", in the basic plane, and U+1F600, outside it.
write_accent : us_varchar (233 ∷ []) ≡ ok (1 ∷ 0 ∷ 233 ∷ 0 ∷ [])
unfolding us_varchar encode_utf16 pack_le le_bytes
write_accent = refl

read-us_varchar_example :
    read_us_varchar ((1 ∷ 0 ∷ 233 ∷ 0 ∷ []) ++ 7 ∷ []) ≡ (ok (233 ∷ []), 7 ∷ [])
read-us_varchar_example =
    read-us_varchar (233 ∷ []) (1 ∷ 0 ∷ 233 ∷ 0 ∷ []) (7 ∷ []) (omega arith, tt) refl write_accent

write_emoji : us_varchar (0x1f600 ∷ []) ≡ ok (1 ∷ 0 ∷ 0x3d ∷ 0xd8 ∷ 0x00 ∷ 0xde ∷ [])
unfolding us_varchar encode_utf16 pack_le le_bytes
write_emoji = refl

us_varchar-astral_example :
    (le_value (slice {A = ℕ} (1 ∷ 0 ∷ 0x3d ∷ 0xd8 ∷ 0x00 ∷ 0xde ∷ []) 0 2)
      ≡ length {A = ℕ} (0x1f600 ∷ []))
    × (length {A = ℕ} (drop 2 (1 ∷ 0 ∷ 0x3d ∷ 0xd8 ∷ 0x00 ∷ 0xde ∷ []))
        ≡ 2 * le_value (slice {A = ℕ} (1 ∷ 0 ∷ 0x3d ∷ 0xd8 ∷ 0x00 ∷ 0xde ∷ []) 0 2)
          + 2 * astral (0x1f600 ∷ []))
us_varchar-astral_example = us_varchar-astral (0x1f600 ∷ []) _ write_emoji
