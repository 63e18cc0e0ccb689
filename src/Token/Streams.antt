-- ===== src/Token/Streams.antt =====
-- The token streams that answer a login, and a failed batch.
use py_sqlbridge.Prelude.{ℕ, ◌^◌, ◌<◌, ◌≡◌, refl, arith, some, [], ◌∷◌, ◌++◌, length, append-nil}
use py_sqlbridge.Py.Result.{ok}
use py_sqlbridge.Py.Bytes.{Bytes}
use py_sqlbridge.Token.{error_token, Notice, done_error, error_response, LoginAnswer}
use py_sqlbridge.Token.Walk.{token_kinds, IsSized, token_kinds-frame_token, token_kinds-done}
use py_sqlbridge.Token.Written.{IsShort, IsSendable, error_total, done_total}

-- An error is answered if its number is below 2^32, its state and severity below 256 and its line
-- below 65536, its message is shorter than 15000 characters and the names of its server and
-- procedure are shorter than 256, and none of these texts holds a surrogate. A client that steps
-- over the answer finds an ERROR, then a DONE, and nothing else, whatever the version it
-- negotiated.
pub error_response_walk :
    (n : Notice) (tds_version : ℕ)
    → IsSendable n
    → (bytes : Bytes) × (error_response n tds_version ≡ ok bytes)
      × (token_kinds 2 tds_version bytes ≡ some (0xaa ∷ 0xfd ∷ []))
unfolding error_response
error_response_walk n v h =
    let (t, body, made, framed) = error_total n v h in
    let (d, closed) = done_total done_error 0 0 v (omega arith) (omega arith) (omega arith) in
    let last : token_kinds 1 v (d ++ []) ≡ some (0xfd ∷ []) =
      token_kinds-done 0 v d [] [] (unfold token_kinds in refl) done_error 0 0 closed in
    (
      t ++ d,
      rw (made, closed),
      token_kinds-frame_token 1 v t d (0xfd ∷ []) (rw append-nil at last) error_token body
          IsSized.error framed,
    )

-- What a server says of itself in a login's answer, in the sizes of the fields.
pub record IsAnswerable (a : LoginAnswer) : Type 0 where
  pub major_fits : a.major < 256
  pub minor_fits : a.minor < 256
  pub server_fits : IsShort 256 a.server_name
  pub database_fits : IsShort 256 a.database_name
  pub language_fits : IsShort 256 a.language_name
  pub size_fits : a.size < 65536
  pub collation_fits : length a.collation < 256
  pub version_fits : a.tds_version < 2 ^ 32
