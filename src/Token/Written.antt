-- ===== src/Token/Written.antt =====
-- That tokens whose contents fit their fields are written.
use py_sqlbridge.Prelude.{
  ℕ, ◌^◌, ◌≤◌, ◌<◌, ◌≡◌, arith, [], ◌∷◌, ◌++◌, length, length-append, All, le→ltb,
}
use py_sqlbridge.Py.Result.{Result, ok}
use py_sqlbridge.Py.Bytes.{Bytes, le_bytes}
use py_sqlbridge.Py.Bytes.Fields.{byte_fits, pack_le_fits, length-le_bytes}
use py_sqlbridge.Py.Utf16.{Str}
use py_sqlbridge.Py.Utf16.RoundTrip.{IsScalar}
use py_sqlbridge.Token.{
  TokenType, error_token, info_token, env_change_token, token_byte, EnvChangeType, env_change_byte,
  EnvValue, characters, raw, encode_env, frame_token, env_change, Notice, line_width, message_body,
  info, error, count_width, done,
}
use py_sqlbridge.Token.Strings.{b_varchar_total, us_varchar_total}

-- A text that a field of `limit` characters can carry.
pub record IsShort (limit : ℕ) (s : Str) : Type 0 where
  pub scalars : All IsScalar s
  pub size : length s < limit

-- A token of the kind, and it is written.
abbrev pub Framed : TokenType → Result Bytes → Type 0
Framed kind r = (t : Bytes) × (body : Bytes) × (r ≡ ok t) × (frame_token kind body ≡ ok t)

pub frame_token_fits :
    (kind : TokenType) (body : Bytes)
    → length body < 65536
    → frame_token kind body ≡ ok (token_byte kind ∷ (le_bytes 2 (length body) ++ body))
unfolding frame_token
frame_token_fits kind body small =
    rw (le→ltb 65535 (length body) (omega arith), pack_le_fits 2 (length body) small)

-- A value that fits its one-byte count.
abbrev pub Counted : EnvValue → Type 0
Counted (characters s) = IsShort 256 s
Counted (raw bs) = length bs < 256

pub encode_env_total :
    (value : EnvValue)
    → Counted value
    → (bs : Bytes) × (encode_env value ≡ ok bs) × (length bs ≤ 1024)
unfolding encode_env
encode_env_total (characters s) h =
    let (bs, e, size) = b_varchar_total s h.scalars h.size in (bs, e, omega (arith, h.size))
encode_env_total (raw bs) h = (length bs ∷ bs, rw (byte_fits (length bs) h), omega arith)

pub env_change_total :
    (kind : EnvChangeType) (new old : EnvValue)
    → Counted new
    → Counted old
    → Framed env_change_token (env_change kind new old)
unfolding env_change
env_change_total kind new old hn ho =
    let (a, ea, la) = encode_env_total new hn in
    let (b, eb, lb) = encode_env_total old ho in
    let body = env_change_byte kind ∷ (a ++ b) in
    let framed = frame_token_fits env_change_token body (omega (arith, length-append a b)) in
    (_, body, rw (ea, eb, framed), framed)

-- What a notice needs to be written: numbers that fit their fields and texts that fit theirs, the
-- message so that the whole token fits too.
pub record IsSendable (n : Notice) : Type 0 where
  pub number_fits : n.number < 2 ^ 32
  pub state_fits : n.state < 256
  pub severity_fits : n.severity < 256
  pub message_fits : IsShort 15000 n.message
  pub server_fits : IsShort 256 n.server
  pub procedure_fits : IsShort 256 n.procedure
  pub line_fits : n.line < 65536

pub line_fits_width : (v line : ℕ) → line < 65536 → line < 256 ^ line_width v
line_fits_width v line h = ground arith

pub message_body_total :
    (n : Notice) (v : ℕ)
    → IsSendable n
    → (body : Bytes) × (message_body n v ≡ ok body) × (length body < 65536)
unfolding message_body
message_body_total n v h =
    let (m, em, lm) =
      us_varchar_total n.message h.message_fits.scalars (omega (arith, h.message_fits.size)) in
    let (s, es, ls) = b_varchar_total n.server h.server_fits.scalars h.server_fits.size in
    let (p, ep, lp) = b_varchar_total n.procedure h.procedure_fits.scalars h.procedure_fits.size in
    let line = le_bytes (line_width v) n.line in
    let number = le_bytes 4 n.number in
    let wide : line_width v ≤ 4 = ground arith in
    (
      number ++ ((n.state ∷ []) ++ ((n.severity ∷ []) ++ (m ++ (s ++ (p ++ line))))),
      rw (
        pack_le_fits 4 n.number h.number_fits,
        byte_fits n.state h.state_fits,
        byte_fits n.severity h.severity_fits,
        em,
        es,
        ep,
        pack_le_fits (line_width v) n.line (line_fits_width v n.line h.line_fits),
      ),
      omega (
        arith,
        length-append {0},
        length-le_bytes,
        h.message_fits.size,
        h.server_fits.size,
        h.procedure_fits.size,
      ),
    )

pub info_total : (n : Notice) (v : ℕ) → IsSendable n → Framed info_token (info n v)
unfolding info
info_total n v h =
    let (body, e, small) = message_body_total n v h in
    let framed = frame_token_fits info_token body small in (_, body, rw (e, framed), framed)

pub error_total : (n : Notice) (v : ℕ) → IsSendable n → Framed error_token (error n v)
unfolding error
error_total n v h =
    let (body, e, small) = message_body_total n v h in
    let framed = frame_token_fits error_token body small in (_, body, rw (e, framed), framed)

pub done_total :
    (status command count v : ℕ)
    → status < 65536
    → command < 65536
    → count < 2 ^ 32
    → (t : Bytes) × (done status command count v ≡ ok t)
unfolding done
done_total status command count v s c n =
    let fits : count < 256 ^ count_width v = ground arith in
    let body = le_bytes 2 status ++ (le_bytes 2 command ++ le_bytes (count_width v) count) in
    (
      0xfd ∷ body,
      rw (
        pack_le_fits 2 status s,
        pack_le_fits 2 command c,
        pack_le_fits (count_width v) count fits,
      ),
    )
