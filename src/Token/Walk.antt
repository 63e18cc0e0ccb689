-- ===== src/Token/Walk.antt =====
-- How a client walks a token stream, and that the tokens written here are walked one by one.
use py_sqlbridge.Prelude.{
  ℕ, zero, suc, ◌+◌, ◌*◌, ◌/◌, ◌%◌, ◌<◌, ◌≡◌, refl, arith, false, inl, inr, Option, some, none,
  List, [], ◌∷◌, ◌++◌, length, length-append, drop, drop-length, ltb, leb, ◌==◌, Bool-cases,
  if◌then◌else◌, le→leb,
}
use py_sqlbridge.Py.Result.{ok, bind-eq-ok}
use py_sqlbridge.Py.Bytes.{Bytes, le_bytes, pack_le}
use py_sqlbridge.Py.Bytes.Fields.{pack_le-eq-ok, length-le_bytes}
use py_sqlbridge.Versions.{tds_72}
use py_sqlbridge.Token.{
  TokenType, error_token, info_token, login_ack_token, env_change_token, sspi_blob, token_byte,
  frame_token, done, count_width,
}

-- The bytes that follow a DONE's first: two of status, two of command, and the row count, which
-- TDS 7.2 widened from four to eight.
abbrev done_size : ℕ → ℕ
done_size tds_version = if leb tds_72 tds_version then 12 else 8

abbrev step_over : ℕ → Bytes → Option Bytes
step_over size rest = if leb size (length rest) then some (drop size rest) else none

abbrev behind : ℕ → Option Bytes → Option (ℕ × Bytes)
behind kind none = none
behind kind (some rest) = some (kind, rest)

abbrev sized : ℕ → Bytes → Option (ℕ × Bytes)
sized kind (low ∷ high ∷ body) = behind kind (step_over (low + 256 * high) body)
sized kind _ = none

-- A client reads a token's first byte; a DONE has a fixed size, and every other token that has no
-- rows to describe says its size in two bytes. The result is the first byte, and what lies behind
-- the token.
unfoldable pub next_token : ℕ → Bytes → Option (ℕ × Bytes)
next_token tds_version [] = none
next_token tds_version (kind ∷ rest) =
    if kind == 0xfd then behind kind (step_over (done_size tds_version) rest) else sized kind rest

abbrev joined : ℕ → Option (List ℕ) → Option (List ℕ)
joined kind none = none
joined kind (some kinds) = some (kind ∷ kinds)

-- The first bytes of a stream's tokens, in order, for a stream of at most `fuel` tokens that ends
-- where a token ends.
unfoldable pub token_kinds : ℕ → ℕ → Bytes → Option (List ℕ)
token_kinds fuel tds_version [] = some []
token_kinds zero tds_version (b ∷ bs) = none
token_kinds (suc fuel) tds_version (b ∷ bs) = elim (next_token tds_version (b ∷ bs)) [
  | none ↦ none
  | some (kind, rest) ↦ joined kind (token_kinds fuel tds_version rest)
]

-- The tokens that say their size in two bytes.
pub data IsSized : TokenType → Type 0 where
  error : IsSized error_token
  info : IsSized info_token
  login_ack : IsSized login_ack_token
  env_change : IsSized env_change_token
  sspi : IsSized sspi_blob

sized_ne_done : {k : TokenType} → IsSized k → (token_byte k == 0xfd) ≡ false
sized_ne_done error = refl
sized_ne_done info = refl
sized_ne_done login_ack = refl
sized_ne_done env_change = refl
sized_ne_done sspi = refl

step_over_lem :
    (xs rest : Bytes) (size : ℕ) → size ≡ length xs → step_over size (xs ++ rest) ≡ some rest
step_over_lem xs rest size e = rw (
  le→leb size (length (xs ++ rest)) (omega (arith, length-append xs rest)),
  drop-length xs rest size e,
)

pub frame_token-eq-ok :
    (kind : TokenType) (body t : Bytes)
    → frame_token kind body ≡ ok t
    → (length body < 65536) × (t ≡ token_byte kind ∷ (le_bytes 2 (length body) ++ body))
unfolding frame_token
frame_token-eq-ok kind body t h = elim (Bool-cases (ltb 65535 (length body))) [
  | inl big ↦ cc (rw big at h)
  | inr small ↦
      let (size, packed, last) = bind-eq-ok (pack_le 2 (length body)) _ (rw small at h) in
      let same = (pack_le-eq-ok 2 (length body) packed).1 in (ground arith, cc (same, last))
]

-- A sized token is stepped over whole.
pub next_token-frame_token :
    (v : ℕ) (kind : TokenType) (body t rest : Bytes)
    → IsSized kind
    → frame_token kind body ≡ ok t
    → next_token v (t ++ rest) ≡ some (token_byte kind, rest)
unfolding next_token le_bytes
next_token-frame_token v kind body t rest s h =
    let (small, shape) = frame_token-eq-ok kind body t h in
    let size : length body % 256 + 256 * (length body / 256 % 256) ≡ length body = omega arith in
    rw (shape, sized_ne_done s, step_over_lem body rest _ size)

pub next_token-done :
    (v status command count : ℕ) (t rest : Bytes)
    → done status command count v ≡ ok t
    → next_token v (t ++ rest) ≡ some (0xfd, rest)
unfolding next_token done
next_token-done v status command count t rest h =
    let (a, pa, h1) = bind-eq-ok (pack_le 2 status) _ h in
    let (b, pb, h2) = bind-eq-ok (pack_le 2 command) _ h1 in
    let (c, pc, h3) = bind-eq-ok (pack_le (count_width v) count) _ h2 in
    let ea : length a ≡ 2 = rw (pack_le-eq-ok 2 status pa).1 (length-le_bytes 2 status) in
    let eb : length b ≡ 2 = rw (pack_le-eq-ok 2 command pb).1 (length-le_bytes 2 command) in
    let ec : length c ≡ count_width v =
      rw (pack_le-eq-ok (count_width v) count pc).1 (length-le_bytes (count_width v) count) in
    let shape : t ≡ 0xfd ∷ (a ++ (b ++ c)) = cc (h3) in
    let size : done_size v ≡ length (a ++ (b ++ c)) =
      ground (arith, length-append a (b ++ c), length-append b c, ea, eb, ec) in
    rw (shape, step_over_lem (a ++ (b ++ c)) rest (done_size v) size)

-- A stream whose first token is stepped over goes on behind it.
token_kinds-next :
    (fuel v kind : ℕ) (bytes rest : Bytes)
    → next_token v bytes ≡ some (kind, rest)
    → token_kinds (suc fuel) v bytes ≡ joined kind (token_kinds fuel v rest)
unfolding token_kinds
token_kinds-next fuel v kind [] rest h = unfold next_token in cc h
token_kinds-next fuel v kind (b ∷ bs) rest h = rw (h, token_kinds)

module _ (fuel v : ℕ) (t rest : Bytes) (kinds : List ℕ)
    (later : token_kinds fuel v rest ≡ some kinds) where
  pub token_kinds-frame_token :
      (kind : TokenType) (body : Bytes)
      → IsSized kind
      → frame_token kind body ≡ ok t
      → token_kinds (suc fuel) v (t ++ rest) ≡ some (token_byte kind ∷ kinds)
  token_kinds-frame_token kind body s h = rw (
    token_kinds-next fuel v _ (t ++ rest) rest (next_token-frame_token v kind body t rest s h),
    later,
  )

  pub token_kinds-done :
      (status command count : ℕ)
      → done status command count v ≡ ok t
      → token_kinds (suc fuel) v (t ++ rest) ≡ some (0xfd ∷ kinds)
  token_kinds-done status command count h = rw (
    token_kinds-next fuel v _ (t ++ rest) rest (next_token-done v status command count t rest h),
    later,
  )
