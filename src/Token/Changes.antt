-- ===== src/Token/Changes.antt =====
-- What a client reads in the ENVCHANGE tokens of a stream, and that a login's answer tells it.
use py_sqlbridge.Prelude.{
  ℕ, zero, suc, ◌-◌, ◌≡◌, refl, arith, false, Option, some, none, List, [], ◌∷◌, ◌++◌, length,
  length-append, append-nil, take, drop, take-length, ◌==◌, if◌then◌else◌,
}
use py_sqlbridge.Py.Result.{ok, bind-eq-ok}
use py_sqlbridge.Py.Bytes.{Bytes, byte, le_bytes}
use py_sqlbridge.Py.Bytes.Fields.{byte-eq-ok}
use py_sqlbridge.Py.Utf16.{encode_utf16}
use py_sqlbridge.Py.Decimal.{decimal}
use py_sqlbridge.Token.{
  TokenType, info_token, login_ack_token, env_change_token, token_byte, EnvChangeType, database,
  language, packet_size, sql_collation, env_change_byte, b_varchar, frame_token, EnvValue,
  characters, raw, encode_env, env_change, done, done_final, LoginAnswer,
}
use py_sqlbridge.Token.Walk.{
  next_token, IsSized, frame_token-eq-ok, next_token-frame_token, next_token-done,
}

-- A token that says its size: its bytes are those in front of what lies behind it, and its body
-- stands behind the first byte and the size.
abbrev body_of : Bytes → Bytes → Bytes
body_of bytes rest = drop 3 (take (length bytes - length rest) bytes)

abbrev with_body : ℕ → Bytes → Option (List Bytes) → Option (List Bytes)
with_body kind body none = none
with_body kind body (some bodies) = some (if kind == 0xe3 then body ∷ bodies else bodies)

-- The bodies of the ENVCHANGE tokens of a stream of at most `fuel` tokens, in order.
unfoldable pub env_bodies : ℕ → ℕ → Bytes → Option (List Bytes)
env_bodies fuel tds_version [] = some []
env_bodies zero tds_version (b ∷ bs) = none
env_bodies (suc fuel) tds_version (b ∷ bs) = elim (next_token tds_version (b ∷ bs)) [
  | none ↦ none
  | some (kind, rest) ↦ with_body kind (body_of (b ∷ bs) rest) (env_bodies fuel tds_version rest)
]

env_bodies-next :
    (fuel v kind : ℕ) (bytes rest : Bytes)
    → next_token v bytes ≡ some (kind, rest)
    → env_bodies (suc fuel) v bytes ≡ with_body kind (body_of bytes rest) (env_bodies fuel v rest)
unfolding env_bodies
env_bodies-next fuel v kind [] rest h = unfold next_token in cc h
env_bodies-next fuel v kind (b ∷ bs) rest h = rw (h, env_bodies)

body_of-frame_token :
    (kind : TokenType) (body t rest : Bytes)
    → frame_token kind body ≡ ok t
    → body_of (t ++ rest) rest ≡ body
unfolding le_bytes
body_of-frame_token kind body t rest h =
    let (small, shape) = frame_token-eq-ok kind body t h in
    let front : length (t ++ rest) - length rest ≡ length t = omega (arith, length-append t rest) in
    rw (front, take-length t rest (length t) refl, shape) refl

module _ (fuel v : ℕ) (t rest : Bytes) (bodies : List Bytes)
    (later : env_bodies fuel v rest ≡ some bodies) where
  env_bodies-change :
      (body : Bytes)
      → frame_token env_change_token body ≡ ok t
      → env_bodies (suc fuel) v (t ++ rest) ≡ some (body ∷ bodies)
  env_bodies-change body h =
      rw
        (
          env_bodies-next fuel v 0xe3 (t ++ rest) rest
              (next_token-frame_token v env_change_token body t rest IsSized.env_change h),
          later,
          body_of-frame_token env_change_token body t rest h,
        )
        refl

  env_bodies-other :
      (kind : TokenType) (body : Bytes)
      → IsSized kind
      → (token_byte kind == 0xe3) ≡ false
      → frame_token kind body ≡ ok t
      → env_bodies (suc fuel) v (t ++ rest) ≡ some bodies
  env_bodies-other kind body s other h =
      rw
        (
          env_bodies-next fuel v (token_byte kind) (t ++ rest) rest
              (next_token-frame_token v kind body t rest s h),
          later,
          other,
        )
        refl

  env_bodies-done :
      (status command count : ℕ)
      → done status command count v ≡ ok t
      → env_bodies (suc fuel) v (t ++ rest) ≡ some bodies
  env_bodies-done status command count h =
      rw
        (
          env_bodies-next fuel v 0xfd (t ++ rest) rest
              (next_token-done v status command count t rest h),
          later,
        )
        refl

ok-eq : (a b : Bytes) → ok a ≡ ok b → a ≡ b
ok-eq a b h = cc

-- A value as it is counted and written.
abbrev pub IsWritten : EnvValue → Bytes → Type 0
IsWritten (characters s) bytes =
    (encoded : Bytes) × (encode_utf16 s ≡ ok encoded) × (bytes ≡ length s ∷ encoded)
IsWritten (raw value) bytes = bytes ≡ length value ∷ value

encode_env-IsWritten :
    (value : EnvValue) (bytes : Bytes) → encode_env value ≡ ok bytes → IsWritten value bytes
unfolding encode_env b_varchar
encode_env-IsWritten (characters s) bytes h =
    let (encoded, e1, h1) = bind-eq-ok (encode_utf16 s) _ h in
    let (count, e2, h2) = bind-eq-ok (byte (length s)) _ h1 in
    let one = (byte-eq-ok (length s) e2).1 in
    let same = ok-eq (count ++ encoded) bytes h2 in (encoded, e1, rw (← same, one) refl)
encode_env-IsWritten (raw value) bytes h =
    let (count, e2, h2) = bind-eq-ok (byte (length value)) _ h in
    let one = (byte-eq-ok (length value) e2).1 in
    let same = ok-eq (count ++ value) bytes h2 in rw (← same, one) refl

-- The body of an ENVCHANGE: its type, the new value, the old one.
abbrev pub Tells : EnvChangeType → EnvValue → EnvValue → Bytes → Type 0
Tells kind new old body =
    (a : Bytes) × (b : Bytes) × IsWritten new a
    × IsWritten old b
    × (body ≡ env_change_byte kind ∷ (a ++ b))

env_change-Tells :
    (kind : EnvChangeType) (new old : EnvValue) (t : Bytes)
    → env_change kind new old ≡ ok t
    → (body : Bytes) × (frame_token env_change_token body ≡ ok t) × Tells kind new old body
unfolding env_change
env_change-Tells kind new old t h =
    let (a, e1, h1) = bind-eq-ok (encode_env new) _ h in
    let (b, e2, h2) = bind-eq-ok (encode_env old) _ h1 in
    (
      env_change_byte kind ∷ (a ++ b),
      h2,
      (a, b, encode_env-IsWritten new a e1, encode_env-IsWritten old b e2, refl),
    )

-- The changes that a login's answer announces: its database, from itself, the collation and the
-- language, from nothing, and the packet size in digits, from itself.
abbrev pub Announces : LoginAnswer → Bytes → Type 0
Announces a bytes =
    (b1 : Bytes) × (b2 : Bytes) × (b3 : Bytes) × (b4 : Bytes) × Tells database
      (characters a.database_name) (characters a.database_name) b1
    × Tells sql_collation (raw a.collation) (characters []) b2
    × Tells language (characters a.language_name) (characters []) b3
    × Tells packet_size (characters (decimal a.size)) (characters (decimal a.size)) b4
    × (env_bodies 8 a.tds_version bytes ≡ some (b1 ∷ b2 ∷ b3 ∷ b4 ∷ []))

pub login_changes :
    (a : LoginAnswer) (t1 t2 t3 t4 t5 t6 t7 t8 i j k : Bytes)
    → env_change database (characters a.database_name) (characters a.database_name) ≡ ok t1
    → frame_token info_token i ≡ ok t2
    → env_change sql_collation (raw a.collation) (characters []) ≡ ok t3
    → env_change language (characters a.language_name) (characters []) ≡ ok t4
    → frame_token info_token j ≡ ok t5
    → frame_token login_ack_token k ≡ ok t6
    → env_change packet_size (characters (decimal a.size)) (characters (decimal a.size)) ≡ ok t7
    → done done_final 0 0 a.tds_version ≡ ok t8
    → Announces a (t1 ++ (t2 ++ (t3 ++ (t4 ++ (t5 ++ (t6 ++ (t7 ++ t8)))))))
login_changes a t1 t2 t3 t4 t5 t6 t7 t8 i j k e1 e2 e3 e4 e5 e6 e7 e8 =
    let v = a.tds_version in
    let (b1, f1, told1) = env_change-Tells _ _ _ t1 e1 in
    let (b3, f3, told3) = env_change-Tells _ _ _ t3 e3 in
    let (b4, f4, told4) = env_change-Tells _ _ _ t4 e4 in
    let (b7, f7, told7) = env_change-Tells _ _ _ t7 e7 in
    let k8 : env_bodies 1 v t8 ≡ some [] =
      rw append-nil at
        (env_bodies-done 0 v t8 [] [] (unfold env_bodies in refl) done_final 0 0 e8) in
    let k7 = env_bodies-change 1 v t7 t8 _ k8 b7 f7 in
    let k6 = env_bodies-other 2 v t6 _ _ k7 login_ack_token k IsSized.login_ack refl e6 in
    let k5 = env_bodies-other 3 v t5 _ _ k6 info_token j IsSized.info refl e5 in
    let k4 = env_bodies-change 4 v t4 _ _ k5 b4 f4 in
    let k3 = env_bodies-change 5 v t3 _ _ k4 b3 f3 in
    let k2 = env_bodies-other 6 v t2 _ _ k3 info_token i IsSized.info refl e2 in
    (b1, b3, b4, b7, told1, told3, told4, told7, env_bodies-change 7 v t1 _ _ k2 b1 f1)
