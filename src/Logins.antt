-- ===== src/Logins.antt =====
-- src/pysqlbridge/logins.py: the accounts that a bridge admits.
pub mod Admission
mod Tests
use py_sqlbridge.Prelude.{
  ℕ, ◌==◌, Bool, true, false, not, ◌&&◌, ◌||◌, Option, none, some, List, [], ◌∷◌, ◌++◌, ltb, length,
  if◌then◌else◌,
}
use py_sqlbridge.Py.Result.{
  Exc, Result, ok, err, value_error, source_error, type_error, ◌>>=◌, ◌>>◌, raise_if,
}
use py_sqlbridge.Py.Bytes.{Bytes, or_raise}
use py_sqlbridge.Py.Int.{ℤ, pos}
use py_sqlbridge.Py.Utf16.{Str}
use py_sqlbridge.Py.Text.{text}
use py_sqlbridge.Py.Decimal.{decimal}
use py_sqlbridge.Py.Dict.{Dict, same_text, dict_get, dict_set}

-- What the passwords rest on: hashlib's PBKDF2 over SHA-256, base64, UTF-8, `int` of a text, and
-- `str.lower`.
pub record Library : Type 0 where
  pub pbkdf2 : Bytes → Bytes → ℤ → Result Bytes
  pub b64encode : Bytes → Str
  pub b64decode : Str → Option Bytes
  pub utf8 : Str → Result Bytes
  pub parse_int : Str → Option ℤ
  pub lower : Str → Str

abbrev algorithm : Str
algorithm = text "pbkdf2_sha256"

abbrev iterations_default : ℕ
iterations_default = 210000

-- `text.split("$")`: 36 is the sign's code point.
abbrev onto_first : ℕ → List Str → List Str
onto_first c [] = (c ∷ []) ∷ []
onto_first c (part ∷ parts) = (c ∷ part) ∷ parts

pub split : Str → List Str
split [] = [] ∷ []
split (c ∷ s) = let rest = split s in if c == 36 then [] ∷ rest else onto_first c rest

-- `hmac.compare_digest` of two texts, which have to be ASCII.
abbrev pub is_ascii : Str → Bool
is_ascii [] = true
is_ascii (c ∷ s) = ltb c 128 && is_ascii s

pub compare_texts : Str → Str → Result Bool
compare_texts a b = if is_ascii a && is_ascii b then ok (same_text a b) else err type_error

pub record Login : Type 0 where
  pub user : Str
  pub secret : Str
  pub hashed : Bool
  pub source : Str

pub record LoginStore : Type 0 where
  pub logins : Dict Login
  pub decoy : Str

module _ (lib : Library) where
  -- `hash_password` with the salt that is given or drawn.
  pub hash_password : Str → ℕ → Bytes → Result Str
  hash_password password iterations salt = do
    raise_if (length password == 0) source_error
    secret ← lib.utf8 password
    digest ← lib.pbkdf2 secret salt (pos iterations)
    ok (
        algorithm
        ++ (36
            ∷ (decimal iterations ++ (36 ∷ (lib.b64encode salt ++ (36 ∷ lib.b64encode digest))))))

  -- The four parts of a stored hash. Bytes of the digest are compared like texts.
  abbrev matches_parts : List Str → Str → Result Bool
  matches_parts (named ∷ written ∷ salt ∷ digest ∷ []) offered = do
    raise_if (not (same_text named algorithm)) source_error
    iterations ← or_raise source_error (lib.parse_int written)
    salt_bytes ← or_raise source_error (lib.b64decode salt)
    digest_bytes ← or_raise source_error (lib.b64decode digest)
    secret ← lib.utf8 offered
    computed ← lib.pbkdf2 secret salt_bytes iterations
    ok (same_text computed digest_bytes)
  matches_parts _ offered = err source_error

  -- `_matches_hash`
  pub matches_hash : Str → Str → Result Bool
  unfolding split
  matches_hash stored offered = matches_parts (split stored) offered

  -- `Login.admits`
  unfoldable pub login_admits : Login → Str → Result Bool
  unfolding compare_texts matches_hash
  login_admits l password =
      if l.hashed then matches_hash l.secret password else compare_texts l.secret password

  -- `LoginStore(logins)`, with the decoy's hash.
  unfoldable pub by_name : List Login → Dict Login → Dict Login
  by_name [] d = d
  by_name (l ∷ logins) d = by_name logins (dict_set (lib.lower l.user) l d)

  abbrev pub new_store : List Login → Str → LoginStore
  new_store logins decoy = record { logins = by_name logins []; decoy = decoy }

  abbrev configured : LoginStore → Bool
  configured store = not (length store.logins == 0)

  abbrev pub admits_found : Option Login → LoginStore → Str → Result Bool
  admits_found none store password = do _ ← matches_hash store.decoy password; ok false
  admits_found (some l) store password = login_admits l password

  -- `LoginStore.admits`
  unfoldable pub store_admits : LoginStore → Str → Str → Result Bool
  unfolding login_admits
  store_admits store user password =
      admits_found (dict_get (lib.lower user) store.logins) store password

  -- The end of `from_document`: the names are told apart, and the store is made.
  unfoldable pub seen : Str → List Str → Bool
  seen name [] = false
  seen name (other ∷ names) = same_text name other || seen name names

  unfoldable pub told_apart : List Str → List Login → Bool
  told_apart names [] = true
  told_apart names (l ∷ logins) =
      not (seen (lib.lower l.user) names) && told_apart (lib.lower l.user ∷ names) logins

  unfoldable pub from_logins : List Login → Str → Result LoginStore
  from_logins logins decoy =
      if told_apart [] logins then ok (new_store logins decoy) else err source_error
