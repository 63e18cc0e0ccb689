-- ===== src/Prelogin.antt =====
-- src/pysqlbridge/tds/prelogin.py: the option table that opens a connection, and its answer.
pub mod Layout
pub mod RoundTrip
pub mod Errors
pub mod Response
mod Tests
use py_sqlbridge.Prelude.{
  ℕ, zero, suc, ◌+◌, ◌*◌, Bool, true, false, not, ◌||◌, Option, none, some, List, [], ◌∷◌, ◌++◌,
  leb, ltb, ◌==◌, length, map, if◌then◌else◌,
}
use py_sqlbridge.Py.Result.{
  Exc, Result, ok, err, protocol_error, value_error, decode_error, out_of_fuel, ◌>>=◌, ◌>>◌,
  raise_if,
}
use py_sqlbridge.Py.Bytes.{Bytes, slice, or_raise, index, pack_be, unpack_be}
use py_sqlbridge.Py.Utf16.{Str}

abbrev pub terminator : ℕ
terminator = 0xff

abbrev entry_size : ℕ
entry_size = 5

pub data PreloginOption : Type 0 where
  version encryption instopt threadid mars traceid fedauthrequired nonceopt : PreloginOption

abbrev pub token_byte : PreloginOption → ℕ
token_byte version = 0x00
token_byte encryption = 0x01
token_byte instopt = 0x02
token_byte threadid = 0x03
token_byte mars = 0x04
token_byte traceid = 0x05
token_byte fedauthrequired = 0x06
token_byte nonceopt = 0x07

-- `PreloginOption(raw)`
abbrev pub prelogin_option : ℕ → Option PreloginOption
prelogin_option b =
    if b == 0x00
    then some version
    else if b == 0x01
    then some encryption
    else if b == 0x02
    then some instopt
    else if b == 0x03
    then some threadid
    else if b == 0x04
    then some mars
    else if b == 0x05
    then some traceid
    else if b == 0x06
    then some fedauthrequired
    else if b == 0x07
    then some nonceopt
    else none

-- Members of the enumeration are equal when their values are.
abbrev pub same_option : PreloginOption → PreloginOption → Bool
same_option a b = token_byte a == token_byte b

pub data Encryption : Type 0 where
  off on not_supported required : Encryption

abbrev pub encryption_byte : Encryption → ℕ
encryption_byte off = 0x00
encryption_byte on = 0x01
encryption_byte not_supported = 0x02
encryption_byte required = 0x03

-- `Encryption(raw)`: a byte that no member has is a `ValueError`.
abbrev encryption_of_byte : ℕ → Result Encryption
encryption_of_byte b =
    if b == 0x00
    then ok off
    else if b == 0x01
    then ok on
    else if b == 0x02
    then ok not_supported
    else if b == 0x03
    then ok required
    else err value_error

pub record Version : Type 0 where
  pub major : ℕ
  pub minor : ℕ
  pub build : ℕ
  pub subbuild : ℕ

abbrev pub sql_server_2025 : Version
sql_server_2025 = record { major = 17; minor = 0; build = 1000; subbuild = 0 }

unfoldable pub pack_version : Version → Result Bytes
pack_version v = do
  a ← pack_be 1 v.major
  b ← pack_be 1 v.minor
  c ← pack_be 2 v.build
  d ← pack_be 2 v.subbuild
  ok (a ++ (b ++ (c ++ d)))

pub unpack_version : Bytes → Result Version
unpack_version bytes = do
  raise_if (not (length bytes == 6)) protocol_error
  major ← unpack_be 1 bytes 0
  minor ← unpack_be 1 bytes 1
  build ← unpack_be 2 bytes 2
  subbuild ← unpack_be 2 bytes 4
  ok (record { major = major; minor = minor; build = build; subbuild = subbuild })

abbrev pub Options : Type 0
Options = List (PreloginOption × Bytes)

-- `Prelogin.get`: the first entry of the option.
unfoldable pub get : Options → PreloginOption → Option Bytes
get [] option = none
get ((token, bytes) ∷ options) option =
    if same_option token option then some bytes else get options option

-- A property's value, `None` where the option is missing or, as Python's truth has it, empty.
abbrev pub if_present {ℓ} : {A : Type ℓ} → Option Bytes → (Bytes → Result A) → Result (Option A)
if_present none f = ok none
if_present (some []) f = ok none
if_present (some (b ∷ bs)) f = do a ← f (b ∷ bs); ok (some a)

pub version_of : Options → Result (Option Version)
version_of options = if_present (get options version) unpack_version

unfoldable pub encryption_of : Options → Result (Option Encryption)
encryption_of options =
    if_present (get options encryption) (λ bytes. do b ← index bytes 0; encryption_of_byte b)

pub mars_of : Options → Result (Option Bool)
mars_of options = if_present (get options mars) (λ bytes. do b ← index bytes 0; ok (not (b == 0)))

-- `data.rstrip(b"\x00")`
abbrev rstrip_nulls : Bytes → Bytes
rstrip_nulls [] = []
rstrip_nulls (b ∷ bs) = elim (rstrip_nulls bs) [
  | [] ↦ if b == 0 then [] else b ∷ []
  | c ∷ cs ↦ b ∷ c ∷ cs
]

-- `.decode("ascii")`
abbrev decode_ascii : Bytes → Result Str
decode_ascii [] = ok []
decode_ascii (b ∷ bs) = do s ← decode_ascii bs; if ltb b 128 then ok (b ∷ s) else err decode_error

pub instance_of : Options → Result (Option Str)
instance_of options = elim (get options instopt) [
  | none ↦ ok none
  | some bytes ↦ do s ← decode_ascii (rstrip_nulls bytes); ok (some s)
]

-- The loop of `Prelogin.parse` from `cursor` on, with fuel.
unfoldable pub parse_from : ℕ → Bytes → ℕ → Result Options
parse_from zero payload cursor = err out_of_fuel
parse_from (suc fuel) payload cursor =
    let rest = parse_from fuel payload (cursor + entry_size) in
    let entry = (do
      raise_if (ltb (length payload) (cursor + entry_size)) protocol_error
      raw_token ← unpack_be 1 payload cursor
      offset ← unpack_be 2 payload (cursor + 1)
      size ← unpack_be 2 payload (cursor + 3)
      raise_if (ltb (length payload) (offset + size)) protocol_error
      token ← or_raise protocol_error (prelogin_option raw_token)
      options ← rest
      ok ((token, slice payload offset (offset + size)) ∷ options)) in
    do
      raise_if (leb (length payload) cursor) protocol_error
      mark ← index payload cursor
      if mark == terminator then ok [] else entry

-- An entry takes five bytes, so the payload's length is fuel enough.
unfoldable pub parse : Bytes → Result Options
parse payload = parse_from (suc (length payload)) payload 0

-- `_ENTRY.pack`
unfoldable pub pack_entry : PreloginOption → ℕ → ℕ → Result Bytes
pack_entry token offset size = do
  a ← pack_be 1 (token_byte token)
  b ← pack_be 2 offset
  c ← pack_be 2 size
  ok (a ++ (b ++ c))

-- The loop of `Prelogin.build` over the entries that are left.
unfoldable pub build_from : ℕ → Options → Bytes → Bytes → Result Bytes
build_from table_size [] table blob = ok ((table ++ terminator ∷ []) ++ blob)
build_from table_size ((token, bytes) ∷ options) table blob = do
  entry ← pack_entry token (table_size + length blob) (length bytes)
  build_from table_size options (table ++ entry) (blob ++ bytes)

unfoldable pub build : Options → Result Bytes
build options = build_from (length options * entry_size + 1) options [] []

-- `token in wanted`
abbrev pub is_wanted : Options → PreloginOption → Bool
is_wanted [] token = false
is_wanted ((t, _) ∷ asked) token = same_option t token || is_wanted asked token

-- `token in ALWAYS_ANSWERED`
abbrev pub is_always_answered : PreloginOption → Bool
is_always_answered token = same_option token version || same_option token encryption

abbrev pub answered : Options → Options → Options
answered asked [] = []
answered asked ((token, value) ∷ answers) =
    let rest = answered asked answers in
    if is_wanted asked token || is_always_answered token then (token, value) ∷ rest else rest

unfoldable pub server_response : Version → Encryption → Bool → Option Options → Result Options
server_response v agreed with_mars asked = do
  packed ← pack_version v
  let answers =
      (version, packed)
      ∷ (encryption, encryption_byte agreed ∷ [])
      ∷ (instopt, 0 ∷ [])
      ∷ (threadid, [])
      ∷ (mars, (if with_mars then 1 else 0) ∷ [])
      ∷ (traceid, [])
      ∷ []
  elim asked [ none ↦ ok answers | some options ↦ ok (answered options answers) ]
