-- ===== src/Prelogin/Response.antt =====
-- What the server answers, as the client reads it.
use py_sqlbridge.Prelude.{
  ℕ, ◌+◌, ◌≤◌, ◌<◌, ◌≡◌, ◌≢◌, refl, sym, ◌∙◌, arith, Bool, true, false, inl, inr, Option, some,
  none, [], ◌∷◌, ◌++◌, length, Bool-cases, if◌then◌else◌, append-nil, length-append, ◌||◌,
}
use py_sqlbridge.Py.Result.{Result, ok}
use py_sqlbridge.Py.Bytes.{Bytes, be_bytes, index}
use py_sqlbridge.Py.Bytes.Fields.{pack_be_fits, length-be_bytes}
use py_sqlbridge.Py.Bytes.Cursor.{past_be, unpack_be_here}
use py_sqlbridge.Prelogin.{
  PreloginOption, version, encryption, instopt, threadid, mars, traceid, Encryption,
  encryption_byte, Version, pack_version, unpack_version, Options, get, version_of, encryption_of,
  is_wanted, is_always_answered, answered, same_option, server_response, build, parse, if_present,
}
use py_sqlbridge.Prelogin.Layout.{Addressed, table_size, blob_bytes, payload_bytes, build_lem}
use py_sqlbridge.Prelogin.RoundTrip.{parse-build}

-- The fields fit the six bytes.
pub record IsSixBytes (v : Version) : Type 0 where
  pub major_fits : v.major < 256
  pub minor_fits : v.minor < 256
  pub build_fits : v.build < 65536
  pub subbuild_fits : v.subbuild < 65536

abbrev version_bytes : Version → Bytes
version_bytes v =
    be_bytes 1 v.major ++ (be_bytes 1 v.minor ++ (be_bytes 2 v.build ++ be_bytes 2 v.subbuild))

pack_version_lem : (v : Version) → IsSixBytes v → pack_version v ≡ ok (version_bytes v)
unfolding pack_version
pack_version_lem v h = rw (
  pack_be_fits 1 v.major h.major_fits,
  pack_be_fits 1 v.minor h.minor_fits,
  pack_be_fits 2 v.build h.build_fits,
  pack_be_fits 2 v.subbuild h.subbuild_fits,
)

length-version_bytes : (v : Version) → length (version_bytes v) ≡ 6
unfolding be_bytes
length-version_bytes v = omega (arith, length-be_bytes)

unpack_version_lem : (v : Version) → IsSixBytes v → unpack_version (version_bytes v) ≡ ok v
unfolding unpack_version
unpack_version_lem v h =
    let p = version_bytes v in
    let at_minor = past_be 1 p 0 v.major 1 _ refl refl in
    let at_build = past_be 1 p 1 v.minor 2 _ at_minor refl in
    let at_subbuild =
      past_be 2 p 2 v.build 4 _ at_build refl ∙ sym (append-nil (be_bytes 2 v.subbuild)) in
    rw (
      length-version_bytes v,
      unpack_be_here 1 p 0 v.major _ refl h.major_fits (omega arith),
      unpack_be_here 1 p 1 v.minor _ at_minor h.minor_fits (omega arith),
      unpack_be_here 2 p 2 v.build _ at_build h.build_fits (omega arith),
      unpack_be_here 2 p 4 v.subbuild [] at_subbuild h.subbuild_fits (omega arith),
    )

-- The answers that the server has, before it leaves out what was not asked.
abbrev answers : Version → Encryption → Bool → Options
answers v agreed with_mars =
    (version, version_bytes v)
    ∷ (encryption, encryption_byte agreed ∷ [])
    ∷ (instopt, 0 ∷ [])
    ∷ (threadid, [])
    ∷ (mars, (if with_mars then 1 else 0) ∷ [])
    ∷ (traceid, [])
    ∷ []

abbrev response : Version → Encryption → Bool → Option Options → Options
response v agreed with_mars none = answers v agreed with_mars
response v agreed with_mars (some asked) = answered asked (answers v agreed with_mars)

server_response_lem :
    (v : Version) (agreed : Encryption) (with_mars : Bool) (asked : Option Options)
    → IsSixBytes v
    → server_response v agreed with_mars asked ≡ ok (response v agreed with_mars asked)
unfolding server_response
server_response_lem v agreed with_mars none h = rw (pack_version_lem v h)
server_response_lem v agreed with_mars (some asked) h = rw (pack_version_lem v h)

Addressed-small :
    (options : Options) (at : ℕ) → at + length (blob_bytes options) < 65536 → Addressed options at
unfolding blob_bytes
Addressed-small [] at h = tt
Addressed-small ((t, bytes) ∷ options) at h =
    let size = length-append bytes (blob_bytes options) in
    (omega arith, omega arith, Addressed-small options (at + length bytes) (omega arith))

answered_shorter :
    (asked options : Options)
    → (length (answered asked options) ≤ length options)
      × (length (blob_bytes (answered asked options)) ≤ length (blob_bytes options))
unfolding blob_bytes
answered_shorter asked [] = (omega arith, omega arith)
answered_shorter asked ((t, bytes) ∷ options) =
    let rest = answered_shorter asked options in
    let size = length-append bytes (blob_bytes options) in
    let kept = length-append bytes (blob_bytes (answered asked options)) in
    elim (Bool-cases (is_wanted asked t || is_always_answered t)) [
      | inl keep ↦ rw keep (omega arith, omega arith)
      | inr drop ↦ rw drop (omega arith, omega arith)
    ]

answers_small :
    (v : Version) (agreed : Encryption) (with_mars : Bool)
    → length (blob_bytes (answers v agreed with_mars)) ≡ 9
unfolding blob_bytes
answers_small v agreed with_mars = omega (
  arith,
  length-version_bytes v,
  length-append (version_bytes v) (encryption_byte agreed ∷ 0 ∷ (if with_mars then 1 else 0) ∷ []),
)

response-Addressed :
    (v : Version) (agreed : Encryption) (with_mars : Bool) (asked : Option Options)
    → Addressed (response v agreed with_mars asked) (table_size (response v agreed with_mars asked))
response-Addressed v agreed with_mars none =
    Addressed-small (answers v agreed with_mars) 31
      (omega (arith, answers_small v agreed with_mars))
response-Addressed v agreed with_mars (some asked) =
    let full = answers v agreed with_mars in
    Addressed-small (answered asked full) (table_size (answered asked full))
      (omega (arith, answers_small v agreed with_mars, answered_shorter asked full))

or_true : (b : Bool) → b || true ≡ true
or_true b = ground arith

get_always :
    (v : Version) (agreed : Encryption) (with_mars : Bool) (asked : Option Options)
    → (get (response v agreed with_mars asked) version ≡ some (version_bytes v))
      × (get (response v agreed with_mars asked) encryption ≡ some (encryption_byte agreed ∷ []))
unfolding get
get_always v agreed with_mars none = (refl, refl)
get_always v agreed with_mars (some asked) =
    rw (or_true (is_wanted asked version), or_true (is_wanted asked encryption)) (refl, refl)

if_present_lem :
    {A : Type 0} (bytes : Bytes) (f : Bytes → Result A) (a : A)
    → 0 < length bytes
    → f bytes ≡ ok a
    → if_present (some bytes) f ≡ ok (some a)
if_present_lem [] f a h e = absurd (omega arith)
if_present_lem (b ∷ bs) f a h e = rw e

-- Whatever options the client asked about, or whether it asked at all, the server's answer to a
-- version whose fields fit six bytes serialises, and a client that parses the bytes finds that
-- version and the agreed encryption in it.
pub server_response_reads :
    (v : Version) (agreed : Encryption) (with_mars : Bool) (asked : Option Options)
    → IsSixBytes v
    → (options : Options) × (bytes : Bytes) × (server_response v agreed with_mars asked
        ≡ ok options)
      × (build options ≡ ok bytes)
      × (parse bytes ≡ ok options)
      × (version_of options ≡ ok (some v))
      × (encryption_of options ≡ ok (some agreed))
unfolding version_of encryption_of index
server_response_reads v agreed with_mars asked h =
    let options = response v agreed with_mars asked in
    let built = build_lem options (response-Addressed v agreed with_mars asked) in
    let found = get_always v agreed with_mars asked in
    (
      options,
      payload_bytes options,
      server_response_lem v agreed with_mars asked h,
      built,
      parse-build options (payload_bytes options) built,
      rw (
        found.0,
        if_present_lem (version_bytes v) unpack_version v (omega (arith, length-version_bytes v))
            (unpack_version_lem v h),
      ),
      rw (found.1) (ground arith),
    )

is_wanted-none :
    (asked : Options) (t : PreloginOption) → get asked t ≡ none → is_wanted asked t ≡ false
unfolding get
is_wanted-none [] t h = refl
is_wanted-none ((u, bytes) ∷ asked) t h = ground (arith, is_wanted-none asked t)

same_option_sound : (t u : PreloginOption) → same_option t u ≡ true → t ≡ u
same_option_sound t u h = ground arith

-- Leaving `t` out leaves no entry of `t`.
get-answered :
    (asked options : Options) (t : PreloginOption)
    → is_wanted asked t ≡ false
    → is_always_answered t ≡ false
    → get (answered asked options) t ≡ none
unfolding get
get-answered asked [] t w a = refl
get-answered asked ((u, bytes) ∷ options) t w a = elim (Bool-cases (same_option u t)) [
  | inl same ↦ let e = same_option_sound u t same in rw (e, w, a) (get-answered asked options t w a)
  | inr other ↦ elim (Bool-cases (is_wanted asked u || is_always_answered u)) [
    | inl keep ↦ rw (keep, other) (get-answered asked options t w a)
    | inr drop ↦ rw drop (get-answered asked options t w a)
  ]
]

-- An option that the client did not ask about, other than the version and the encryption, is not
-- in the answer.
pub server_response_silent :
    (v : Version) (agreed : Encryption) (with_mars : Bool) (asked : Options) (t : PreloginOption)
    → IsSixBytes v
    → get asked t ≡ none
    → t ≢ version
    → t ≢ encryption
    → (options : Options) × (server_response v agreed with_mars (some asked) ≡ ok options)
      × (get options t ≡ none)
server_response_silent v agreed with_mars asked t h silent nv ne = (
  answered asked (answers v agreed with_mars),
  server_response_lem v agreed with_mars (some asked) h,
  get-answered asked (answers v agreed with_mars) t (is_wanted-none asked t silent) (ground arith),
)
