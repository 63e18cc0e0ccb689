-- ===== src/Prelogin/Layout.antt =====
-- What `build` writes: a table of entries, its terminator, and the options' bytes in table order.
use py_sqlbridge.Prelude.{
  ℕ, ◌+◌, ◌*◌, ◌<◌, ◌≡◌, ap, ◌∙◌, arith, some, [], ◌∷◌, ◌++◌, length, length-append, append_assoc,
  append-nil,
}
use py_sqlbridge.Py.Result.{ok, bind-eq-ok}
use py_sqlbridge.Py.Bytes.{Bytes, be_bytes, pack_be}
use py_sqlbridge.Py.Bytes.Fields.{length-be_bytes, pack_be_fits, pack_be-eq-ok}
use py_sqlbridge.Prelogin.{
  PreloginOption, token_byte, prelogin_option, Options, pack_entry, build_from, build, terminator,
}

pub token_byte-lt : (t : PreloginOption) → token_byte t < 8
token_byte-lt t = ground arith

pub prelogin_option-token_byte : (t : PreloginOption) → prelogin_option (token_byte t) ≡ some t
prelogin_option-token_byte t = ground arith

unfoldable pub entry_bytes : PreloginOption → ℕ → ℕ → Bytes
entry_bytes t offset size = be_bytes 1 (token_byte t) ++ (be_bytes 2 offset ++ be_bytes 2 size)

pub length-entry_bytes :
    (t : PreloginOption) (offset size : ℕ) → length (entry_bytes t offset size) ≡ 5
unfolding entry_bytes
length-entry_bytes t offset size = omega (arith, length-append {0}, length-be_bytes)

-- The table and the data of options whose data starts at `at`.
unfoldable pub table_bytes : Options → ℕ → Bytes
table_bytes [] at = []
table_bytes ((t, bytes) ∷ options) at =
    entry_bytes t at (length bytes) ++ table_bytes options (at + length bytes)

unfoldable pub blob_bytes : Options → Bytes
blob_bytes [] = []
blob_bytes ((t, bytes) ∷ options) = bytes ++ blob_bytes options

pub length-table_bytes :
    (options : Options) (at : ℕ) → length (table_bytes options at) ≡ 5 * length options
unfolding table_bytes
length-table_bytes [] at = omega arith
length-table_bytes ((t, bytes) ∷ options) at = omega (
  arith,
  length-append (entry_bytes t at (length bytes)) (table_bytes options (at + length bytes)),
  length-entry_bytes t at (length bytes),
  length-table_bytes options (at + length bytes),
)

-- Every entry's offset and length fit two bytes.
abbrev pub Addressed : Options → ℕ → Type 0
Addressed [] at = Unit {0}
Addressed ((t, bytes) ∷ options) at =
    (at < 65536) × (length bytes < 65536) × Addressed options (at + length bytes)

pack_entry_fits :
    (t : PreloginOption) (offset size : ℕ)
    → offset < 65536
    → size < 65536
    → pack_entry t offset size ≡ ok (entry_bytes t offset size)
unfolding pack_entry entry_bytes
pack_entry_fits t offset size o s = rw (
  pack_be_fits 1 (token_byte t) (omega (arith, token_byte-lt t)),
  pack_be_fits 2 offset o,
  pack_be_fits 2 size s,
)

pack_entry-eq-ok :
    (t : PreloginOption) (offset size : ℕ) {bs : Bytes}
    → pack_entry t offset size ≡ ok bs
    → (offset < 65536) × (size < 65536)
unfolding pack_entry
pack_entry-eq-ok t offset size h =
    let (a, ea, h1) = bind-eq-ok (pack_be 1 (token_byte t)) _ h in
    let (b, eb, h2) = bind-eq-ok (pack_be 2 offset) _ h1 in
    let (c, ec, h3) = bind-eq-ok (pack_be 2 size) _ h2 in
    ((pack_be-eq-ok 2 offset eb).0, (pack_be-eq-ok 2 size ec).0)

build_from-Addressed :
    (table_size : ℕ) (options : Options) (table blob bytes : Bytes)
    → build_from table_size options table blob ≡ ok bytes
    → Addressed options (table_size + length blob)
unfolding build_from
build_from-Addressed n [] table blob bytes h = tt
build_from-Addressed n ((t, d) ∷ options) table blob bytes h =
    let (entry, packed, more) = bind-eq-ok (pack_entry t (n + length blob) (length d)) _ h in
    let (o, s) = pack_entry-eq-ok t (n + length blob) (length d) packed in
    let shift : n + length (blob ++ d) ≡ n + length blob + length d =
      omega (arith, length-append blob d) in
    (o, s, rw shift at (build_from-Addressed n options (table ++ entry) (blob ++ d) bytes more))

build_from_lem :
    (table_size : ℕ) (options : Options) (table blob : Bytes)
    → Addressed options (table_size + length blob)
    → build_from table_size options table blob
      ≡ ok (
          table
          ++ (table_bytes options (table_size + length blob)
              ++ (terminator ∷ (blob ++ blob_bytes options))))
unfolding build_from table_bytes blob_bytes
build_from_lem n [] table blob h = rw (append-nil, append_assoc)
build_from_lem n ((t, d) ∷ options) table blob h =
    let shift : n + length blob + length d ≡ n + length (blob ++ d) =
      omega (arith, length-append blob d) in
    let entry = entry_bytes t (n + length blob) (length d) in
    rw (pack_entry_fits t (n + length blob) (length d) h.0 h.1) (
      build_from_lem n options (table ++ entry) (blob ++ d) (rw shift at h.2)
      ∙ ap ok (rw shift (simp append_assoc)))

abbrev pub table_size : Options → ℕ
table_size options = length options * 5 + 1

abbrev pub payload_bytes : Options → Bytes
payload_bytes options =
    table_bytes options (table_size options) ++ (terminator ∷ blob_bytes options)

-- A message that builds is laid out so, and every message whose entries fit builds.
pub build-Addressed :
    (options : Options) {bytes : Bytes}
    → build options ≡ ok bytes
    → Addressed options (table_size options)
unfolding build
build-Addressed options {bytes} h =
    let e : length options * 5 + 1 + 0 ≡ table_size options = omega arith in
    rw e at (build_from-Addressed (table_size options) options [] [] bytes h)

pub build_lem :
    (options : Options)
    → Addressed options (table_size options)
    → build options ≡ ok (payload_bytes options)
unfolding build
build_lem options h =
    let e : table_size options ≡ table_size options + 0 = omega arith in
    build_from_lem (table_size options) options [] [] (rw e at h) ∙ rw (← e)
