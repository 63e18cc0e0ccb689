-- ===== src/ResultSet/Shape.antt =====
-- That a client reads the shape that COLMETADATA declares.
use py_sqlbridge.Prelude.{
  ℕ, ◌+◌, ◌*◌, ◌/◌, ◌%◌, ◌≡◌, ◌≢◌, refl, sym, arith, none, some, List, [], ◌∷◌, ◌++◌, map, length,
  All, append_assoc, length-append, take-length, drop-length, le→leb, ==_ne,
}
use py_sqlbridge.Py.Result.{ok, bind-eq-ok}
use py_sqlbridge.Py.Bytes.{Bytes, le_bytes, pack_le, byte, le_value}
use py_sqlbridge.Py.Bytes.Fields.{pack_le-eq-ok, byte-eq-ok, length-le_bytes, le_value-le_bytes}
use py_sqlbridge.Py.Utf16.{Str, encode_pass}
use py_sqlbridge.Py.Utf16.Sizes.{astral, length-encode_pass}
use py_sqlbridge.ResultSet.Types.{
  ColumnType, integer, untyped_null, float, nvarchar, bit, unique_identifier, date_time, var_binary,
  small_int, binary, type_info,
}
use py_sqlbridge.ResultSet.Rows.{
  Column, name_length, user_type_width, sent_flags, metadata, join_all,
}
use py_sqlbridge.ResultSet.Client.{
  short_count, read_size, read_layout, Entry, split_at, read_name, read_column, read_columns,
}
use py_sqlbridge.ResultSet.Carried.{layout_of, IsSound}

pub split_here : (n : ℕ) (xs rest : Bytes) → n ≡ length xs → split_at n (xs ++ rest) ≡ ok (xs, rest)
split_here n xs rest e =
    rw
      (
        le→leb n (length (xs ++ rest)) (omega (arith, length-append xs rest)),
        take-length xs rest n e,
        drop-length xs rest n e,
      )
      refl

-- A declared size that is no MAX marker.
sized_read :
    (skip n : ℕ) (size collation rest : Bytes)
    → pack_le 2 n ≡ ok size
    → n ≢ 65535
    → length collation ≡ skip
    → read_size skip (size ++ (collation ++ rest)) ≡ some (short_count, rest)
unfolding le_bytes
sized_read skip n size collation rest packed known wide =
    let (small, shape) = pack_le-eq-ok 2 n packed in
    let back : n % 256 + 256 * (n / 256 % 256) ≡ n = omega (arith, small) in
    rw
      (
        shape,
        le→leb skip (length (collation ++ rest))
            (omega (arith, wide, length-append collation rest)),
        back,
        ==_ne n 65535 known,
        drop-length collation rest skip (sym wide),
      )
      refl

type_info-Layout :
    (kind : ColumnType) (info rest : Bytes)
    → IsSound kind
    → type_info kind ≡ ok info
    → read_layout (info ++ rest) ≡ some (layout_of kind, rest)
unfolding type_info read_layout
type_info-Layout (integer w) info rest sound e =
    (let same : info ≡ 0x26 ∷ w ∷ [] = cc in rw same refl)
type_info-Layout (untyped_null w) info rest sound e =
    (let same : info ≡ 0x26 ∷ w ∷ [] = cc in rw same refl)
type_info-Layout (float w) info rest sound e =
    (let same : info ≡ 0x6d ∷ w ∷ [] = cc in rw same refl)
type_info-Layout (nvarchar none collation) info rest sound e =
    let same : info ≡ 0xe7 ∷ 255 ∷ 255 ∷ collation = unfold pack_le in unfold le_bytes in cc in
    rw
      (
        same,
        le→leb 5 (length (collation ++ rest)) (omega (arith, sound, length-append collation rest)),
        drop-length collation rest 5 (sym sound),
      )
      refl
type_info-Layout (nvarchar (some n) collation) info rest sound e =
    let (size, packed, e1) = bind-eq-ok (pack_le 2 (n * 2)) _ e in
    let same : info ≡ 0xe7 ∷ (size ++ collation) = cc in
    rw (same, append_assoc size collation rest)
      (sized_read 5 (n * 2) size collation rest packed (λ z. omega (arith, z)) sound)
type_info-Layout bit info rest sound e = (let same : info ≡ 0x68 ∷ 1 ∷ [] = cc in rw same refl)
type_info-Layout unique_identifier info rest sound e =
    (let same : info ≡ 0x24 ∷ 16 ∷ [] = cc in rw same refl)
type_info-Layout date_time info rest sound e =
    (let same : info ≡ 0x6f ∷ 8 ∷ [] = cc in rw same refl)
type_info-Layout (var_binary n) info rest sound e =
    let (size, packed, e1) = bind-eq-ok (pack_le 2 n) _ e in
    let same : info ≡ 0xa5 ∷ size = cc in
    rw same (sized_read 0 n size [] rest packed (λ z. omega (arith, sound, z)) refl)
type_info-Layout small_int info rest sound e = (let same : info ≡ 0x34 ∷ [] = cc in rw same refl)
type_info-Layout (binary n) info rest sound e =
    let (size, packed, e1) = bind-eq-ok (pack_le 2 n) _ e in
    let same : info ≡ 0xad ∷ size = cc in
    rw same (sized_read 0 n size [] rest packed (λ z. omega (arith, sound, z)) refl)

-- What a client is to read of a column.
abbrev pub entry_of : Column → Entry
entry_of c = record {
  user_type = c.user_type;
  flags = sent_flags c;
  layout = layout_of c.kind;
  name = encode_pass c.name;
}

-- A type as the source makes it, and a name of the basic plane.
pub record IsDeclarable (c : Column) : Type 0 where
  pub sound : IsSound c.kind
  pub plain : astral c.name ≡ 0

name-Read :
    (name : Str) (size rest : Bytes)
    → astral name ≡ 0
    → byte (length name) ≡ ok size
    → read_name ((size ++ encode_pass name) ++ rest) ≡ ok (encode_pass name, rest)
name-Read name size rest plain e = rw (byte-eq-ok (length name) e).1 (
    split_here (2 * length name) (encode_pass name) rest
      (omega (arith, plain, length-encode_pass name)))

pub field-Read :
    (w n : ℕ) (field rest : Bytes)
    → pack_le w n ≡ ok field
    → (split_at w (field ++ rest) ≡ ok (field, rest)) × (le_value field ≡ n)
field-Read w n field rest e =
    let (small, shape) = pack_le-eq-ok w n e in
    rw shape
      (split_here w (le_bytes w n) rest (sym (length-le_bytes w n)), le_value-le_bytes w n small)

name_length-eq-ok : (name : Str) {n : ℕ} → name_length name ≡ ok n → n ≡ length name
unfolding name_length
name_length-eq-ok name h = ground arith

-- The fields of a column, one behind the other.
entry-Read :
    (v : ℕ) (c : Column) (ut fl info size rest : Bytes)
    → IsDeclarable c
    → pack_le (user_type_width v) c.user_type ≡ ok ut
    → pack_le 2 (sent_flags c) ≡ ok fl
    → type_info c.kind ≡ ok info
    → byte (length c.name) ≡ ok size
    → read_column v ((ut ++ (fl ++ (info ++ (size ++ encode_pass c.name)))) ++ rest)
      ≡ ok (entry_of c, rest)
unfolding read_column
entry-Read v c ut fl info size rest h p1 p2 p3 p5 =
    let named = size ++ encode_pass c.name in
    let (r1, v1) =
      field-Read (user_type_width v) c.user_type ut (fl ++ (info ++ (named ++ rest))) p1 in
    let (r2, v2) = field-Read 2 (sent_flags c) fl (info ++ (named ++ rest)) p2 in
    rw
      (
        append_assoc ut (fl ++ (info ++ named)) rest,
        append_assoc fl (info ++ named) rest,
        append_assoc info named rest,
        r1,
        r2,
        type_info-Layout c.kind info (named ++ rest) h.sound p3,
        name-Read c.name size rest h.plain p5,
        v1,
        v2,
      )
      refl

metadata-Read :
    (v : ℕ) (c : Column) (bytes rest : Bytes)
    → IsDeclarable c
    → metadata v c ≡ ok bytes
    → read_column v (bytes ++ rest) ≡ ok (entry_of c, rest)
unfolding metadata
metadata-Read v c bytes rest h e =
    let (ut, p1, e1) = bind-eq-ok (pack_le (user_type_width v) c.user_type) _ e in
    let (fl, p2, e2) = bind-eq-ok (pack_le 2 (sent_flags c)) _ e1 in
    let (info, p3, e3) = bind-eq-ok (type_info c.kind) _ e2 in
    let (count, p4, e4) = bind-eq-ok (name_length c.name) _ e3 in
    let (size, p5, e5) = bind-eq-ok (byte count) _ e4 in
    let known : count ≡ length c.name = name_length-eq-ok c.name p4 in
    let shape : bytes ≡ ut ++ (fl ++ (info ++ (size ++ encode_pass c.name))) = cc in
    rw shape (entry-Read v c ut fl info size rest h p1 p2 p3 (rw known at p5))

pub columns-Read :
    (v : ℕ) (columns : List Column) (bytes rest : Bytes)
    → All IsDeclarable columns
    → join_all (metadata v) columns ≡ ok bytes
    → read_columns (length columns) v (bytes ++ rest) ≡ ok (map entry_of columns, rest)
unfolding read_columns join_all
columns-Read v [] bytes rest h e = (let same : bytes ≡ [] = cc in rw same refl)
columns-Read v (c ∷ columns) bytes rest h e =
    let (first, e1, h1) = bind-eq-ok (metadata v c) _ e in
    let (later, e2, h2) = bind-eq-ok (join_all (metadata v) columns) _ h1 in
    let shape : bytes ≡ first ++ later = cc in
    rw
      (
        shape,
        append_assoc first later rest,
        metadata-Read v c first (later ++ rest) h.0 e1,
        columns-Read v columns later rest h.1 e2,
      )
      refl
