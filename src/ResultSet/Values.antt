-- ===== src/ResultSet/Values.antt =====
-- That a client reads the cell of every value, type by type.
use py_sqlbridge.Prelude.{
  ℕ, zero, suc, ◌+◌, ◌*◌, ◌^◌, ◌<◌, ◌≤◌, ◌≡◌, ◌≢◌, refl, sym, ap, ◌∙◌, arith, true, ◌||◌, inl, inr,
  Option, none, some, [], ◌∷◌, ◌++◌, ltb, ◌==◌, length, take, drop, Bool-cases, if◌then◌else◌,
  length-take, length-append, take-length, drop-length,
}
use py_sqlbridge.Py.Result.{ok, value_error, struct_error, bind-eq-ok}
use py_sqlbridge.Py.Bytes.{Bytes, pack_le, le_value, le_bytes}
use py_sqlbridge.Py.Bytes.Fields.{pack_le-eq-ok, length-le_bytes, le_value-le_bytes}
use py_sqlbridge.Py.Int.{pos, signed_value, write_integer}
use py_sqlbridge.Py.Int.Laws.{write_integer-eq-ok}
use py_sqlbridge.Py.Utf16.{encode_pass}
use py_sqlbridge.ResultSet.Types.{
  Objects, integer, float, nvarchar, bit, unique_identifier, date_time, var_binary, small_int,
  binary, ljust, nvarchar_max_bytes, encode_integer, encode_float, encode_sized, encode_chunk,
  raw_guid, encode_guid, moment_of, encode_moment, encode_var_binary, encode_binary, encode_present,
}
use py_sqlbridge.ResultSet.Client.{byte_count, short_count, read_cell}
use py_sqlbridge.ResultSet.Cells.{content_read, byte_count_read, short_count_read, chunk_read}
use py_sqlbridge.ResultSet.Carried.{IsPacked, CarriesInteger, pack_real, ReadsPresent}

length-ljust : (size : ℕ) (raw : Bytes) → length raw ≤ size → length (ljust size raw) ≡ size
length-ljust zero [] h = refl
length-ljust zero (b ∷ raw) h = absurd (omega arith)
length-ljust (suc size) [] h = ap suc (length-ljust size [] (omega arith))
length-ljust (suc size) (b ∷ raw) h = ap suc (length-ljust size raw (omega arith))

module _ (o : Objects) where
  integer-Carried :
      (width : ℕ) (value : o.Object) (cell : Bytes)
      → 0 < width
      → encode_integer o width value ≡ ok cell
      → (raw : Bytes) × CarriesInteger o width value raw × (cell ≡ width ∷ raw)
  unfolding encode_integer
  integer-Carried width value cell h e =
      let (number, given, e1) = bind-eq-ok (o.int value) _ e in
      let (raw, written, e2) =
        bind-eq-ok (write_integer value_error (ltb 1 width) width number) _ e1 in
      let (wide, back) = write_integer-eq-ok value_error (ltb 1 width) width number written in
      (raw, (wide, rw back given), cc)

  byte_count-Reads :
      (n : ℕ) (cell raw rest : Bytes)
      → cell ≡ n ∷ raw
      → length raw ≡ n
      → 0 < n
      → read_cell byte_count (cell ++ rest) ≡ some (some raw, rest)
  byte_count-Reads n cell raw rest e wide h = rw e (byte_count_read n raw rest (sym wide) h)

  pub integer-Reads :
      (width : ℕ) (value : o.Object) (cell : Bytes)
      → 0 < width
      → encode_integer o width value ≡ ok cell
      → ReadsPresent o (integer width) value cell
  integer-Reads width value cell h e =
      let (raw, carried, shape) = integer-Carried width value cell h e in
      (raw, carried, λ rest. byte_count-Reads width cell raw rest shape carried.0 h)

  width-positive : (width : ℕ) → (width == 4 || width == 8) ≡ true → 0 < width
  width-positive width h = ground arith

  real_width :
      (width : ℕ) (r : o.Real) (raw : Bytes)
      → IsPacked o
      → (width == 4 || width == 8) ≡ true
      → pack_real o width r ≡ ok raw
      → length raw ≡ width
  real_width width r raw laws h e = elim (Bool-cases (width == 8)) [
    | inl eight ↦
        (let w : width ≡ 8 = ground arith in laws.double_width r raw (rw eight at e) ∙ sym w)
    | inr other ↦
        (let w : width ≡ 4 = ground arith in laws.single_width r raw (rw other at e) ∙ sym w)
  ]

  pub float-Reads :
      (width : ℕ) (value : o.Object) (cell : Bytes)
      → IsPacked o
      → (width == 4 || width == 8) ≡ true
      → encode_float o width value ≡ ok cell
      → ReadsPresent o (float width) value cell
  unfolding encode_float
  float-Reads width value cell laws h e =
      let (r, given, e1) = bind-eq-ok (o.float value) _ e in
      let (raw, packed, e2) = bind-eq-ok (pack_real o width r) _ e1 in
      (
        raw,
        (r, given, packed),
        λ rest.
            byte_count-Reads width cell raw rest (cc) (real_width width r raw laws h packed)
              (width-positive width h),
      )

  pub sized-Reads :
      (max_chars : ℕ) (collation : Bytes) (value : o.Object) (cell : Bytes)
      → encode_sized o value ≡ ok cell
      → ReadsPresent o (nvarchar (some max_chars) collation) value cell
  unfolding encode_sized
  sized-Reads max_chars collation value cell e =
      let raw = encode_pass (o.str value) in
      elim (Bool-cases (ltb nvarchar_max_bytes (length raw))) [
        | inl long ↦ cc (rw long at e)
        | inr short ↦
            let (size, packed, e1) = bind-eq-ok (pack_le 2 (length raw)) _ (rw short at e) in
            let known : length raw ≢ 65535 = λ z. ground arith in
            let same : cell ≡ size ++ raw = cc in
            (raw, refl, λ rest. rw same (short_count_read size raw rest packed known))
      ]

  guid_raw_width :
      (given : Option Bytes) (value : o.Object) (raw : Bytes)
      → IsPacked o
      → raw_guid o given value ≡ ok raw
      → length raw ≡ 16
  guid_raw_width none value raw laws e = laws.guid_width value raw e
  guid_raw_width (some bytes) value raw laws e =
      let same : ljust 16 (take 16 bytes) ≡ raw = cc in
      rw⁻¹ same (length-ljust 16 (take 16 bytes) (omega (arith, length-take 16 bytes)))

  pub guid-Reads :
      (value : o.Object) (cell : Bytes)
      → IsPacked o
      → encode_guid o value ≡ ok cell
      → ReadsPresent o unique_identifier value cell
  unfolding encode_guid
  guid-Reads value cell laws e =
      let (raw, given, e1) = bind-eq-ok (raw_guid o (o.as_bytes value) value) _ e in
      (
        raw,
        given,
        λ rest.
            byte_count-Reads 16 cell raw rest (cc)
              (guid_raw_width (o.as_bytes value) value raw laws given) (omega arith),
      )

  pub moment-Reads :
      (value : o.Object) (cell : Bytes)
      → encode_moment o value ≡ ok cell
      → ReadsPresent o date_time value cell
  unfolding encode_moment
  moment-Reads value cell e =
      let (m, given, e1) = bind-eq-ok (moment_of o (o.dated value) value) _ e in
      let (days, written, e2) = bind-eq-ok (write_integer struct_error true 4 m.days) _ e1 in
      let t = o.round_ticks (m.hour * 3600 + m.minute * 60 + m.second) m.microsecond in
      let (ticks, packed, e3) = bind-eq-ok (pack_le 4 t) _ e2 in
      let (wide, back) = write_integer-eq-ok struct_error true 4 m.days written in
      let (small, shape) = pack_le-eq-ok 4 t packed in
      let count : length (days ++ ticks) ≡ 8 =
        rw shape (omega (arith, wide, length-append days (le_bytes 4 t), length-le_bytes 4 t)) in
      let first : signed_value (take 4 (days ++ ticks)) ≡ m.days =
        rw (take-length days ticks 4 (sym wide)) back in
      let second : le_value (drop 4 (days ++ ticks)) ≡ t =
        rw (drop-length days ticks 4 (sym wide), shape) (le_value-le_bytes 4 t small) in
      (
        days ++ ticks,
        (m, given, first, second),
        λ rest. byte_count-Reads 8 cell (days ++ ticks) rest (cc) count (omega arith),
      )

  binary_bytes-Reads :
      (given raw : Bytes) (cell size : Bytes)
      → length raw < 65535
      → pack_le 2 (length raw) ≡ ok size
      → cell ≡ size ++ raw
      → (rest : Bytes) → read_cell short_count (cell ++ rest) ≡ some (some raw, rest)
  binary_bytes-Reads given raw cell size small packed shape rest =
      rw shape (short_count_read size raw rest packed (λ z. omega (arith, small, z)))

  pub var_binary-Reads :
      (size : ℕ) (value : o.Object) (cell : Bytes)
      → size < 65535
      → encode_var_binary o size value ≡ ok cell
      → ReadsPresent o (var_binary size) value cell
  unfolding encode_var_binary
  var_binary-Reads size value cell small e =
      let (given, known, e1) = bind-eq-ok (o.bytes value) _ e in
      let raw = take size given in
      let (count, packed, e2) = bind-eq-ok (pack_le 2 (length raw)) _ e1 in
      let less : length raw < 65535 = omega (arith, small, length-take size given) in
      (raw, (given, known, refl), binary_bytes-Reads given raw cell count less packed (cc))

  pub binary-Reads :
      (size : ℕ) (value : o.Object) (cell : Bytes)
      → size < 65535
      → encode_binary o size value ≡ ok cell
      → ReadsPresent o (binary size) value cell
  unfolding encode_binary
  binary-Reads size value cell small e =
      let (given, known, e1) = bind-eq-ok (o.bytes value) _ e in
      let raw = ljust size (take size given) in
      let (count, packed, e2) = bind-eq-ok (pack_le 2 (length raw)) _ e1 in
      let wide : length raw ≡ size =
        length-ljust size (take size given) (omega (arith, length-take size given)) in
      (
        raw,
        (given, known, refl),
        binary_bytes-Reads given raw cell count (omega (arith, small, wide)) packed (cc),
      )

  pub small_int-Reads :
      (value : o.Object) (cell : Bytes)
      → encode_present o small_int value ≡ ok cell
      → ReadsPresent o small_int value cell
  unfolding encode_present read_cell
  small_int-Reads value cell e =
      let (number, given, e1) =
        bind-eq-ok (if o.truth value then o.int value else ok (pos 0)) _ e in
      let (wide, back) = write_integer-eq-ok struct_error true 2 number e1 in
      (cell, rw back given, λ rest. content_read 2 cell rest (sym wide))

  pub bit-Reads :
      (value : o.Object) (cell : Bytes)
      → encode_present o bit value ≡ ok cell
      → ReadsPresent o bit value cell
  unfolding encode_present
  bit-Reads value cell e =
      let raw = (if o.truth value then 1 else 0) ∷ [] in
      let some_bytes : 0 < 1 = omega arith in
      (raw, refl, λ rest. byte_count-Reads 1 cell raw rest (cc) refl some_bytes)

  pub max-Reads :
      (collation : Bytes) (value : o.Object) (cell : Bytes)
      → 0 < length (encode_pass (o.str value))
      → length (encode_pass (o.str value)) < 2 ^ 32
      → encode_chunk (encode_pass (o.str value)) ≡ ok cell
      → ReadsPresent o (nvarchar none collation) value cell
  max-Reads collation value cell there small e =
      let raw = encode_pass (o.str value) in
      (raw, refl, λ rest. chunk_read raw cell rest there small e)
