-- ===== src/Prelogin/RoundTrip.antt =====
-- `build`, and then `parse`.
use py_sqlbridge.Prelude.{
  ℕ, zero, suc, ◌+◌, ◌%◌, ◌≤◌, ◌<◌, ◌≡◌, refl, ap, ◌∙◌, arith, [], ◌∷◌, ◌++◌, length, length-append,
  length-drop, drop, append_assoc, le→ltb, lt→leb, ==_ne, drop-length,
}
use py_sqlbridge.Py.Result.{ok}
use py_sqlbridge.Py.Bytes.{Bytes, be_bytes, index}
use py_sqlbridge.Py.Bytes.Cursor.{advance, slice_here, index_here, unpack_be_here, past_be}
use py_sqlbridge.Prelogin.{
  PreloginOption, token_byte, Options, parse_from, parse, build, terminator,
}
use py_sqlbridge.Prelogin.Layout.{
  token_byte-lt, prelogin_option-token_byte, entry_bytes, length-entry_bytes, table_bytes,
  blob_bytes, length-table_bytes, Addressed, table_size, payload_bytes, build-Addressed, build_lem,
}

module _ (t : PreloginOption) (offset size : ℕ) (p rest : Bytes) (cursor : ℕ)
    (here : drop cursor p ≡ entry_bytes t offset size ++ rest) where
  at_token :
      drop cursor p ≡ be_bytes 1 (token_byte t) ++ (be_bytes 2 offset ++ (be_bytes 2 size ++ rest))
  unfolding entry_bytes
  at_token = here ∙ simp append_assoc

  at_offset : drop (cursor + 1) p ≡ be_bytes 2 offset ++ (be_bytes 2 size ++ rest)
  at_offset = past_be 1 p cursor _ (cursor + 1) _ at_token refl

  at_size : drop (cursor + 3) p ≡ be_bytes 2 size ++ rest
  at_size = past_be 2 p (cursor + 1) _ (cursor + 3) _ at_offset (omega arith)

  at_next : drop (cursor + 5) p ≡ rest
  at_next = past_be 2 p (cursor + 3) _ (cursor + 5) _ at_size (omega arith)

  entry_within : cursor + 5 ≤ length p
  entry_within = omega (
    arith,
    ap length here,
    length-append (entry_bytes t offset size) rest,
    length-entry_bytes t offset size,
    length-drop cursor p,
  )

  at_mark : index p cursor ≡ ok (token_byte t)
  unfolding be_bytes
  at_mark =
      let e : token_byte t % 256 ≡ token_byte t = omega (arith, token_byte-lt t) in
      rw (
        index_here p cursor (token_byte t % 256) (be_bytes 2 offset ++ (be_bytes 2 size ++ rest))
            at_token,
        e,
      )

parse_from_lem :
    (options : Options) (fuel at cursor : ℕ) (p rest : Bytes)
    → Addressed options at
    → drop cursor p ≡ table_bytes options at ++ (terminator ∷ rest)
    → drop at p ≡ blob_bytes options
    → at ≤ length p
    → length options < fuel
    → parse_from fuel p cursor ≡ ok options
unfolding parse_from table_bytes blob_bytes
parse_from_lem options zero at cursor p rest fit here there inside enough = absurd (omega arith)
parse_from_lem [] (suc fuel) at cursor p rest fit here there inside enough =
    let some_left : cursor < length p = omega (arith, ap length here, length-drop cursor p) in
    rw (lt→leb (length p) cursor some_left, index_here p cursor terminator rest here)
parse_from_lem ((t, bytes) ∷ options) (suc fuel) at cursor p rest fit here there inside enough =
    let size = length bytes in
    let more = table_bytes options (at + size) ++ (terminator ∷ rest) in
    let front : drop cursor p ≡ entry_bytes t at size ++ more = here ∙ rw append_assoc in
    let within = entry_within t at size p more cursor front in
    let whole : at + size ≤ length p =
      omega (arith, ap length there, length-append bytes (blob_bytes options), length-drop at p) in
    rw (
      lt→leb (length p) cursor (omega arith),
      at_mark t at size p more cursor front,
      ==_ne (token_byte t) 255 (λ e. omega (arith, token_byte-lt t)),
      le→ltb (length p) (cursor + 5) within,
      unpack_be_here 1 p cursor (token_byte t) _ (at_token t at size p more cursor front)
          (omega (arith, token_byte-lt t)) (omega arith),
      unpack_be_here 2 p (cursor + 1) at _ (at_offset t at size p more cursor front) fit.0
          (omega arith),
      unpack_be_here 2 p (cursor + 3) size _ (at_size t at size p more cursor front) fit.1
          (omega arith),
      le→ltb (length p) (at + size) whole,
      prelogin_option-token_byte t,
      parse_from_lem options fuel (at + size) (cursor + 5) p rest fit.2
          (at_next t at size p more cursor front)
          (advance p at bytes (blob_bytes options) there (at + size) refl) whole (omega arith),
      slice_here p at bytes (blob_bytes options) there (at + size) refl,
    )

-- Every list of options whose serialisation succeeds is read back from its bytes, in order, the
-- options of no bytes and the repeated ones included.
pub parse-build :
    (options : Options) (bytes : Bytes) → build options ≡ ok bytes → parse bytes ≡ ok options
unfolding parse
parse-build options bytes built =
    let fit = build-Addressed options built in
    let same : payload_bytes options ≡ bytes = cc (build_lem options fit) in
    let table = table_bytes options (table_size options) in
    let size = length-table_bytes options (table_size options) in
    let total =
      length-append (table_bytes options (table_size options)) (terminator ∷ blob_bytes options) in
    rw (← same) (
      parse_from_lem options (suc (length (payload_bytes options))) (table_size options) 0
        (payload_bytes options) (blob_bytes options) fit refl
        (advance (payload_bytes options) (length table) (terminator ∷ []) (blob_bytes options)
          (drop-length table (terminator ∷ blob_bytes options) (length table) refl)
          (table_size options) (omega (arith, size)))
        (omega arith) (omega arith))
