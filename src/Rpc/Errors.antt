-- ===== src/Rpc/Errors.antt =====
-- What a call that is cut short or garbled raises, and that the loops over it end.
use py_sqlbridge.Prelude.{
  ℕ, zero, suc, ◌+◌, ◌*◌, ◌≤◌, ◌<◌, ◌≡◌, arith, Bool, true, false, inl, inr, some, none, Option, [],
  ◌∷◌, length, ltb, leb, ◌||◌, ◌==◌, Bool-cases, Option-cases, get_elem?, if◌then◌else◌,
}
use py_sqlbridge.Py.Result.{
  Exc, Result, ok, err, protocol_error, struct_error, index_error, decode_error, ◌>>=◌,
  Result-cases, raise_if,
}
use py_sqlbridge.Py.Bytes.{Bytes, slice, index, or_raise, unpack_le}
use py_sqlbridge.Py.Utf16.{decode_utf16}
use py_sqlbridge.Py.Utf16.RoundTrip.{decode_utf16_errors}
use py_sqlbridge.Versions.{all_headers_added_in}
use py_sqlbridge.Rpc.{
  null, fixed_width, is_decimal, is_char, is_long, is_byte_len, is_binary, plp_marker, plp_null,
  null_variable_length, null_long, decode_number, read_chunks, read_plp, decode_text, read_byte_len,
  read_run, read_variable, read_long, read_value, proc_id, call_start, read_procedure,
  read_parameter, read_parameters, parse_inner, catch_malformed, parse_rpc, proc_id_sentinel,
}

-- The exceptions that a reader of bytes raises.
data IsMalformed : Exc → Type 0 where
  is_protocol : IsMalformed protocol_error
  is_struct : IsMalformed struct_error
  is_index : IsMalformed index_error
  is_decode : IsMalformed decode_error

-- It returns something with the property, or raises one of those.
data Reads {A : Type 0} (P : A → Type 0) : Result A → Type 0 where
  returns : (a : A) → P a → Reads P (ok a)
  raises : (e : Exc) → IsMalformed e → Reads P (err e)

abbrev Any {ℓ} : {A : Type ℓ} → A → Type 0
Any a = Unit {0}

module _ {A B : Type 0} {Q : A → Type 0} {P : B → Type 0} where
  Reads-bind :
      (m : Result A) (f : A → Result B)
      → Reads Q m
      → ((a : A) → Q a → Reads P (f a))
      → Reads P (m >>= f)
  Reads-bind _ f (returns a h) k = k a h
  Reads-bind _ f (raises e h) k = raises e h

module _ {A : Type 0} {P : A → Type 0} where
  Reads-map : {Q : A → Type 0} {r : Result A} → Reads Q r → ((a : A) → Q a → P a) → Reads P r
  Reads-map (returns a h) k = returns a (k a h)
  Reads-map (raises e h) k = raises e h

  Reads-if : (b : Bool) (x y : Result A) → Reads P x → Reads P y → Reads P (if b then x else y)
  Reads-if true x y hx hy = hx
  Reads-if false x y hx hy = hy

  catch_malformed_lem :
      (r : Result A) (e : Exc) → Reads P r → catch_malformed r ≡ err e → e ≡ protocol_error
  catch_malformed_lem _ e (returns a h) k = cc
  catch_malformed_lem _ e (raises _ is_protocol) k = cc
  catch_malformed_lem _ e (raises _ is_struct) k = cc
  catch_malformed_lem _ e (raises _ is_index) k = cc
  catch_malformed_lem _ e (raises _ is_decode) k = cc

or_raise-Reads : {A : Type 0} (o : Option A) → Reads Any (or_raise protocol_error o)
or_raise-Reads none = raises protocol_error is_protocol
or_raise-Reads (some a) = returns a tt

unpack_le-Reads : (w : ℕ) (p : Bytes) (at : ℕ) → Reads (λ n. at + w ≤ length p) (unpack_le w p at)
unfolding unpack_le
unpack_le-Reads w p at = elim (Bool-cases (leb (at + w) (length p))) [
  | inl room ↦ rw room (returns _ (ground arith))
  | inr past ↦ rw past (raises struct_error is_struct)
]

index-Reads : (p : Bytes) (at : ℕ) → Reads Any (index p at)
unfolding index
index-Reads p at = elim (Option-cases (get_elem? p at)) [
  | inl e ↦ rw e (raises index_error is_index)
  | inr (b, e) ↦ rw e (returns b tt)
]

raise_if-Reads : (b : Bool) → Reads Any (raise_if b protocol_error)
raise_if-Reads true = raises protocol_error is_protocol
raise_if-Reads false = returns tt tt

decode_utf16-Reads : (bs : Bytes) → Reads Any (decode_utf16 bs)
decode_utf16-Reads bs = elim (Result-cases (decode_utf16 bs)) [
  | inl (s, e) ↦ rw e (returns s tt)
  | inr (x, e) ↦ rw (e, decode_utf16_errors bs x e) (raises decode_error is_decode)
]

decode_number-Reads : (bs : Bytes) (t : ℕ) → Reads Any (decode_number bs t)
unfolding decode_number
decode_number-Reads [] t = returns null tt
decode_number-Reads (b ∷ bs) t =
    Reads-if _ _ _ (Reads-if _ _ _ (returns _ tt) (raises struct_error is_struct)) (
      Reads-if _ _ _ (Reads-bind (index (b ∷ bs) 0) _ (index-Reads (b ∷ bs) 0) λ _ _. returns _ tt)
        (Reads-if _ _ _ (returns _ tt) (returns _ tt)))

decode_text-Reads : (bs : Bytes) (t : ℕ) → Reads Any (decode_text bs t)
decode_text-Reads bs t = Reads-if _ _ _ (returns _ tt) (
    Reads-if _ _ _ (Reads-bind (decode_utf16 bs) _ (decode_utf16-Reads bs) λ _ _. returns _ tt)
      (returns _ tt))

-- What is read from `at` on ends no earlier.
abbrev From {ℓ} : {A : Type ℓ} → ℕ → A × ℕ → Type 0
From at out = at ≤ out.1

module _ (p : Bytes) where
  -- A round needs four bytes, so rounds for the rest of the payload are enough.
  read_chunks-Reads :
      (fuel at : ℕ) (chunks : Bytes)
      → length p < at + fuel
      → 0 < fuel
      → Reads (From at) (read_chunks fuel p at chunks)
  unfolding read_chunks
  read_chunks-Reads zero at chunks enough some_left = absurd (omega arith)
  read_chunks-Reads (suc fuel) at chunks enough some_left =
      Reads-bind (unpack_le 4 p at) _ (unpack_le-Reads 4 p at) λ size room.
        Reads-if (size == 0) _ _ (returns _ (omega arith)) (
          Reads-map
            (read_chunks-Reads fuel (at + 4 + size) _ (omega (arith, enough, room))
              (omega (arith, enough, room)))
            (λ out later. omega (arith, later)))

  read_plp-Reads : (at : ℕ) → Reads (From at) (read_plp p at)
  unfolding read_plp
  read_plp-Reads at = Reads-bind (unpack_le 8 p at) _ (unpack_le-Reads 8 p at) λ total room.
      Reads-if (total == plp_null) _ _ (returns _ (omega arith)) (
        Reads-map (read_chunks-Reads (suc (length p)) (at + 8) [] (omega arith) (omega arith))
          (λ out later. omega (arith, later)))

  read_byte_len-Reads : (at t : ℕ) → Reads (From at) (read_byte_len p at t)
  unfolding read_byte_len
  read_byte_len-Reads at t =
      let start = if is_decimal t then at + 3 else at + 1 in
      let after : at ≤ start = ground arith in
      Reads-bind (index p start) _ (index-Reads p start) λ size _.
        Reads-if (size == 0) _ _ (returns _ (omega (arith, after))) (
          Reads-bind (decode_number (slice p (start + 1) (start + 1 + size)) t) _
            (decode_number-Reads (slice p (start + 1) (start + 1 + size)) t)
            λ _ _. returns _ (omega (arith, after)))

  read_run-Reads : (w nothing at t : ℕ) → Reads (From at) (read_run w nothing p at t)
  unfolding read_run
  read_run-Reads w nothing at t = Reads-bind (unpack_le w p at) _ (unpack_le-Reads w p at) λ size _.
      Reads-if (size == nothing) _ _ (returns _ (omega arith)) (
        Reads-bind (decode_text (slice p (at + w) (at + w + size)) t) _
          (decode_text-Reads (slice p (at + w) (at + w + size)) t) λ _ _. returns _ (omega arith))

  read_variable-Reads : (at t : ℕ) → Reads (From at) (read_variable p at t)
  unfolding read_variable
  read_variable-Reads at t =
      let start = if is_char t then at + 2 + 5 else at + 2 in
      let after : at ≤ start = ground arith in
      Reads-bind (unpack_le 2 p at) _ (unpack_le-Reads 2 p at) λ declared _.
        Reads-if (declared == plp_marker) _ _
          (Reads-bind (read_plp p start) _ (read_plp-Reads start) λ out later.
            Reads-bind (decode_text out.0 t) _ (decode_text-Reads out.0 t)
              λ _ _. returns _ (omega (arith, after, later)))
          (Reads-map (read_run-Reads 2 null_variable_length start t)
            (λ out later. omega (arith, after, later)))

  read_long-Reads : (at t : ℕ) → Reads (From at) (read_long p at t)
  unfolding read_long
  read_long-Reads at t =
      let start = if t == 0x22 then at + 4 else at + 4 + 5 in
      let after : at ≤ start = ground arith in
      Reads-map (read_run-Reads 4 null_long start t) (λ out later. omega (arith, after, later))

  read_value-Reads : (at t : ℕ) → Reads (From at) (read_value p at t)
  unfolding read_value
  read_value-Reads at t = elim (Option-cases (fixed_width t)) [
    | inr (w, e) ↦
        rw (e, read_value)
          (Reads-bind (decode_number (slice p at (at + w)) t) _
            (decode_number-Reads (slice p at (at + w)) t) λ _ _. returns _ (omega arith))
    | inl e ↦
        rw (e, read_value)
          (Reads-if (is_byte_len t || is_decimal t) _ _ (read_byte_len-Reads at t) (
            Reads-if (is_char t || is_binary t) _ _ (read_variable-Reads at t) (
              Reads-if (is_long t) _ _ (read_long-Reads at t) (raises protocol_error is_protocol))))
  ]

  read_parameter-Reads : (at : ℕ) → Reads (From (at + 1)) (read_parameter p at)
  unfolding read_parameter
  read_parameter-Reads at = Reads-bind (index p at) _ (index-Reads p at) λ chars _.
      let after = at + 1 + chars * 2 in
      Reads-bind (decode_utf16 (slice p (at + 1) after)) _
        (decode_utf16-Reads (slice p (at + 1) after))
        λ name _. Reads-bind (index p after) _ (index-Reads p after) λ status _.
          Reads-bind (index p (after + 1)) _ (index-Reads p (after + 1)) λ t _.
            Reads-bind (read_value p (after + 2) t) _ (read_value-Reads (after + 2) t)
              λ out later. returns _ (omega (arith, later))

  -- A parameter takes a byte at least, so rounds for the rest of the payload are enough.
  read_parameters-Reads :
      (fuel at : ℕ) → length p < at + fuel → 0 < fuel → Reads Any (read_parameters fuel p at)
  unfolding read_parameters
  read_parameters-Reads zero at enough some_left = absurd (omega arith)
  read_parameters-Reads (suc fuel) at enough some_left = elim (Bool-cases (ltb at (length p))) [
    | inr over ↦ rw over (returns [] tt)
    | inl before ↦
        let room : at < length p = ground arith in
        rw before (
          Reads-bind (read_parameter p at) _ (read_parameter-Reads at) λ out later.
            Reads-bind (read_parameters fuel p out.1) _
              (read_parameters-Reads fuel out.1 (omega (arith, later, enough))
                (omega (arith, enough, room)))
              λ _ _. returns _ tt)
  ]

  call_start-Reads : (v : ℕ) → Reads Any (call_start p v)
  unfolding call_start
  call_start-Reads v = Reads-if (ltb v all_headers_added_in) _ _ (returns 0 tt) (
      Reads-bind (raise_if (ltb (length p) 4) protocol_error) _ (raise_if-Reads (ltb (length p) 4))
        λ _ _. Reads-bind (unpack_le 4 p 0) _ (unpack_le-Reads 4 p 0) λ n _.
          Reads-bind (raise_if (ltb n 4 || ltb (length p) n) protocol_error) _
            (raise_if-Reads (ltb n 4 || ltb (length p) n)) λ _ _. returns n tt)

  read_procedure-Reads : (at : ℕ) → Reads Any (read_procedure p at)
  unfolding read_procedure
  read_procedure-Reads at = Reads-bind (unpack_le 2 p at) _ (unpack_le-Reads 2 p at) λ n _.
      Reads-if (n == proc_id_sentinel) _ _
        (Reads-bind (unpack_le 2 p (at + 2)) _ (unpack_le-Reads 2 p (at + 2)) λ raw _.
          Reads-bind (or_raise protocol_error (proc_id raw)) _ (or_raise-Reads (proc_id raw))
            λ _ _. returns _ tt)
        (Reads-bind (decode_utf16 (slice p (at + 2) (at + 2 + n * 2))) _
          (decode_utf16-Reads (slice p (at + 2) (at + 2 + n * 2))) λ _ _. returns _ tt)

  parse_inner-Reads : (v : ℕ) → Reads Any (parse_inner p v)
  unfolding parse_inner
  parse_inner-Reads v = Reads-bind (call_start p v) _ (call_start-Reads v) λ at _.
      Reads-bind (read_procedure p at) _ (read_procedure-Reads at) λ named _.
        Reads-bind (unpack_le 2 p named.2) _ (unpack_le-Reads 2 p named.2) λ flags _.
          Reads-bind (read_parameters (suc (length p)) p (named.2 + 2)) _
            (read_parameters-Reads (suc (length p)) (named.2 + 2) (omega arith) (omega arith))
            λ _ _. returns _ tt

-- On any payload and version, the only exception that `parse_rpc` raises is the protocol's: in
-- particular, its loops over parameters and chunks do not run out of rounds.
pub parse_rpc_errors :
    (payload : Bytes) (tds_version : ℕ) (e : Exc)
    → parse_rpc payload tds_version ≡ err e
    → e ≡ protocol_error
unfolding parse_rpc
parse_rpc_errors p v e h = catch_malformed_lem (parse_inner p v) e (parse_inner-Reads p v) h
