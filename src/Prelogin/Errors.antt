-- ===== src/Prelogin/Errors.antt =====
-- What `parse` does with any payload.
use py_sqlbridge.Prelude.{
  ℕ, zero, suc, ◌+◌, ◌-◌, ◌==◌, refl, true, false, Bool, [], ◌∷◌, drop, length-take, length-drop,
  ◌≤◌, ◌<◌, ◌≡◌, arith, inl, inr, length, ltb, leb, Bool-cases,
}
use py_sqlbridge.Py.Result.{Exc, ok, err, protocol_error, raise_if, bind-eq-ok}
use py_sqlbridge.Py.Bytes.{Bytes, slice, or_raise, index, unpack_be}
use py_sqlbridge.Py.Bytes.Total.{index_within, unpack_be_room}
use py_sqlbridge.Prelogin.{Options, PreloginOption, prelogin_option, terminator, parse_from, parse}

parse_from_errors :
    (fuel : ℕ) (p : Bytes) (cursor : ℕ) (e : Exc)
    → length p < cursor + fuel
    → cursor ≤ length p
    → parse_from fuel p cursor ≡ err e
    → e ≡ protocol_error
unfolding parse_from
parse_from_errors zero p cursor e enough inside h = absurd (omega arith)
parse_from_errors (suc fuel) p cursor e enough inside h =
    elim (Bool-cases (leb (length p) cursor)) [
      | inl over ↦ cc (rw over at h)
      | inr before ↦
          let (b, read) = index_within p cursor (ground arith) in
          elim (Bool-cases (ltb (length p) (cursor + 5))) [
            | inl cut ↦ ground (arith, rw (before, read, cut) at h)
            | inr room ↦ ground (
              arith,
              rw (before, read, room) at h,
              unpack_be_room 1 p cursor,
              unpack_be_room 2 p (cursor + 1),
              unpack_be_room 2 p (cursor + 3),
              parse_from_errors fuel p (cursor + 5) e,
            )
          ]
    ]

-- Each value is the run of bytes whose offset and size its entry of the table, from `cursor` on,
-- declares, and the payload holds all of it.
abbrev pub Declared : Bytes → ℕ → Options → Type 0
Declared p cursor [] = Unit {0}
Declared p cursor ((token, bytes) ∷ options) =
    (offset : ℕ) × (unpack_be 2 p (cursor + 1) ≡ ok offset)
    × (unpack_be 2 p (cursor + 3) ≡ ok (length bytes))
    × (offset + length bytes ≤ length p)
    × (bytes ≡ slice p offset (offset + length bytes))
    × Declared p (cursor + 5) options

raise_if-passed : (b : Bool) {u : Unit {0}} → raise_if b protocol_error ≡ ok u → b ≡ false
raise_if-passed true h = cc
raise_if-passed false h = refl

ok-eq : (a b : Options) → ok a ≡ ok b → a ≡ b
ok-eq a b h = cc

length-slice :
    (p : Bytes) (offset size : ℕ)
    → offset + size ≤ length p
    → length (slice p offset (offset + size)) ≡ size
length-slice p offset size h =
    omega (arith, length-take (offset + size - offset) (drop offset p), length-drop offset p)

module _ (p : Bytes) (cursor : ℕ) where
  entry-Declared :
      (token : PreloginOption) (offset size : ℕ) (options : Options)
      → unpack_be 2 p (cursor + 1) ≡ ok offset
      → unpack_be 2 p (cursor + 3) ≡ ok size
      → ltb (length p) (offset + size) ≡ false
      → Declared p (cursor + 5) options
      → Declared p cursor ((token, slice p offset (offset + size)) ∷ options)
  entry-Declared token offset size options e1 e2 room later =
      let inside : offset + size ≤ length p = ground arith in
      let wide = length-slice p offset size inside in
      (offset, e1, rw wide e2, rw wide inside, rw wide refl, later)

parse_from-Declared :
    (fuel : ℕ) (p : Bytes) (cursor : ℕ) (options : Options)
    → parse_from fuel p cursor ≡ ok options
    → Declared p cursor options
unfolding parse_from
parse_from-Declared zero p cursor options h = cc
parse_from-Declared (suc fuel) p cursor options h =
    let (_, before, h1) = bind-eq-ok (raise_if (leb (length p) cursor) protocol_error) _ h in
    let (mark, read, h2) = bind-eq-ok (index p cursor) _ h1 in
    elim (Bool-cases (mark == terminator)) [
      | inl end ↦
          let done : ok [] ≡ ok options = rw end at h2 in
          let same : [] ≡ options = cc in rw (← same) tt
      | inr more ↦
          let (_, in_table, h3) =
            bind-eq-ok (raise_if (ltb (length p) (cursor + 5)) protocol_error) _ (rw more at h2) in
          let (raw_token, e0, h4) = bind-eq-ok (unpack_be 1 p cursor) _ h3 in
          let (offset, e1, h5) = bind-eq-ok (unpack_be 2 p (cursor + 1)) _ h4 in
          let (size, e2, h6) = bind-eq-ok (unpack_be 2 p (cursor + 3)) _ h5 in
          let (_, fits, h7) =
            bind-eq-ok (raise_if (ltb (length p) (offset + size)) protocol_error) _ h6 in
          let (token, e3, h8) =
            bind-eq-ok (or_raise protocol_error (prelogin_option raw_token)) _ h7 in
          let (later, e4, h9) = bind-eq-ok (parse_from fuel p (cursor + 5)) _ h8 in
          let same = ok-eq ((token, slice p offset (offset + size)) ∷ later) options h9 in
          rw (← same) (
            entry-Declared p cursor token offset size later e1 e2
              (raise_if-passed (ltb (length p) (offset + size)) fits)
              (parse_from-Declared fuel p (cursor + 5) later e4))
    ]

-- On any payload the only exception that `Prelogin.parse` raises is the protocol's, and where it
-- returns, each option's value has the size that its entry of the table declares, and is what the
-- payload holds at the offset that the entry declares.
pub parse_errors :
    (payload : Bytes)
    → ((e : Exc) → parse payload ≡ err e → e ≡ protocol_error)
      × ((options : Options) → parse payload ≡ ok options → Declared payload 0 options)
unfolding parse
parse_errors payload = (
  λ e. parse_from_errors (suc (length payload)) payload 0 e (omega arith) (omega arith),
  λ options. parse_from-Declared (suc (length payload)) payload 0 options,
)
