-- ===== src/Precedence/Tests.antt =====
-- Unions whose branches differ.
use mathlib.Core.List.{Memᴰ}
use mathlib.Core.List.Memᴰ
use py_sqlbridge.Prelude.{
  ◌≡◌, ◌≢◌, ◌↔◌, refl, true, false, inl, inr, Option, none, some, List, [], ◌∷◌,
}
use py_sqlbridge.Py.Bytes.{Bytes}
use py_sqlbridge.Py.Result.{ok, err, value_error}
use py_sqlbridge.Py.Int.{ℤ, negsuc}
use py_sqlbridge.Py.Text.{text}
use py_sqlbridge.ResultSet.Types.{
  ColumnType, integer, untyped_null, float, nvarchar, unique_identifier, small_int, Objects,
  neither, encode_integer, encode,
}
use py_sqlbridge.Precedence.Convert.{Casts, became, convert, convert-encode_integer}
use py_sqlbridge.Precedence.{
  rank, width, refuses, same_bytes, same_kind, known, all_same, clash_with, first_clash, greatest,
  settled, resolve,
}
use py_sqlbridge.Precedence.Outcome.{Outcome, resolve-Outcome}
use py_sqlbridge.Precedence.Laws.{
  HasClash, IsRefused, SameBranches, resolve_refuses, resolve_order, resolve_null-small_int,
}
use py_sqlbridge.Py.Utf16.{Str}

abbrev mixed : List ColumnType
mixed = untyped_null 4 ∷ integer 4 ∷ float 8 ∷ nvarchar (some 20) [] ∷ []

abbrev turned : List ColumnType
turned = nvarchar (some 20) [] ∷ float 8 ∷ untyped_null 4 ∷ integer 4 ∷ []

abbrev clashing_kinds : List ColumnType
clashing_kinds = integer 4 ∷ unique_identifier ∷ []

resolve-Outcome_example : Outcome (known mixed) (resolve mixed)
resolve-Outcome_example = resolve-Outcome mixed

resolve_refuses_example : HasClash clashing_kinds ↔ IsRefused (resolve clashing_kinds)
resolve_refuses_example = resolve_refuses clashing_kinds

mixed-SameBranches : SameBranches mixed turned
mixed-SameBranches k = (
  λ m. elim (Memᴰ.cases_cons m) [
    | inl a ↦ Memᴰ.tail (Memᴰ.tail (Memᴰ.head a))
    | inr m ↦ elim (Memᴰ.cases_cons m) [
      | inl b ↦ Memᴰ.tail (Memᴰ.tail (Memᴰ.tail (Memᴰ.head b)))
      | inr m ↦ elim (Memᴰ.cases_cons m) [
        | inl c ↦ Memᴰ.tail (Memᴰ.head c)
        | inr m ↦ elim (Memᴰ.cases_cons m) [ inl d ↦ Memᴰ.head d | inr m ↦ elim m [ ] ]
      ]
    ]
  ],
  λ m. elim (Memᴰ.cases_cons m) [
    | inl d ↦ Memᴰ.tail (Memᴰ.tail (Memᴰ.tail (Memᴰ.head d)))
    | inr m ↦ elim (Memᴰ.cases_cons m) [
      | inl c ↦ Memᴰ.tail (Memᴰ.tail (Memᴰ.head c))
      | inr m ↦ elim (Memᴰ.cases_cons m) [
        | inl a ↦ Memᴰ.head a
        | inr m ↦ elim (Memᴰ.cases_cons m) [ inl b ↦ Memᴰ.tail (Memᴰ.head b) | inr m ↦ elim m [ ] ]
      ]
    ]
  ],
)

mixed_settles : resolve mixed ≡ settled (float 8)
unfolding resolve known all_same same_kind first_clash clash_with refuses greatest rank width
mixed_settles = refl

turned_settles : resolve turned ≡ settled (float 8)
unfolding resolve known all_same same_kind first_clash clash_with refuses greatest rank width
    same_bytes
turned_settles = refl

resolve_order_example :
    (rank (float 8) ≡ rank (float 8)) × (rank (float 8) ≢ 60 → width (float 8) ≡ width (float 8))
resolve_order_example =
    resolve_order mixed turned (float 8) (float 8) mixed-SameBranches mixed_settles turned_settles

abbrev ten : List (Option Str)
ten = none ∷ some (text "ten") ∷ []

-- Objects that are whole numbers, none of them None.
abbrev numbers : Objects
numbers = record {
  Object = ℤ;
  Real = Unit {0};
  is_none = λ z. false;
  int = λ z. ok z;
  str = λ z. [];
  truth = λ z. true;
  bytes = λ z. ok [];
  as_bytes = λ z. none;
  float = λ z. ok tt;
  pack_double = λ r. ok [];
  pack_single = λ r. ok [];
  guid = λ s. ok [];
  dated = λ z. neither;
  fromisoformat = λ s. err value_error;
  round_ticks = λ seconds micro. 0;
}

abbrev number_casts : Casts numbers
number_casts = record { converted = λ z name. some z; guid_text = λ s. none; whole = λ z. z }

convert-encode_integer_example :
    (convert numbers number_casts (negsuc 6) (integer 2) ≡ became (negsuc 6))
    ↔ ((cell : Bytes) × (encode_integer numbers 2 (negsuc 6) ≡ ok cell))
convert-encode_integer_example =
    convert-encode_integer numbers number_casts (negsuc 6) (negsuc 6) 2 refl refl refl refl

-- The only object is None.
abbrev nones : Objects
nones = record {
  Object = Unit {0};
  Real = Unit {0};
  is_none = λ z. true;
  int = λ z. err value_error;
  str = λ z. text "None";
  truth = λ z. false;
  bytes = λ z. err value_error;
  as_bytes = λ z. none;
  float = λ z. err value_error;
  pack_double = λ r. ok [];
  pack_single = λ r. ok [];
  guid = λ s. err value_error;
  dated = λ z. neither;
  fromisoformat = λ s. err value_error;
  round_ticks = λ seconds micro. 0;
}

abbrev nulls_and_ints : List ColumnType
nulls_and_ints = small_int ∷ untyped_null 4 ∷ small_int ∷ []

resolve_null-small_int_example :
    (resolve nulls_and_ints ≡ settled small_int) × (encode nones small_int tt ≡ ok (0 ∷ 0 ∷ []))
resolve_null-small_int_example =
    resolve_null-small_int nones tt nulls_and_ints 4 (inr refl, (inl (4, refl), (inr refl, tt)))
      (Memᴰ.tail (Memᴰ.head refl)) (Memᴰ.head refl) refl refl
