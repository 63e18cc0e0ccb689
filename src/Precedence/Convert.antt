-- ===== src/Precedence/Convert.antt =====
-- Values brought to the type that their column settled on, and what refuses them.
use py_sqlbridge.Prelude.{
  ℕ, ◌+◌, ◌-◌, ◌^◌, ◌<◌, ◌≡◌, ◌↔◌, refl, arith, Bool, true, false, not, ◌&&◌, ◌||◌, inl, inr,
  Option, none, some, ◌∷◌, leb, ltb, ◌==◌, Bool-cases, if◌then◌else◌,
}
use py_sqlbridge.Py.Result.{ok}
use py_sqlbridge.Py.Bytes.{Bytes}
use py_sqlbridge.Py.Int.{ℤ, pos, negsuc, le_integer, fits_bytes}
use py_sqlbridge.Py.Utf16.{Str}
use py_sqlbridge.Py.Text.{text}
use py_sqlbridge.ResultSet.Types.{
  Objects, ColumnType, integer, untyped_null, float, nvarchar, bit, unique_identifier, date_time,
  small_int, encode_integer,
}
use py_sqlbridge.Precedence.{integer_width}

abbrev pub conversion_failed : ℕ
conversion_failed = 245

abbrev pub conversion_error : ℕ
conversion_error = 8114

abbrev pub datetime_conversion_failed : ℕ
datetime_conversion_failed = 241

abbrev pub guid_conversion_failed : ℕ
guid_conversion_failed = 8169

-- `INTEGER_RANGES` by the width of the type: how far below nought it goes, and how far above.
abbrev pub integer_range : ℕ → ℕ × ℕ
integer_range width =
    if width == 1
    then (0, 255)
    else if width == 2
    then (2 ^ 15, 2 ^ 15 - 1)
    else if width == 4
    then (2 ^ 31, 2 ^ 31 - 1)
    else (2 ^ 63, 2 ^ 63 - 1)

-- `fits`
abbrev pub fits : ℤ → ℕ → Bool
fits (pos n) width = leb n (integer_range width).1
fits (negsuc n) width = leb (n + 1) (integer_range width).0

-- The numbers of `_OVERFLOW`.
abbrev pub overflow_number : ℕ → ℕ
overflow_number width = if width == 1 || width == 2 then 244 else if width == 4 then 248 else 8115

-- `_CAST_NAME`, and INT for every integer.
abbrev pub cast_name : ColumnType → Option Str
cast_name (integer w) = some (text "INT")
cast_name (untyped_null w) = some (text "INT")
cast_name (nvarchar max_chars collation) = some (text "NVARCHAR")
cast_name bit = some (text "BIT")
cast_name (float w) = some (text "FLOAT")
cast_name date_time = some (text "DATETIME")
cast_name small_int = some (text "SMALLINT")
cast_name _ = none

-- The number of the error that `_refuse` raises.
abbrev pub refusal : ColumnType → ℕ
refusal date_time = datetime_conversion_failed
refusal (float w) = conversion_error
refusal (integer w) = if w == 8 then conversion_error else conversion_failed
refusal (untyped_null w) = if w == 8 then conversion_error else conversion_failed
refusal _ = conversion_failed

-- A value, or the number of a `QueryError`.
pub data Conversion (O : Type 0) : Type 0 where
  became : O → Conversion O
  refused : ℕ → Conversion O

-- What the conversions rest on: the cast of predicate.py (none where it raises), `uuid.UUID` with
-- the text that it is written as, and the whole number that a converted value is.
pub record Casts (o : Objects) : Type 0 where
  pub converted : o.Object → Str → Option o.Object
  pub guid_text : Str → Option o.Object
  pub whole : o.Object → ℤ

module _ (o : Objects) (casts : Casts o) where
  abbrev as_guid : Option o.Object → Conversion o.Object
  as_guid (some text) = became text
  as_guid none = refused guid_conversion_failed

  abbrev in_range : ℕ → o.Object → Conversion o.Object
  in_range width result =
      if not (width == 0) && not (fits (casts.whole result) width)
      then refused (overflow_number width)
      else became result

  abbrev cast_to : ColumnType → Option o.Object → Conversion o.Object
  cast_to to none = refused (refusal to)
  cast_to to (some result) = in_range (integer_width to) result

  abbrev named_cast : ColumnType → o.Object → Option Str → Conversion o.Object
  named_cast to value none = refused (refusal to)
  named_cast to value (some name) = cast_to to (casts.converted value name)

  abbrev convert_present : ColumnType → o.Object → Conversion o.Object
  convert_present unique_identifier value = as_guid (casts.guid_text (o.str value))
  convert_present to value = named_cast to value (cast_name to)

  unfoldable pub convert : o.Object → ColumnType → Conversion o.Object
  unfolding integer_width
  convert value to = if o.is_none value then became value else convert_present to value

  in_range-fits :
      (width : ℕ) (result r : o.Object)
      → 0 < width
      → in_range width result ≡ became r
      → fits (casts.whole r) width ≡ true
  in_range-fits width result r there h = elim (Bool-cases (fits (casts.whole result) width)) [
    | inl good ↦
        let positive : (width == 0) ≡ false = ground arith in
        let same : result ≡ r =
          (let e : became result ≡ became r = rw (good, positive) at h in cc) in
        rw (← same) good
    | inr bad ↦ let positive : (width == 0) ≡ false = ground arith in cc (rw (bad, positive) at h)
  ]

  cast_to-fits :
      (width : ℕ) (made : Option o.Object) (r : o.Object)
      → 0 < width
      → cast_to (integer width) made ≡ became r
      → fits (casts.whole r) width ≡ true
  unfolding integer_width
  cast_to-fits width none r there h = cc
  cast_to-fits width (some result) r there h = in_range-fits width result r there h

-- The widths that an Integer can have.
abbrev pub IsWidth : ℕ → Type 0
IsWidth width = (width == 1 || (width == 2 || (width == 4 || width == 8))) ≡ true

-- What holds of the four widths.
width-cases : (P : ℕ → Type 0) (width : ℕ) → IsWidth width → P 1 → P 2 → P 4 → P 8 → P width
width-cases P width w p1 p2 p4 p8 = elim (Bool-cases (width == 1)) [
  | inl one ↦ (let e : width ≡ 1 = ground arith in rw e p1)
  | inr a ↦ elim (Bool-cases (width == 2)) [
    | inl two ↦ (let e : width ≡ 2 = ground arith in rw e p2)
    | inr b ↦ elim (Bool-cases (width == 4)) [
      | inl four ↦ (let e : width ≡ 4 = ground arith in rw e p4)
      | inr c ↦ (let e : width ≡ 8 = ground arith in rw e p8)
    ]
  ]
]

fits-fits_bytes :
    (z : ℤ) (width : ℕ)
    → IsWidth width
    → fits z width ≡ true
    → fits_bytes (ltb 1 width) width z ≡ true
fits-fits_bytes (pos n) width w =
    width-cases (λ v. fits (pos n) v ≡ true → fits_bytes (ltb 1 v) v (pos n) ≡ true) width w
      (λ h. ground arith) (λ h. ground arith) (λ h. ground arith) (λ h. ground arith)
fits-fits_bytes (negsuc n) width w =
    width-cases (λ v. fits (negsuc n) v ≡ true → fits_bytes (ltb 1 v) v (negsuc n) ≡ true) width w
      (λ h. ground arith) (λ h. ground arith) (λ h. ground arith) (λ h. ground arith)

fits_bytes-fits :
    (z : ℤ) (width : ℕ)
    → IsWidth width
    → fits_bytes (ltb 1 width) width z ≡ true
    → fits z width ≡ true
fits_bytes-fits (pos n) width w =
    width-cases (λ v. fits_bytes (ltb 1 v) v (pos n) ≡ true → fits (pos n) v ≡ true) width w
      (λ h. ground arith) (λ h. ground arith) (λ h. ground arith) (λ h. ground arith)
fits_bytes-fits (negsuc n) width w =
    width-cases (λ v. fits_bytes (ltb 1 v) v (negsuc n) ≡ true → fits (negsuc n) v ≡ true) width w
      (λ h. ground arith) (λ h. ground arith) (λ h. ground arith) (λ h. ground arith)

-- Where the cast of a value succeeds, the conversion for an integer column takes what it made
-- exactly if the column's encoder does: the range that is checked is that of the bytes that the
-- value is written in, for each of the four widths.
pub convert-encode_integer :
    (o : Objects) (casts : Casts o) (value r : o.Object) (width : ℕ)
    → IsWidth width
    → o.is_none value ≡ false
    → casts.converted value (text "INT") ≡ some r
    → o.int r ≡ ok (casts.whole r)
    → (convert o casts value (integer width) ≡ became r)
      ↔ ((cell : Bytes) × (encode_integer o width r ≡ ok cell))
unfolding convert integer_width encode_integer
convert-encode_integer o casts value r width w there cast int =
    let positive : (width == 0) ≡ false = ground arith in
    let z = casts.whole r in
    (
      λ h.
          let good = cast_to-fits o casts width (some r) r (ground arith) (rw (there, cast) at h) in
          (width ∷ le_integer width z, rw (int, fits-fits_bytes z width w good) refl),
      λ (cell, h). elim (Bool-cases (fits_bytes (ltb 1 width) width z)) [
        | inl good ↦ rw (there, cast, positive, fits_bytes-fits z width w good) refl
        | inr bad ↦ cc (rw (int, bad) at h)
      ],
    )
