-- ===== src/Precedence.antt =====
-- src/pysqlbridge/precedence.py: which type a column gets when the branches of a union disagree.
pub mod Kinds
pub mod Order
pub mod Outcome
pub mod Laws
pub mod Sizes
pub mod Convert
mod Tests
use py_sqlbridge.Prelude.{
  ℕ, ◌+◌, Bool, true, false, not, ◌&&◌, ◌||◌, Option, none, some, List, [], ◌∷◌, ltb, ◌==◌, length,
  if◌then◌else◌,
}
use py_sqlbridge.Py.Bytes.{Bytes}
use py_sqlbridge.Py.Utf16.{Str}
use py_sqlbridge.Py.Text.{text}
use py_sqlbridge.ResultSet.Types.{
  ColumnType, integer, untyped_null, float, nvarchar, bit, unique_identifier, date_time, var_binary,
  small_int, binary,
}

abbrev max_nvarchar_chars : ℕ
max_nvarchar_chars = 4000

-- `_INTEGER_RANK`, for the widths that an Integer can have: 1, 2, 4 and 8.
abbrev integer_rank : ℕ → ℕ
integer_rank width =
    if width == 1 then 50 else if width == 2 then 60 else if width == 4 then 70 else 80

-- `_rank`
unfoldable pub rank : ColumnType → ℕ
rank (integer width) = integer_rank width
rank (untyped_null width) = integer_rank width
rank (var_binary size) = 10
rank (binary size) = 10
rank (nvarchar max_chars collation) = 20
rank unique_identifier = 30
rank bit = 40
rank small_int = 60
rank (float width) = 90
rank date_time = 100

-- `_width`
unfoldable pub width : ColumnType → ℕ
width (nvarchar none collation) = max_nvarchar_chars + 1
width (nvarchar (some max_chars) collation) = max_chars
width (var_binary size) = size
width (binary size) = size
width (integer w) = w
width (untyped_null w) = w
width (float w) = w
width _ = 0

-- `_integer_width`
unfoldable pub integer_width : ColumnType → ℕ
integer_width (integer w) = w
integer_width (untyped_null w) = w
integer_width small_int = 2
integer_width _ = 0

abbrev integer_name : ℕ → Str
integer_name w =
    if w == 1
    then text "tinyint"
    else if w == 2
    then text "smallint"
    else if w == 4
    then text "int"
    else text "bigint"

-- `named`
pub named : ColumnType → Str
named (integer w) = integer_name w
named (untyped_null w) = integer_name w
named (var_binary size) = text "varbinary"
named (binary size) = text "binary"
named (nvarchar max_chars collation) = text "nvarchar"
named unique_identifier = text "uniqueidentifier"
named bit = text "bit"
named small_int = text "smallint"
named (float w) = text "float"
named date_time = text "datetime"

-- `_INCOMPATIBLE`, one way round.
unfoldable pub refuses : ColumnType → ColumnType → Bool
refuses unique_identifier date_time = true
refuses unique_identifier (float w) = true
refuses unique_identifier (integer w) = true
refuses unique_identifier small_int = true
refuses unique_identifier bit = true
refuses (var_binary size) (float w) = true
refuses (binary size) (float w) = true
refuses _ _ = false

abbrev pub incompatible : ColumnType → ColumnType → Bool
incompatible one other = refuses one other || refuses other one

-- `==` of two column types: of one class, with the same fields.
unfoldable pub same_bytes : Bytes → Bytes → Bool
same_bytes [] [] = true
same_bytes (a ∷ xs) (b ∷ ys) = a == b && same_bytes xs ys
same_bytes _ _ = false

abbrev pub same_size : Option ℕ → Option ℕ → Bool
same_size none none = true
same_size (some a) (some b) = a == b
same_size _ _ = false

unfoldable pub same_kind : ColumnType → ColumnType → Bool
same_kind (integer a) (integer b) = a == b
same_kind (untyped_null a) (untyped_null b) = a == b
same_kind (float a) (float b) = a == b
same_kind (nvarchar a c) (nvarchar b d) = same_size a b && same_bytes c d
same_kind bit bit = true
same_kind unique_identifier unique_identifier = true
same_kind date_time date_time = true
same_kind (var_binary a) (var_binary b) = a == b
same_kind small_int small_int = true
same_kind (binary a) (binary b) = a == b
same_kind _ _ = false

abbrev pub is_untyped : ColumnType → Bool
is_untyped (untyped_null w) = true
is_untyped _ = false

-- The branches that say something about the type.
unfoldable pub known : List ColumnType → List ColumnType
known [] = []
known (k ∷ kinds) = let rest = known kinds in if is_untyped k then rest else k ∷ rest

unfoldable pub all_same : ColumnType → List ColumnType → Bool
all_same first [] = true
all_same first (k ∷ kinds) = same_kind k first && all_same first kinds

-- The first pair that is refused, in the order of the two loops.
unfoldable pub clash_with : ColumnType → List ColumnType → Option (ColumnType × ColumnType)
clash_with one [] = none
clash_with one (other ∷ kinds) =
    let rest = clash_with one kinds in if incompatible one other then some (one, other) else rest

abbrev pub or_else :
    Option (ColumnType × ColumnType)
    → Option (ColumnType × ColumnType)
    → Option (ColumnType × ColumnType)
or_else (some pair) later = some pair
or_else none later = later

unfoldable pub first_clash : List ColumnType → List ColumnType → Option (ColumnType × ColumnType)
first_clash [] kinds = none
first_clash (one ∷ ones) kinds = or_else (clash_with one kinds) (first_clash ones kinds)

-- `max` by (rank, width): the first of the greatest.
abbrev pub exceeds : ColumnType → ColumnType → Bool
exceeds k best = ltb (rank best) (rank k) || (rank best == rank k && ltb (width best) (width k))

unfoldable pub greatest : ColumnType → List ColumnType → ColumnType
greatest best [] = best
greatest best (k ∷ kinds) = greatest (if exceeds k best then k else best) kinds

-- The nullable encoding of the winner.
abbrev pub encodable : ColumnType → ColumnType
encodable small_int = integer 2
encodable k = k

-- None, a type, or the `QueryError` of two types that clash, the lower first.
pub data Resolution : Type 0 where
  agreed : Resolution
  settled : ColumnType → Resolution
  clash : ColumnType → ColumnType → Resolution

abbrev pub sorted_clash : ColumnType → ColumnType → Resolution
sorted_clash one other = if ltb (rank other) (rank one) then clash other one else clash one other

abbrev pub settle : Option (ColumnType × ColumnType) → ColumnType → Resolution
settle none winner = settled (encodable winner)
settle (some (one, other)) winner = sorted_clash one other

abbrev pub decide : ColumnType → List ColumnType → Resolution
decide first kinds =
    if all_same first (first ∷ kinds)
    then agreed
    else settle (first_clash (first ∷ kinds) (first ∷ kinds)) (greatest first kinds)

-- What the known branches come to, beside branches that say nothing or without any.
abbrev pub resolve_known : Bool → List ColumnType → Resolution
resolve_known beside_nulls [] = agreed
resolve_known beside_nulls (first ∷ kinds) =
    if beside_nulls && all_same first (first ∷ kinds) then settled first else decide first kinds

unfoldable pub resolve : List ColumnType → Resolution
resolve kinds = resolve_known (ltb (length (known kinds)) (length kinds)) (known kinds)

-- `sized`, of values that are text or None.
abbrev pub longest : List (Option Str) → ℕ → ℕ
longest [] most = most
longest (none ∷ values) most = longest values most
longest (some s ∷ values) most = longest values (if ltb most (length s) then length s else most)

abbrev pub no_text : List (Option Str) → Bool
no_text [] = true
no_text (none ∷ values) = no_text values
no_text (some s ∷ values) = false

-- `max(..., default=1)`
abbrev pub longest_or_one : List (Option Str) → ℕ
longest_or_one values = if no_text values then 1 else longest values 0

unfoldable pub sized : ColumnType → Bytes → List (Option Str) → ColumnType
sized (nvarchar max_chars collation) default_collation values =
    let most = longest_or_one values in
    if ltb max_nvarchar_chars most
    then nvarchar none default_collation
    else nvarchar (some (if ltb most 1 then 1 else most)) default_collation
sized kind default_collation values = kind
