-- ===== src/Versions.antt =====
-- The protocol versions of src/pysqlbridge/tds/packet.py, as numbers, and `negotiate` of token.py.
pub mod Negotiation
mod Tests
use py_sqlbridge.Prelude.{
  ℕ, Bool, ◌||◌, false, Option, none, some, List, [], ◌∷◌, ltb, ◌==◌, if◌then◌else◌,
}

abbrev pub tds_70 : ℕ
tds_70 = 0x70000000

abbrev pub tds_71 : ℕ
tds_71 = 0x71000001

abbrev pub tds_72 : ℕ
tds_72 = 0x72090002

abbrev tds_73a : ℕ
tds_73a = 0x730a0003

abbrev tds_73b : ℕ
tds_73b = 0x730b0003

abbrev pub tds_74 : ℕ
tds_74 = 0x74000004

abbrev pub all_headers_added_in : ℕ
all_headers_added_in = tds_72

abbrev pub row_count_widened_in : ℕ
row_count_widened_in = tds_72

abbrev pub user_type_widened_in : ℕ
user_type_widened_in = tds_72

abbrev pub line_number_widened_in : ℕ
line_number_widened_in = tds_72

abbrev pub known_versions : List ℕ
known_versions = tds_70 ∷ tds_71 ∷ tds_72 ∷ tds_73a ∷ tds_73b ∷ tds_74 ∷ []

-- `requested in KNOWN_VERSIONS`
abbrev pub contains : List ℕ → ℕ → Bool
contains [] v = false
contains (x ∷ xs) v = x == v || contains xs v

-- `max` of the versions below `v`, where there is one.
abbrev pub newest_below : List ℕ → ℕ → Option ℕ
newest_below [] v = none
newest_below (x ∷ xs) v =
    let rest = newest_below xs v in
    if ltb x v
    then (elim rest [ none ↦ some x | some y ↦ if ltb x y then some y else some x ])
    else rest

unfoldable pub negotiate : ℕ → ℕ
negotiate requested =
    if contains known_versions requested
    then requested
    else elim (newest_below known_versions requested) [ none ↦ tds_70 | some v ↦ v ]
