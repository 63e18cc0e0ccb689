-- ===== src/Precedence/Sizes.antt =====
-- The size of the column that text is brought to.
use py_sqlbridge.Prelude.{ℕ, ◌*◌, ◌≤◌, none, some, List, length}
use py_sqlbridge.Py.Bytes.{Bytes}
use py_sqlbridge.ResultSet.Types.{ColumnType, nvarchar}

-- A column that a text of so many characters fits, declared as the wire can declare it.
abbrev pub Holds : ColumnType → ℕ → Type 0
Holds (nvarchar none collation) n = Unit {0}
Holds (nvarchar (some size) collation) n = (n ≤ size) × (1 ≤ size) × (size ≤ 4000)
Holds _ n = ⊥

-- The bytes of a text fit a column, whose size counts pairs of them.
abbrev pub HoldsBytes : ColumnType → Bytes → Type 0
HoldsBytes (nvarchar none collation) bytes = Unit {0}
HoldsBytes (nvarchar (some size) collation) bytes =
    (length bytes ≤ 2 * size) × (1 ≤ size) × (size ≤ 4000)
HoldsBytes _ bytes = ⊥
