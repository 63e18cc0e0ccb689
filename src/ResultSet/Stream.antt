-- ===== src/ResultSet/Stream.antt =====
-- That a client reads a whole answer, and no further than its last DONE.
use py_sqlbridge.Prelude.{ℕ, ◌≡◌, Option, List, ◌++◌}
use py_sqlbridge.Py.Bytes.{Bytes}
use py_sqlbridge.ResultSet.Types.{Objects}
use py_sqlbridge.ResultSet.Rows.{Column}
use py_sqlbridge.ResultSet.Answer.{QueryFailure, Read}
use py_sqlbridge.ResultSet.Client.{Layout}
use py_sqlbridge.ResultSet.Items.{Item, Runs, Shows}
use py_sqlbridge.ResultSet.Whole.{Body, done_of, Answer}

module _ (o : Objects) where
  -- An answer's bytes: what stands in front of its DONE, and the DONE.
  abbrev Parts : ℕ → ℕ → List Column → List (List o.Object) → Option QueryFailure → Bytes → Type 0
  Parts v more columns rows failure bytes =
      (front : Bytes) × (last : Bytes) × (body : List Item) × (bytes ≡ front ++ last)
      × Body o columns rows failure body
      × ((l : List Layout) → (m : List Layout) × Runs v l front body m)
      × ((m : List Layout) → Shows v m last (done_of o more columns rows failure))
