-- ===== src/ResultSet/Items.antt =====
-- A client that reads an answer token by token, until a DONE says that no more is coming.
use py_sqlbridge.Prelude.{
  ℕ, zero, suc, ◌+◌, ◌*◌, ◌%◌, ◌≡◌, refl, ap, arith, Bool, true, false, Option, none, some, List,
  [], ◌∷◌, ◌++◌, map, leb, ◌==◌, length, append_assoc, if◌then◌else◌,
}
use py_sqlbridge.Py.Result.{Result, ok, err, protocol_error, out_of_fuel, ◌>>=◌}
use py_sqlbridge.Py.Bytes.{Bytes, le_value}
use py_sqlbridge.Versions.{tds_72}
use py_sqlbridge.Token.Walk.{next_token}
use py_sqlbridge.ResultSet.Client.{Layout, Entry, split_at, read_columns, read_cells}

-- What a token tells: the columns, a row's values, a DONE with its status, command and count, an
-- ERROR with its number, state, severity and message, or the first byte of any other token.
pub data Item : Type 0 where
  shape : List Entry → Item
  values : List (Option Bytes) → Item
  closing : ℕ → ℕ → ℕ → Item
  failure : ℕ → ℕ → ℕ → Bytes → Item
  other : ℕ → Item

abbrev read_shape : ℕ → Bytes → Result (Item × Bytes)
read_shape tds_version bytes = do
  (count, rest) ← split_at 2 bytes
  (entries, rest) ← read_columns (le_value count) tds_version rest
  ok (shape entries, rest)

abbrev read_row : Option (List (Option Bytes) × Bytes) → Result (Item × Bytes)
read_row none = err protocol_error
read_row (some (contents, rest)) = ok (values contents, rest)

abbrev read_done : ℕ → Bytes → Result (Item × Bytes)
read_done tds_version bytes = do
  (status, rest) ← split_at 2 bytes
  (command, rest) ← split_at 2 rest
  (count, rest) ← split_at (if leb tds_72 tds_version then 8 else 4) rest
  ok (closing (le_value status) (le_value command) (le_value count), rest)

-- An ERROR's body up to its message, which is counted in characters of two bytes.
abbrev pub read_said : Bytes → Result Item
read_said body = do
  (number, rest) ← split_at 4 body
  (state, rest) ← split_at 1 rest
  (severity, rest) ← split_at 1 rest
  (count, rest) ← split_at 2 rest
  (message, rest) ← split_at (le_value count * 2) rest
  ok (failure (le_value number) (le_value state) (le_value severity) message)

abbrev pub read_failure : Bytes → Result (Item × Bytes)
read_failure bytes = do
  (size, rest) ← split_at 2 bytes
  (body, rest) ← split_at (le_value size) rest
  item ← read_said body
  ok (item, rest)

abbrev read_other : Option (ℕ × Bytes) → Result (Item × Bytes)
read_other none = err protocol_error
read_other (some (kind, rest)) = ok (other kind, rest)

-- The next token, under the layouts of the columns that were declared last.
unfoldable pub next_item : ℕ → List Layout → Bytes → Result (Item × Bytes)
next_item tds_version layouts [] = err protocol_error
next_item tds_version layouts (kind ∷ rest) =
    if kind == 0x81
    then read_shape tds_version rest
    else if kind == 0xd1
    then read_row (read_cells layouts rest)
    else if kind == 0xfd
    then read_done tds_version rest
    else if kind == 0xaa
    then read_failure rest
    else read_other (next_token tds_version (kind ∷ rest))

abbrev pub layouts_in : List Entry → List Layout
layouts_in entries = map (λ (e : Entry). e.layout) entries

abbrev pub layouts_after : Item → List Layout → List Layout
layouts_after (shape entries) layouts = layouts_in entries
layouts_after _ layouts = layouts

-- A DONE whose lowest bit, MORE, is not set.
abbrev pub is_last : Item → Bool
is_last (closing status command count) = status % 2 == 0
is_last _ = false

abbrev with_item : Item → Result (List Item × Bytes) → Result (List Item × Bytes)
with_item item (err e) = err e
with_item item (ok (items, rest)) = ok (item ∷ items, rest)

abbrev go_on :
    (List Layout → Bytes → Result (List Item × Bytes))
    → List Layout
    → Result (Item × Bytes)
    → Result (List Item × Bytes)
go_on next layouts (err e) = err e
go_on next layouts (ok (item, rest)) =
    if is_last item
    then ok (item ∷ [], rest)
    else with_item item (next (layouts_after item layouts) rest)

-- The items of an answer of at most `fuel` tokens, and what lies behind it.
unfoldable pub read_items : ℕ → ℕ → List Layout → Bytes → Result (List Item × Bytes)
read_items zero tds_version layouts bytes = err out_of_fuel
read_items (suc fuel) tds_version layouts bytes =
    go_on (λ l b. read_items fuel tds_version l b) layouts (next_item tds_version layouts bytes)

-- Fuel for these items, and `fuel` behind them.
abbrev pub with_fuel : List Item → ℕ → ℕ
with_fuel [] fuel = fuel
with_fuel (item ∷ items) fuel = suc (with_fuel items fuel)

with_fuel-append :
    (a b : List Item) (fuel : ℕ) → with_fuel (a ++ b) fuel ≡ with_fuel a (with_fuel b fuel)
with_fuel-append [] b fuel = refl
with_fuel-append (item ∷ a) b fuel = ap suc (with_fuel-append a b fuel)

pub with_fuel_sum : (items : List Item) (fuel : ℕ) → with_fuel items fuel ≡ length items + fuel
with_fuel_sum [] fuel = omega arith
with_fuel_sum (item ∷ items) fuel = omega (arith, with_fuel_sum items fuel)

module _ (v : ℕ) where
  -- Bytes that are read as these items, none of which is the last.
  abbrev pub Runs : List Layout → Bytes → List Item → List Layout → Type 0
  Runs before bytes items after =
      (fuel : ℕ) (rest : Bytes) (later : List Item) (end : Bytes)
      → read_items fuel v after rest ≡ ok (later, end)
      → read_items (with_fuel items fuel) v before (bytes ++ rest) ≡ ok (items ++ later, end)

  -- Bytes that are read as these items, the last of which ends the answer.
  abbrev pub Ends : List Layout → Bytes → List Item → Type 0
  Ends before bytes items =
      (fuel : ℕ) (rest : Bytes)
      → read_items (with_fuel items fuel) v before (bytes ++ rest) ≡ ok (items, rest)

  -- A token that is read as the item.
  abbrev pub Shows : List Layout → Bytes → Item → Type 0
  Shows layouts token item = (rest : Bytes) → next_item v layouts (token ++ rest) ≡ ok (item, rest)

  pub Runs-nothing : (l : List Layout) → Runs l [] [] l
  Runs-nothing l fuel rest later end h = h

  pub Runs-one :
      (l : List Layout) (token : Bytes) (item : Item)
      → is_last item ≡ false
      → Shows l token item
      → Runs l token (item ∷ []) (layouts_after item l)
  unfolding read_items
  Runs-one l token item more shows fuel rest later end h = rw (shows rest, more, h) refl

  pub Ends-one :
      (l : List Layout) (token : Bytes) (item : Item)
      → is_last item ≡ true
      → Shows l token item
      → Ends l token (item ∷ [])
  unfolding read_items
  Ends-one l token item last shows fuel rest = rw (shows rest, last) refl

  pub Runs-append :
      (l m n : List Layout) (a b : Bytes) (first second : List Item)
      → Runs l a first m
      → Runs m b second n
      → Runs l (a ++ b) (first ++ second) n
  Runs-append l m n a b first second h k fuel rest later end e =
      rw
        (append_assoc a b rest, with_fuel-append first second fuel, append_assoc first second later)
        (h (with_fuel second fuel) (b ++ rest) (second ++ later) end (k fuel rest later end e))

  pub Runs-Ends :
      (l m : List Layout) (a b : Bytes) (first second : List Item)
      → Runs l a first m
      → Ends m b second
      → Ends l (a ++ b) (first ++ second)
  Runs-Ends l m a b first second h k fuel rest =
      rw (append_assoc a b rest, with_fuel-append first second fuel)
        (h (with_fuel second fuel) (b ++ rest) second rest (k fuel rest))
