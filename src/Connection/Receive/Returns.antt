-- ===== src/Connection/Receive/Returns.antt =====
-- The loop of `receive`.
use mathlib.Core.Option
use py_sqlbridge.Prelude.{ℕ, ◌≤◌, ◌≡◌, Option, some, List}
use py_sqlbridge.Py.Result.{Result}
use py_sqlbridge.Py.Bytes.{Bytes}
use py_sqlbridge.Py.Effect.Post.{Post}
use py_sqlbridge.Prelogin
use py_sqlbridge.Connection.State.{ConnectionState, World, Connection}
use py_sqlbridge.Connection.Receive.{drain, receive_on}

module _ {w : World} where
  -- Rounds that are enough for the loop to end.
  abbrev Ends : Connection w → Type 0
  Ends c = (fuel : ℕ) × (r : Result (Unit {0}) × Connection w) × (drain w fuel c ≡ some r)

  -- Rounds that are enough for a call.
  Returns : ConnectionState → Connection w → Bytes → Type 0
  Returns s c bytes =
      (enough : ℕ) × (r : Result (List Bytes) × Connection w) × ((fuel : ℕ)
        → enough ≤ fuel
        → receive_on w s fuel c bytes ≡ some r)
