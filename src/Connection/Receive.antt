-- ===== src/Connection/Receive.antt =====
-- `Connection._step` and `Connection.receive`.
pub mod Failure
pub mod Frame
pub mod Admission
pub mod Queries
pub mod Reached
pub mod Unread
pub mod Progress
pub mod Returns
pub mod Steps
use mathlib.Core.Option
use py_sqlbridge.Prelude.{ℕ, zero, suc, Bool, true, false, Option, none, some, List, [], ◌++◌}
use py_sqlbridge.Py.Result.{Exc, Result, ok, err, protocol_error}
use py_sqlbridge.Py.Bytes.{Bytes}
use py_sqlbridge.Py.Effect.{Effect}
use py_sqlbridge.Connection.State.{
  ConnectionState, expect_prelogin, tls_handshake, expect_login, expect_sspi, ready, failed, World,
  Connection,
}
use py_sqlbridge.Connection.Handshake.{step_prelogin, step_handshake, step_login, step_sspi}
use py_sqlbridge.Connection.Query.{step_query}

module _ (w : World) where
  -- `_step` in a state.
  pub step_in : ConnectionState → Effect (Connection w) Bool
  step_in expect_prelogin = step_prelogin w
  step_in tls_handshake = step_handshake w
  step_in expect_login = step_login w
  step_in expect_sspi = step_sspi w
  step_in ready = step_query w
  step_in failed = λ c. (ok false, c)

  unfoldable pub step : Effect (Connection w) Bool
  unfolding step_in
  step c = step_in c.state c

  -- A round of the loop: another follows if anything moved.
  abbrev pub next_round :
      (Connection w → Option (Result (Unit {0}) × Connection w))
      → Result Bool × Connection w
      → Option (Result (Unit {0}) × Connection w)
  next_round go (ok true, c) = go c
  next_round go (ok false, c) = some (ok tt, c)
  next_round go (err e, c) = some (err e, c)

  -- `while self._step(responses): pass`, with fuel: nothing when it runs out.
  pub drain : ℕ → Connection w → Option (Result (Unit {0}) × Connection w)
  drain zero c = none
  drain (suc fuel) c = next_round (drain fuel) (step c)

  -- How `receive` ends, by how its loop ended.
  abbrev pub finish : Result (Unit {0}) × Connection w → Result (List Bytes) × Connection w
  finish (ok _, c) = (ok c.responses, c)
  finish (err e, c) = (err e, record c { state = failed })

  abbrev pub opened : Connection w → Bytes → Connection w
  opened c bytes = record c { buffer = c.buffer ++ bytes; responses = [] }

  pub receive_on :
      ConnectionState → ℕ → Connection w → Bytes → Option (Result (List Bytes) × Connection w)
  unfolding drain
  receive_on failed fuel c bytes = some (err protocol_error, c)
  receive_on _ fuel c bytes = Option.map finish (drain fuel (opened c bytes))

  unfoldable pub receive : ℕ → Connection w → Bytes → Option (Result (List Bytes) × Connection w)
  unfolding receive_on
  receive fuel c bytes = receive_on c.state fuel c bytes
