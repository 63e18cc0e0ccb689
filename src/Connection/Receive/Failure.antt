-- ===== src/Connection/Receive/Failure.antt =====
-- A connection that failed.
use mathlib.Core.Option
use py_sqlbridge.Prelude.{ℕ, ◌≡◌, refl, Option, some, none}
use py_sqlbridge.Py.Result.{Exc, Result, ok, err, protocol_error}
use py_sqlbridge.Py.Bytes.{Bytes}
use py_sqlbridge.Connection.State.{
  ConnectionState, expect_prelogin, tls_handshake, expect_login, expect_sspi, ready, failed, World,
  Connection,
}
use py_sqlbridge.Connection.Receive.{finish, receive_on, receive}

module _ {w : World} where
  mapped_fails :
      (o : Option (Result (Unit {0}) × Connection w)) (d : Connection w) (e : Exc)
      → Option.map (finish w) o ≡ some (err e, d)
      → d.state ≡ failed
  mapped_fails none d e h = cc
  mapped_fails (some (ok _, c)) d e h = cc
  mapped_fails (some (err x, c)) d e h =
      let same : record c { state = failed } ≡ d = cc in rw⁻¹ same refl

  receive_on_fails :
      (s : ConnectionState) (fuel : ℕ) (c : Connection w) (bytes : Bytes) (d : Connection w)
      (e : Exc)
      → c.state ≡ s
      → receive_on w s fuel c bytes ≡ some (err e, d)
      → d.state ≡ failed
  unfolding receive_on
  receive_on_fails failed fuel c bytes d e at h = let same : c ≡ d = cc in rw⁻¹ same at
  receive_on_fails expect_prelogin fuel c bytes d e at h = mapped_fails _ d e h
  receive_on_fails tls_handshake fuel c bytes d e at h = mapped_fails _ d e h
  receive_on_fails expect_login fuel c bytes d e at h = mapped_fails _ d e h
  receive_on_fails expect_sspi fuel c bytes d e at h = mapped_fails _ d e h
  receive_on_fails ready fuel c bytes d e at h = mapped_fails _ d e h

  receive_on_failed :
      (s : ConnectionState) (fuel : ℕ) (c : Connection w) (bytes : Bytes)
      → s ≡ failed
      → receive_on w s fuel c bytes ≡ some (err protocol_error, c)
  unfolding receive_on
  receive_on_failed failed fuel c bytes h = refl
  receive_on_failed expect_prelogin fuel c bytes h = cc
  receive_on_failed tls_handshake fuel c bytes h = cc
  receive_on_failed expect_login fuel c bytes h = cc
  receive_on_failed expect_sspi fuel c bytes h = cc
  receive_on_failed ready fuel c bytes h = cc

-- After a call of `receive` that raises, whatever it raises, every further call, with any bytes,
-- raises the protocol's exception and leaves the connection as it is.
pub receive_fails_for_good :
    {w : World} (fuel : ℕ) (c : Connection w) (bytes : Bytes) (d : Connection w) (e : Exc)
    → receive w fuel c bytes ≡ some (err e, d)
    → (again : ℕ) (more : Bytes) → receive w again d more ≡ some (err protocol_error, d)
unfolding receive
receive_fails_for_good fuel c bytes d e h again more =
    receive_on_failed d.state again d more (receive_on_fails c.state fuel c bytes d e refl h)
