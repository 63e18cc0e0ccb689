-- ===== src/Connection/Receive/Reached.antt =====
-- Every connection that a client can bring about.
use mathlib.Core.Option
use py_sqlbridge.Prelude.{ℕ, zero, suc, ◌≡◌, refl, Bool, true, false, Option, some, none, List}
use py_sqlbridge.Py.Result.{Result, ok, err}
use py_sqlbridge.Py.Bytes.{Bytes}
use py_sqlbridge.Py.Effect.Post.{Post}
use py_sqlbridge.Connection.State.{
  ConnectionState, expect_prelogin, tls_handshake, expect_login, expect_sspi, ready, failed, World,
  Connection, new_connection,
}
use py_sqlbridge.Connection.Query.{step_query}
use py_sqlbridge.Connection.Receive.{
  step_in, step, next_round, drain, finish, opened, receive_on, receive,
}
use py_sqlbridge.Py.Effect.Frame.{Hoare-Frames}
use py_sqlbridge.Connection.Receive.Frame.{Same}
use py_sqlbridge.Connection.Receive.Admission.{IsAdmitted, IsSafe, IsSafe-Same}
use py_sqlbridge.Connection.Receive.Steps.{
  step_prelogin-IsSafe, step_handshake-IsSafe, step_login-IsSafe, step_sspi-IsSafe,
}
use py_sqlbridge.Connection.Receive.Queries.{step_query-Frames}

module _ {w : World} where
  step_in-IsSafe :
      (s : ConnectionState) (c : Connection w)
      → c.state ≡ s
      → IsSafe w c
      → Post (λ _ d. IsSafe w d) (step_in w s c)
  unfolding step_in
  step_in-IsSafe expect_prelogin c e h = step_prelogin-IsSafe.run c (λ r. cc)
  step_in-IsSafe tls_handshake c e h = step_handshake-IsSafe.run c (λ r. cc)
  step_in-IsSafe expect_login c e h = step_login-IsSafe.run c (λ r. cc)
  step_in-IsSafe expect_sspi c e h = step_sspi-IsSafe.run c (λ r. cc)
  step_in-IsSafe ready c e h =
      (Hoare-Frames (IsSafe w) Same (step_query w) IsSafe-Same step_query-Frames).run c h
  step_in-IsSafe failed c e h = h

  step-IsSafe : (c : Connection w) → IsSafe w c → Post (λ _ d. IsSafe w d) (step w c)
  unfolding step
  step-IsSafe c h = step_in-IsSafe c.state c refl h

  next_round-IsSafe :
      (fuel : ℕ) (out : Result Bool × Connection w) (r : Result (Unit {0}) × Connection w)
      → ((d : Connection w) → IsSafe w d → drain w fuel d ≡ some r → Post (λ _ e. IsSafe w e) r)
      → Post (λ _ d. IsSafe w d) out
      → next_round w (drain w fuel) out ≡ some r
      → Post (λ _ d. IsSafe w d) r
  next_round-IsSafe fuel (ok true, d) r k h e = k d h e
  next_round-IsSafe fuel (ok false, d) (ok _, d') k h e = let same : d ≡ d' = cc in rw⁻¹ same h
  next_round-IsSafe fuel (ok false, d) (err _, d') k h e = tt
  next_round-IsSafe fuel (err x, d) (ok _, d') k h e = cc
  next_round-IsSafe fuel (err x, d) (err _, d') k h e = tt

  drain-IsSafe :
      (fuel : ℕ) (c : Connection w) (r : Result (Unit {0}) × Connection w)
      → IsSafe w c
      → drain w fuel c ≡ some r
      → Post (λ _ d. IsSafe w d) r
  unfolding drain
  drain-IsSafe zero c r h e = cc
  drain-IsSafe (suc fuel) c r h e =
      next_round-IsSafe fuel (step w c) r (λ d k e'. drain-IsSafe fuel d r k e') (step-IsSafe c h) e

  finish-IsSafe :
      (r : Result (Unit {0}) × Connection w)
      → Post (λ _ d. IsSafe w d) r
      → IsSafe w ((finish w r).1)
  unfolding IsSafe
  finish-IsSafe (ok _, d) h = h
  finish-IsSafe (err e, d) h = λ k. cc

  opened-IsSafe : (c : Connection w) (bytes : Bytes) → IsSafe w c → IsSafe w (opened w c bytes)
  opened-IsSafe c bytes h =
      IsSafe-Same c _ (record { state = refl; login = refl; acceptor = refl }) h

  mapped-IsSafe :
      (o : Option (Result (Unit {0}) × Connection w)) (d : Connection w) (r : Result (List Bytes))
      → ((x : Result (Unit {0}) × Connection w) → o ≡ some x → Post (λ _ e. IsSafe w e) x)
      → Option.map (finish w) o ≡ some (r, d)
      → IsSafe w d
  mapped-IsSafe none d r k e = cc
  mapped-IsSafe (some x) d r k e =
      let same : (finish w x).1 ≡ d = cc in rw⁻¹ same (finish-IsSafe x (k x refl))

  module _ (fuel : ℕ) (c : Connection w) (bytes : Bytes) (r : Result (List Bytes))
      (d : Connection w) (h : IsSafe w c) where
    drained-IsSafe :
        Option.map (finish w) (drain w fuel (opened w c bytes)) ≡ some (r, d) → IsSafe w d
    drained-IsSafe e =
        mapped-IsSafe (drain w fuel (opened w c bytes)) d r
          (λ x e'. drain-IsSafe fuel (opened w c bytes) x (opened-IsSafe c bytes h) e') e

    receive_on-IsSafe :
        (s : ConnectionState) → receive_on w s fuel c bytes ≡ some (r, d) → IsSafe w d
    unfolding receive_on
    receive_on-IsSafe failed e = let same : c ≡ d = cc in rw⁻¹ same h
    receive_on-IsSafe expect_prelogin e = drained-IsSafe e
    receive_on-IsSafe tls_handshake e = drained-IsSafe e
    receive_on-IsSafe expect_login e = drained-IsSafe e
    receive_on-IsSafe expect_sspi e = drained-IsSafe e
    receive_on-IsSafe ready e = drained-IsSafe e

    receive-IsSafe : receive w fuel c bytes ≡ some (r, d) → IsSafe w d
    unfolding receive
    receive-IsSafe e = receive_on-IsSafe c.state e

-- A connection after any calls of `receive`, returning or raising. Between two calls the other
-- connections of the process take session ids.
pub data IsReached (w : World) : Connection w → Type 0 where
  made : (session_ids : ℕ) → IsReached w (new_connection w session_ids)
  elsewhere :
      (c : Connection w) (session_ids : ℕ)
      → IsReached w c
      → IsReached w (record c { session_ids = session_ids })
  received :
      (fuel : ℕ) (c : Connection w) (bytes : Bytes) (r : Result (List Bytes)) (d : Connection w)
      → IsReached w c
      → receive w fuel c bytes ≡ some (r, d)
      → IsReached w d

module _ {w : World} where
  IsReached-IsSafe : (c : Connection w) → IsReached w c → IsSafe w c
  unfolding new_connection IsSafe
  IsReached-IsSafe _ (made session_ids) = λ e. cc
  IsReached-IsSafe _ (elsewhere c session_ids h) =
      IsSafe-Same c _ (record { state = refl; login = refl; acceptor = refl })
        (IsReached-IsSafe c h)
  IsReached-IsSafe _ (received fuel c bytes r d h e) =
      receive-IsSafe fuel c bytes r d (IsReached-IsSafe c h) e

-- Whatever bytes a client sends, in whatever pieces, a connection that is READY, and so hands
-- queries to its handler, has been admitted: the logins admit the user name and the password that
-- its LOGIN7 carries, or the security package has answered SEC_E_OK to a token of its exchange.
pub ready-IsAdmitted :
    {w : World} (c : Connection w) → IsReached w c → c.state ≡ ready → IsAdmitted w c
unfolding IsSafe
ready-IsAdmitted c h e = IsReached-IsSafe c h e
