-- ===== src/Tls.antt =====
-- src/pysqlbridge/tds/tls.py: the TLS engine driven by buffers, and the framing of its handshake.
-- The engine, an `SSLObject` with its two `MemoryBIO`s, is a parameter.
use py_sqlbridge.Prelude.{ℕ, Bool, true, false, List, if◌then◌else◌}
use py_sqlbridge.Py.Result.{Result, ok, err, tls_error}
use py_sqlbridge.Py.Bytes.{Bytes}
use py_sqlbridge.Py.Effect.{Effect, ◌>>◌}
use py_sqlbridge.Packet.{default_packet_size, prelogin, build_message}

-- What `do_handshake` ends with.
pub data Handshake : Type 0 where
  established want_read failed : Handshake

-- The documented operations of the engine. `read_all` is `read` until it wants more input, and
-- gives nothing for an `SSLError`.
pub record Engine : Type 1 where
  pub State : Type 0
  pub fresh : State
  pub write_incoming : State → Bytes → State
  pub do_handshake : State → Handshake × State
  pub read_all : State → Result Bytes × State
  pub write : State → Bytes → Bool × State
  pub read_outgoing : State → Bytes × State

module _ (engine : Engine) where
  -- `TlsTunnel`: `complete` is `state is TunnelState.ESTABLISHED`.
  pub record Tunnel : Type 0 where
    pub ssl : engine.State
    pub complete : Bool

  abbrev pub new_tunnel : Tunnel
  new_tunnel = record { ssl = engine.fresh; complete = false }

  abbrev take_outgoing : Effect Tunnel Bytes
  take_outgoing t =
      let (bytes, ssl) = engine.read_outgoing t.ssl in (ok bytes, record t { ssl = ssl })

  abbrev shake : Handshake × engine.State → Effect Tunnel (Unit {0})
  shake (established, ssl) t = (ok tt, record { ssl = ssl; complete = true })
  shake (want_read, ssl) t = (ok tt, record t { ssl = ssl })
  shake (failed, ssl) t = (err tls_error, record t { ssl = ssl })

  unfoldable pub advance_handshake : Bytes → Effect Tunnel Bytes
  advance_handshake data_in t =
      if t.complete
      then (err tls_error, t)
      else (do shake (engine.do_handshake (engine.write_incoming t.ssl data_in)); take_outgoing) t

  abbrev read_plain : Bytes → Effect Tunnel Bytes
  read_plain data_in t =
      let (plain, ssl) = engine.read_all (engine.write_incoming t.ssl data_in) in
      (plain, record t { ssl = ssl })

  unfoldable pub unwrap : Bytes → Effect Tunnel Bytes
  unwrap data_in t = if t.complete then read_plain data_in t else (err tls_error, t)

  abbrev encrypt : Bytes → Effect Tunnel (Unit {0})
  encrypt plaintext t =
      let (written, ssl) = engine.write t.ssl plaintext in
      (if written then ok tt else err tls_error, record t { ssl = ssl })

  unfoldable pub wrap : Bytes → Effect Tunnel Bytes
  wrap plaintext t =
      if t.complete then (do encrypt plaintext; take_outgoing) t else (err tls_error, t)

abbrev handshake_packet_id : ℕ
handshake_packet_id = 0

unfoldable pub wrap_handshake : Bytes → Result (List Bytes)
wrap_handshake records = build_message prelogin records default_packet_size 0 handshake_packet_id
