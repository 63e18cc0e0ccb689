-- ===== src/Connection/Transport.antt =====
-- Taking messages off the wire and queueing answers, in the clear or through the tunnel.
use py_sqlbridge.Prelude.{
  ℕ, ◌==◌, ◌&&◌, Bool, true, false, Option, none, some, List, [], ◌∷◌, ◌++◌, length, drop, concat,
  if◌then◌else◌,
}
use py_sqlbridge.Py.Result.{assertion_error}
use py_sqlbridge.Py.Bytes.{Bytes}
use py_sqlbridge.Py.Effect.{Effect, ◌>>=◌, ◌>>◌, return, raise, lift, modify, read}
use py_sqlbridge.Packet.{Message, reassemble, build_message, default_packet_size, tabular_result}
use py_sqlbridge.Tls.{Tunnel, unwrap, wrap}
use py_sqlbridge.Connection.State.{World, Connection}

abbrev is_some : {A : Type 0} → Option A → Bool
is_some none = false
is_some (some a) = true

-- `if option: ... [option]` of a `None` that an assertion rules out.
abbrev pub assert_some : {S A : Type 0} → Option A → Effect S A
assert_some none = raise assertion_error
assert_some (some a) = return a

-- What is done with a message, where there is one.
abbrev pub given : {S A B : Type 0} → Option A → B → (A → Effect S B) → Effect S B
given none b f = return b
given (some a) b f = f a

module _ (w : World) where
  -- An operation of the tunnel, which changes it.
  unfoldable pub through : {A : Type 0} → (Effect (Tunnel w.engine) A) → Effect (Connection w) A
  through m = do
    c ← read
    tunnel ← assert_some c.tunnel
    let (r, tunnel') = m tunnel
    modify (λ c. record c { tunnel = some tunnel' })
    lift r

  abbrev pub is_tunnelled : Connection w → Bool
  is_tunnelled c = c.session_encrypted && is_some c.tunnel

  -- What has arrived is decrypted and joined to the plaintext.
  unfoldable pub decrypt : Effect (Connection w) (Unit {0})
  unfolding through
  decrypt = do
    c ← read
    plain ← through (unwrap w.engine c.buffer)
    modify (λ c. record c { plaintext = c.plaintext ++ plain; buffer = [] })

  -- The next whole message of the bytes as they arrived, which is then dropped from them.
  unfoldable pub take_clear : Effect (Connection w) (Option Message)
  take_clear = do
    c ← read
    message ← lift (reassemble c.buffer)
    given message none
        (λ m. do modify (λ c. record c { buffer = drop m.consumed c.buffer }); return (some m))

  unfoldable pub take_plain : Effect (Connection w) (Option Message)
  take_plain = do
    c ← read
    message ← lift (reassemble c.plaintext)
    given message none (λ m. do
      modify (λ c. record c { plaintext = drop m.consumed c.plaintext })
      return (some m))

  -- `_take_message`
  unfoldable pub take_message : Effect (Connection w) (Option Message)
  unfolding decrypt take_plain take_clear
  take_message = do
    c ← read
    if is_tunnelled c
        then (do if length c.buffer == 0 then return tt else decrypt; take_plain)
        else take_clear

  abbrev pub queue : List Bytes → Effect (Connection w) (Unit {0})
  queue packets = modify (λ c. record c { responses = c.responses ++ packets })

  -- `_send`
  unfoldable pub send : Bytes → ℕ → Effect (Connection w) (Unit {0})
  unfolding through
  send payload packet_id = do
    c ← read
    packets ← lift (build_message tabular_result payload default_packet_size c.spid packet_id)
    if is_tunnelled c
        then (do records ← through (wrap w.engine (concat packets)); queue (records ∷ []))
        else queue packets
