-- ===== src/Connection/Receive/Steps.antt =====
-- Each step of a connection, and admission.
use py_sqlbridge.Prelude.{
  ◌==◌, ◌≡◌, refl, Bool, true, false, not, some, [], ◌∷◌, length, if◌then◌else◌,
}
use py_sqlbridge.Py.Result.{ok, protocol_error}
use py_sqlbridge.Py.Effect.{Effect, ◌>>◌, return, raise}
use py_sqlbridge.Py.Effect.Post.{
  Hoare, Hoare-bind, Hoare-lift, Hoare-read, Hoare-modify, Hoare-if, Hoare-return,
}
use py_sqlbridge.Packet.{Message, PacketType, login7, sspi, prelogin, build_packet, tabular_result}
use py_sqlbridge.Packet.Status.{end_of_message}
use py_sqlbridge.Login.{uses_integrated_auth}
use py_sqlbridge.Login
use py_sqlbridge.Prelogin.{encryption_of, server_response, build}
use py_sqlbridge.Prelogin
use py_sqlbridge.Tls.{advance_handshake, wrap_handshake}
use py_sqlbridge.Auth.{new_acceptor}
use py_sqlbridge.Connection.State.{
  ConnectionState, expect_login, expect_sspi, ready, World, Connection,
}
use py_sqlbridge.Connection.Transport.{
  through, decrypt, take_clear, take_plain, take_message, queue,
}
use py_sqlbridge.Connection.Handshake.{
  same_type, expect_type, answer_login, arrived, hold, exchange, answer_sql_login, enter,
  finish_login, step_login, step_sspi, answer_sspi, step_prelogin, answer_prelogin, step_handshake,
  advance, said, agree, open_tunnel, negotiate_encryption,
}
use py_sqlbridge.Py.Effect.Frame.{Frames, Frames-return, Frames-raise, Frames-if, Hoare-Frames}
use py_sqlbridge.Connection.Receive.Frame.{
  Same, same, Same-Aside, Hoare-assert_some, Hoare-given, through-Frames, decrypt-Frames,
  take_clear-Frames, take_plain-Frames, take_message-Frames, queue-Frames,
}
use py_sqlbridge.Connection.Receive.Admission.{
  IsSafe, IsWaiting, IsWaiting-Same, IsSafe-waiting, answer_sql_login-IsSafe, Exchanged,
  exchange-Exchanged, finish-IsSafe,
}

module _ {w : World} where
  expect_type-Frames :
      (type : PacketType) (m : Message) → Frames (Same {w = w}) (expect_type type m)
  expect_type-Frames type m =
      Frames-if same (same_type m.type type) (return tt) (raise protocol_error)
        (Frames-return same tt) (Frames-raise same (Unit {0}) protocol_error)

  Waits :
      {A : Type 0} (m : Effect (Connection w) A)
      → Frames Same m
      → Hoare (IsWaiting w) m (λ _ d. IsWaiting w d)
  Waits m h = Hoare-Frames (IsWaiting w) Same m IsWaiting-Same h

  -- A state other than READY is entered.
  enter-IsWaiting :
      {P : Connection w → Type 0} (s : ConnectionState)
      → (s ≡ ready → ⊥)
      → Hoare P (enter w s) (λ _ d. IsWaiting w d)
  enter-IsWaiting s h = record { run = λ c p. h }

  IsSafe-return :
      {P : Connection w → Type 0} (b : Bool)
      → ((c : Connection w) → P c → IsSafe w c)
      → Hoare P (return b) (λ _ d. IsSafe w d)
  IsSafe-return b h = Hoare-return b h

  -- The end of a round of the exchange.
  settle-IsSafe :
      (complete : Bool) (other : Effect (Connection w) (Unit {0}))
      → Hoare (IsWaiting w) other (λ _ d. IsWaiting w d)
      → Hoare
          (Exchanged complete)
          ((if complete then finish_login w else other) >> return true)
          (λ _ d. IsSafe w d)
  settle-IsSafe true other h = finish-IsSafe (λ c k. k.1 refl)
  settle-IsSafe false other h =
      Hoare-bind (λ _ d. IsWaiting w d) other (λ _. return true)
        (record { run = λ c k. h.run c (k.0) }) (λ _. IsSafe-return true IsSafe-waiting)

  answer_login-IsSafe : (m : Message) → Hoare (IsWaiting w) (answer_login w m) (λ _ d. IsSafe w d)
  unfolding answer_login
  answer_login-IsSafe m =
      Hoare-bind (λ _ d. IsWaiting w d) (expect_type login7 m) _
        (Waits _ (expect_type-Frames login7 m))
        (λ _. Hoare-lift (Login.parse m.payload) _ (λ l e.
          Hoare-modify (λ d. (d.login ≡ some l) × IsWaiting w d) (arrived w l) _ (λ d h. (refl, h))
            (Hoare-if (uses_integrated_auth l) _ (answer_sql_login w l)
              (λ _. Hoare-lift (new_acceptor w.provider) _ (λ acceptor _.
                Hoare-modify (IsWaiting w) (hold w acceptor) _ (λ d h. h.1)
                  (Hoare-bind Exchanged (exchange w l.sspi) _ (exchange-Exchanged l.sspi)
                    (λ complete.
                      settle-IsSafe complete (enter w expect_sspi)
                        (enter-IsWaiting expect_sspi (λ e. cc))))))
              (λ _. answer_sql_login-IsSafe l))))

  pub step_login-IsSafe : Hoare (IsWaiting w) (step_login w) (λ _ d. IsSafe w d)
  unfolding step_login
  step_login-IsSafe = Hoare-read _ (λ c. Hoare-assert_some c.tunnel _ (λ tunnel.
      Hoare-bind (λ _ d. IsWaiting w d)
        (if not (length c.buffer == 0) then decrypt w else return tt) _
        (Waits _ (
          Frames-if same (not (length c.buffer == 0)) (decrypt w) (return tt) decrypt-Frames
            (Frames-return same tt)))
        (λ _.
          Hoare-bind (λ _ d. IsWaiting w d) (take_plain w) _ (Waits _ take_plain-Frames)
            (λ message.
              Hoare-given message (not (length c.buffer == 0)) (answer_login w) IsSafe-waiting
                answer_login-IsSafe))))

  pub step_sspi-IsSafe : Hoare (IsWaiting w) (step_sspi w) (λ _ d. IsSafe w d)
  unfolding step_sspi answer_sspi
  step_sspi-IsSafe = Hoare-read _ (λ c. Hoare-assert_some c.acceptor _ (λ acceptor.
      Hoare-bind (λ _ d. IsWaiting w d) (take_message w) _ (Waits _ take_message-Frames)
        (λ message. Hoare-given message false _ IsSafe-waiting (λ m.
          Hoare-bind (λ _ d. IsWaiting w d) (expect_type sspi m) _
            (Waits _ (expect_type-Frames sspi m))
            (λ _.
              Hoare-bind Exchanged (exchange w m.payload) _ (exchange-Exchanged m.payload)
                (λ complete. settle-IsSafe complete (return tt) (Hoare-return tt (λ d h. h))))))))

  -- Whatever the answer to PRELOGIN, the handshake is next.
  answer_prelogin-IsSafe :
      (m : Message) → Hoare (IsWaiting w) (answer_prelogin w m) (λ _ d. IsSafe w d)
  unfolding answer_prelogin
  answer_prelogin-IsSafe m =
      Hoare-bind (λ _ d. IsWaiting w d) (expect_type prelogin m) _
        (Waits _ (expect_type-Frames prelogin m))
        (λ _. Hoare-lift (Prelogin.parse m.payload) _ (λ asked _.
          Hoare-modify (IsWaiting w) (said w asked) _ (λ d h. h)
            (Hoare-lift (encryption_of asked) _ (λ requested _.
              Hoare-modify (IsWaiting w) (agree w (negotiate_encryption w requested)) _ (λ d h. h)
                (Hoare-lift
                  (server_response w.version (negotiate_encryption w requested) false (some asked))
                  _
                  (λ response _. Hoare-lift (build response) _ (λ built _.
                    Hoare-lift (build_packet tabular_result built end_of_message 0 1 0) _
                      (λ packet _.
                        Hoare-bind (λ _ d. IsWaiting w d) (queue w (packet ∷ [])) _
                          (Waits _
                            (Same-Aside (queue w (packet ∷ [])) (queue-Frames (packet ∷ []))))
                          (λ _.
                            Hoare-modify (IsWaiting w) (open_tunnel w) _ (λ d h e. cc)
                              (IsSafe-return true IsSafe-waiting))))))))))

  pub step_prelogin-IsSafe : Hoare (IsWaiting w) (step_prelogin w) (λ _ d. IsSafe w d)
  unfolding step_prelogin
  step_prelogin-IsSafe =
      Hoare-bind (λ _ d. IsWaiting w d) (take_clear w) _ (Waits _ take_clear-Frames)
        (λ message.
          Hoare-given message false (answer_prelogin w) IsSafe-waiting answer_prelogin-IsSafe)

  advance-IsSafe : (m : Message) → Hoare (IsWaiting w) (advance w m) (λ _ d. IsSafe w d)
  unfolding advance
  advance-IsSafe m =
      Hoare-bind (λ _ d. IsWaiting w d) (through w (advance_handshake w.engine m.payload)) _
        (Waits _ (Same-Aside _ (through-Frames _)))
        (λ records.
          Hoare-lift (if length records == 0 then ok [] else wrap_handshake records) _ (λ packets _.
            Hoare-bind (λ _ d. IsWaiting w d) (queue w packets) _
              (Waits _ (Same-Aside (queue w packets) (queue-Frames packets)))
              (λ _. Hoare-read _ (λ c. Hoare-assert_some c.tunnel _ (λ tunnel.
                Hoare-bind (λ _ d. IsWaiting w d)
                  (if tunnel.complete then enter w expect_login else return tt) (λ _. return true)
                  (Hoare-if tunnel.complete _ (return tt)
                    (λ _. enter-IsWaiting expect_login (λ e. cc)) (λ _. Hoare-return tt (λ d h. h)))
                  (λ _. IsSafe-return true IsSafe-waiting))))))

  pub step_handshake-IsSafe : Hoare (IsWaiting w) (step_handshake w) (λ _ d. IsSafe w d)
  unfolding step_handshake
  step_handshake-IsSafe = Hoare-read _ (λ c. Hoare-assert_some c.tunnel _ (λ tunnel.
      Hoare-bind (λ _ d. IsWaiting w d) (take_clear w) _ (Waits _ take_clear-Frames)
        (λ message. Hoare-given message false (advance w) IsSafe-waiting advance-IsSafe)))
