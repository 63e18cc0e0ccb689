-- ===== src/Connection/Receive/Unread.antt =====
-- What the answers to a message leave to be read.
use py_sqlbridge.Prelude.{
  ℕ, List, ◌==◌, refl, Bool, true, false, some, [], ◌∷◌, length, if◌then◌else◌,
}
use py_sqlbridge.Py.Result.{ok, protocol_error}
use py_sqlbridge.Py.Bytes.{Bytes}
use py_sqlbridge.Py.Effect.{Effect, ◌>>=◌, ◌>>◌, return, lift, modify, raise}
use py_sqlbridge.Py.Effect.Frame.{
  Frames, Frames-return, Frames-raise, Frames-lift, Frames-if, Frames-bind, Frames-read,
  Frames-modify,
}
use py_sqlbridge.Packet.{PacketType, Message, login7, sspi, prelogin, build_packet, tabular_result}
use py_sqlbridge.Packet.Status.{end_of_message}
use py_sqlbridge.Login.{Login7, uses_integrated_auth, deobfuscate_password}
use py_sqlbridge.Login
use py_sqlbridge.Prelogin.{encryption_of, server_response, build}
use py_sqlbridge.Prelogin
use py_sqlbridge.Token.{login_response, error_response}
use py_sqlbridge.Tls.{advance_handshake, wrap_handshake}
use py_sqlbridge.Auth.{new_acceptor}
use py_sqlbridge.Auth
use py_sqlbridge.Connection.State.{
  ConnectionState, expect_login, expect_sspi, ready, failed, World, Connection,
}
use py_sqlbridge.Connection.Transport.{through, queue, send, assert_some}
use py_sqlbridge.Connection.Handshake.{
  same_type, expect_type, login_refusal, negotiate_encryption, said, agree, open_tunnel,
  answer_prelogin, advance, enter, take_session_id, login_answer, finish_login, admits,
  answer_sql_login, hold, pass_on, exchange, arrived, answer_login, answer_sspi,
}
use py_sqlbridge.Connection.Receive.Frame.{
  Unread, Unread-Aside, unread, left, Frames-assert_some, through-Frames, queue-Frames, send-Frames,
}
use py_sqlbridge.Connection.Receive.Admission.{pass_on-Frames}

module _ {w : World} where
  abbrev Leaves : {A : Type 0} → Effect (Connection w) A → Type 0
  Leaves m = Frames Unread m

  change-Leaves :
      (g : Connection w → Connection w) → ((c : Connection w) → Unread c (g c)) → Leaves (modify g)
  change-Leaves g h = Frames-modify unread g h

  send-Leaves : (payload : Bytes) (id : ℕ) → Leaves (send w payload id)
  send-Leaves payload id = Unread-Aside (send w payload id) (send-Frames payload id)

  queue-Leaves : (packets : List Bytes) → Leaves (queue w packets)
  queue-Leaves packets = Unread-Aside (queue w packets) (queue-Frames packets)

  expect_type-Leaves : (type : PacketType) (m : Message) → Leaves (expect_type type m)
  expect_type-Leaves type m =
      Frames-if unread (same_type m.type type) (return tt) (raise protocol_error)
        (Frames-return unread tt) (Frames-raise unread (Unit {0}) protocol_error)

  enter-Leaves : (s : ConnectionState) → Leaves (enter w s)
  enter-Leaves s = change-Leaves _ (λ c. left refl refl)

  pub answer_prelogin-Leaves : (m : Message) → Leaves (answer_prelogin w m)
  unfolding answer_prelogin
  answer_prelogin-Leaves m =
      Frames-bind unread (expect_type prelogin m) _ (expect_type-Leaves prelogin m) (λ _.
        Frames-bind unread (lift (Prelogin.parse m.payload)) _ (Frames-lift unread _) (λ asked.
          Frames-bind unread (modify (said w asked)) _ (change-Leaves _ (λ c. left refl refl)) (λ _.
            Frames-bind unread (lift (encryption_of asked)) _ (Frames-lift unread _) (λ requested.
              let agreed = negotiate_encryption w requested in
              Frames-bind unread (modify (agree w agreed)) _ (change-Leaves _ (λ c. left refl refl))
                (λ _.
                  Frames-bind unread (lift (server_response w.version agreed false (some asked))) _
                    (Frames-lift unread _)
                    (λ response.
                      Frames-bind unread (lift (build response)) _ (Frames-lift unread _) (λ built.
                        Frames-bind unread
                          (lift (build_packet tabular_result built end_of_message 0 1 0))
                          (λ packet.
                            queue w (packet ∷ []) >>= λ _. modify (open_tunnel w) >> return true)
                          (Frames-lift unread _)
                          (λ packet.
                            Frames-bind unread (queue w (packet ∷ []))
                              (λ _. modify (open_tunnel w) >> return true)
                              (queue-Leaves (packet ∷ []))
                              (λ _.
                                Frames-bind unread (modify (open_tunnel w)) (λ _. return true)
                                  (change-Leaves _ (λ c. left refl refl))
                                  (λ _. Frames-return unread true))))))))))

  pub advance-Leaves : (m : Message) → Leaves (advance w m)
  unfolding advance
  advance-Leaves m =
      Frames-bind unread (through w (advance_handshake w.engine m.payload)) _
        (Unread-Aside _ (through-Frames (advance_handshake w.engine m.payload)))
        (λ records.
          Frames-bind unread (lift (if length records == 0 then ok [] else wrap_handshake records))
            _ (Frames-lift unread _)
            (λ packets. Frames-bind unread (queue w packets) _ (queue-Leaves packets) (λ _.
              Frames-read unread _ (λ c.
                Frames-bind unread (assert_some c.tunnel) _ (Frames-assert_some unread c.tunnel)
                  (λ tunnel.
                    Frames-bind unread (if tunnel.complete then enter w expect_login else return tt)
                      (λ _. return true)
                      (Frames-if unread tunnel.complete (enter w expect_login) (return tt)
                        (enter-Leaves expect_login) (Frames-return unread tt))
                      (λ _. Frames-return unread true))))))

  finish_login-Leaves : Leaves (finish_login w)
  unfolding finish_login
  finish_login-Leaves =
      Frames-bind unread (modify (take_session_id w)) _
        (change-Leaves (take_session_id w) (λ c. left refl refl))
        (λ _. Frames-read unread _ (λ c.
          Frames-bind unread (lift (login_response (login_answer w c.tds_version))) _
            (Frames-lift unread _)
            (λ payload.
              Frames-bind unread (send w payload 1) (λ _. enter w ready) (send-Leaves payload 1)
                (λ _. enter-Leaves ready))))

  answer_sql_login-Leaves : (l : Login7) → Leaves (answer_sql_login w l)
  unfolding answer_sql_login
  answer_sql_login-Leaves l =
      Frames-bind unread (lift (deobfuscate_password l.password)) _ (Frames-lift unread _)
        (λ password.
          Frames-bind unread (lift (admits w l.user_name password)) _ (Frames-lift unread _)
            (λ admitted.
              Frames-if unread admitted _ _
                (Frames-bind unread (finish_login w) (λ _. return true) finish_login-Leaves
                  (λ _. Frames-return unread true))
                (Frames-read unread _ (λ c.
                  Frames-bind unread
                    (lift (error_response (login_refusal w.server_name l.user_name) c.tds_version))
                    _ (Frames-lift unread _)
                    (λ payload.
                      Frames-bind unread (send w payload 1) (λ _. enter w failed >> return true)
                        (send-Leaves payload 1)
                        (λ _.
                          Frames-bind unread (enter w failed) (λ _. return true)
                            (enter-Leaves failed) (λ _. Frames-return unread true)))))))

  exchange-Leaves : (token : Bytes) → Leaves (exchange w token)
  unfolding exchange
  exchange-Leaves token = Frames-read unread _ (λ c.
      Frames-bind unread (assert_some c.acceptor) _ (Frames-assert_some unread c.acceptor)
        (λ acceptor.
          Frames-bind unread (modify (hold w ((Auth.step w.provider token acceptor).1))) _
            (change-Leaves (hold w ((Auth.step w.provider token acceptor).1)) (λ d. left refl refl))
            (λ _.
              Frames-bind unread (lift ((Auth.step w.provider token acceptor).0)) _
                (Frames-lift unread _)
                (λ result.
                  Frames-bind unread (pass_on w result) (λ _. return result.complete)
                    (Unread-Aside (pass_on w result) (pass_on-Frames result))
                    (λ _. Frames-return unread result.complete)))))

  settle-Leaves :
      (complete : Bool) (other : Effect (Connection w) (Unit {0}))
      → Leaves other
      → Leaves ((if complete then finish_login w else other) >> return true)
  settle-Leaves complete other h =
      Frames-bind unread (if complete then finish_login w else other) (λ _. return true)
        (Frames-if unread complete (finish_login w) other finish_login-Leaves h)
        (λ _. Frames-return unread true)

  pub answer_login-Leaves : (m : Message) → Leaves (answer_login w m)
  unfolding answer_login
  answer_login-Leaves m =
      Frames-bind unread (expect_type login7 m) _ (expect_type-Leaves login7 m) (λ _.
        Frames-bind unread (lift (Login.parse m.payload)) _ (Frames-lift unread _) (λ l.
          Frames-bind unread (modify (arrived w l)) _
            (change-Leaves (arrived w l) (λ c. left refl refl))
            (λ _.
              Frames-if unread (uses_integrated_auth l) _ (answer_sql_login w l)
                (Frames-bind unread (lift (new_acceptor w.provider)) _ (Frames-lift unread _)
                  (λ acceptor.
                    Frames-bind unread (modify (hold w acceptor)) _
                      (change-Leaves (hold w acceptor) (λ c. left refl refl))
                      (λ _.
                        Frames-bind unread (exchange w l.sspi) _ (exchange-Leaves l.sspi)
                          (λ complete.
                            settle-Leaves complete (enter w expect_sspi)
                              (enter-Leaves expect_sspi)))))
                (answer_sql_login-Leaves l))))

  pub answer_sspi-Leaves : (m : Message) → Leaves (answer_sspi w m)
  unfolding answer_sspi
  answer_sspi-Leaves m = Frames-bind unread (expect_type sspi m) _ (expect_type-Leaves sspi m) (λ _.
      Frames-bind unread (exchange w m.payload) _ (exchange-Leaves m.payload)
        (λ complete. settle-Leaves complete (return tt) (Frames-return unread tt)))
