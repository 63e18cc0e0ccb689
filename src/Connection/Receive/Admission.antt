-- ===== src/Connection/Receive/Admission.antt =====
-- Admission of a connection, and the steps that finish a login.
use py_sqlbridge.Prelude.{◌≡◌, refl, sym, ◌∙◌, Bool, true, some, ◌⊎◌, inl, inr}
use py_sqlbridge.Py.Result.{ok}
use py_sqlbridge.Py.Bytes.{Bytes}
use py_sqlbridge.Py.Utf16.{Str}
use py_sqlbridge.Py.Effect.{◌>>◌, return, lift}
use py_sqlbridge.Py.Effect.Post.{
  Hoare, Hoare-bind, Hoare-lift, Hoare-read, Hoare-modify, Hoare-if, Hoare-return,
}
use py_sqlbridge.Login.{Login7, deobfuscate_password}
use py_sqlbridge.Token.{login_response, error_response, sspi_token}
use py_sqlbridge.Auth.{AuthResult, SspiAcceptor}
use py_sqlbridge.Auth
use py_sqlbridge.Auth.Accepted.{IsAccepted, step-IsAccepted}
use py_sqlbridge.Connection.State.{ready, failed, World, Connection}
use py_sqlbridge.Connection.Transport.{send}
use py_sqlbridge.Connection.Handshake.{
  admits, finish_login, answer_sql_login, exchange, take_session_id, login_answer, enter,
  login_refusal, pass_on, hold,
}
use py_sqlbridge.Py.Effect.Frame.{
  Frames, Frames-return, Frames-lift, Frames-if, Frames-bind, Hoare-Frames,
}
use py_sqlbridge.Connection.Receive.Frame.{
  Same, Aside, Same-Aside, aside, send-Frames, Hoare-assert_some,
}

module _ (w : World) where
  -- The logins have admitted the user and the password that the client's LOGIN7 carries.
  pub record HasPassword (c : Connection w) : Type 0 where
    pub login : Login7
    pub password : Str
    pub arrived : c.login ≡ some login
    pub reads : deobfuscate_password login.password ≡ ok password
    pub admitted : admits w login.user_name password ≡ ok true

  -- The security package has authenticated the client.
  pub record HasToken (c : Connection w) : Type 0 where
    pub acceptor : SspiAcceptor w.provider
    pub holds : c.acceptor ≡ some acceptor
    pub accepted : IsAccepted w.provider acceptor

  abbrev pub IsAdmitted : Connection w → Type 0
  IsAdmitted c = HasPassword c ⊎ HasToken c

  -- A connection that is ready is admitted.
  unfoldable pub IsSafe : Connection w → Type 0
  IsSafe c = c.state ≡ ready → IsAdmitted c

  abbrev pub IsWaiting : Connection w → Type 0
  IsWaiting c = c.state ≡ ready → ⊥

module _ {w : World} where
  -- Admission is a matter of the login and the acceptor.
  IsAdmitted-kept :
      (c d : Connection w)
      → d.login ≡ c.login
      → d.acceptor ≡ c.acceptor
      → IsAdmitted w c
      → IsAdmitted w d
  IsAdmitted-kept c d l a (inl h) = inl (record {
    login = h.login;
    password = h.password;
    arrived = l ∙ h.arrived;
    reads = h.reads;
    admitted = h.admitted;
  })
  IsAdmitted-kept c d l a (inr h) =
      inr (record { acceptor = h.acceptor; holds = a ∙ h.holds; accepted = h.accepted })

  pub IsAdmitted-Same : (c d : Connection w) → Same c d → IsAdmitted w c → IsAdmitted w d
  IsAdmitted-Same c d s h = IsAdmitted-kept c d s.login s.acceptor h

  pub IsSafe-Same : (c d : Connection w) → Same c d → IsSafe w c → IsSafe w d
  unfolding IsSafe
  IsSafe-Same c d s h e = IsAdmitted-Same c d s (h (sym s.state ∙ e))

  pub IsWaiting-Same : (c d : Connection w) → Same c d → IsWaiting w c → IsWaiting w d
  IsWaiting-Same c d s h e = h (sym s.state ∙ e)

module _ {w : World} where
  finish_login-IsSafe : Hoare (IsAdmitted w) (finish_login w) (λ _ d. IsSafe w d)
  unfolding finish_login IsSafe
  finish_login-IsSafe =
      Hoare-modify (IsAdmitted w) (take_session_id w) _
        (λ c h. IsAdmitted-kept c (take_session_id w c) refl refl h)
        (Hoare-read _ (λ c.
          Hoare-lift (login_response (login_answer w c.tds_version)) _ (λ payload e.
            Hoare-bind (λ _ d. IsAdmitted w d) (send w payload 1) (λ _. enter w ready)
              (Hoare-Frames (IsAdmitted w) Same _ IsAdmitted-Same
                (Same-Aside _ (send-Frames payload 1)))
              (λ _. record { run = λ d k e. IsAdmitted-kept d _ refl refl k }))))

  pub IsSafe-waiting : (c : Connection w) → IsWaiting w c → IsSafe w c
  unfolding IsSafe
  IsSafe-waiting c h e = absurd (h e)

  pub finish-IsSafe :
      {P : Connection w → Type 0}
      → ((c : Connection w) → P c → IsAdmitted w c)
      → Hoare P (finish_login w >> return true) (λ _ d. IsSafe w d)
  finish-IsSafe h =
      Hoare-bind (λ _ d. IsSafe w d) (finish_login w) (λ _. return true)
        (record { run = λ c p. finish_login-IsSafe.run c (h c p) })
        (λ _. Hoare-return true (λ c k. k))

  -- A refusal fails the connection.
  pub answer_sql_login-IsSafe :
      (l : Login7)
      → Hoare (λ c. (c.login ≡ some l) × IsWaiting w c) (answer_sql_login w l) (λ _ d. IsSafe w d)
  unfolding answer_sql_login IsSafe
  answer_sql_login-IsSafe l = Hoare-lift (deobfuscate_password l.password) _ (λ password e.
      Hoare-lift (admits w l.user_name password) _ (λ admitted a.
        Hoare-if admitted _ _
          (λ yes_. finish-IsSafe (λ c h. inl (record {
            login = l;
            password = password;
            arrived = h.0;
            reads = e;
            admitted = rw yes_ at a;
          })))
          (λ no_. Hoare-read _ (λ c.
            Hoare-lift (error_response (login_refusal w.server_name l.user_name) c.tds_version) _
              (λ payload e'.
                Hoare-bind (λ _ d. IsWaiting w d) (send w payload 1)
                  (λ _. enter w failed >> return true)
                  (record {
                    run = λ d h.
                        (Hoare-Frames (IsWaiting w) Same _ IsWaiting-Same
                            (Same-Aside _ (send-Frames payload 1))).run
                          d (h.1);
                  })
                  (λ _. record { run = λ d k e. cc }))))))

  pub pass_on-Frames : (result : AuthResult) → Frames Aside (pass_on w result)
  pass_on-Frames result =
      Frames-if aside _ _ (return tt)
        (Frames-bind aside (lift (sspi_token result.token)) _
          (Frames-lift aside (sspi_token result.token)) (λ payload. send-Frames payload 0))
        (Frames-return aside tt)

  -- A round that completes has the client authenticated.
  abbrev pub Exchanged : Bool → Connection w → Type 0
  Exchanged complete c = IsWaiting w c × (complete ≡ true → IsAdmitted w c)

  pub exchange-Exchanged : (token : Bytes) → Hoare (IsWaiting w) (exchange w token) Exchanged
  unfolding exchange
  exchange-Exchanged token = Hoare-read _ (λ c. Hoare-assert_some c.acceptor _ (λ acceptor.
      Hoare-modify
        (λ d. IsWaiting w d × (d.acceptor ≡ some ((Auth.step w.provider token acceptor).1)))
        (hold w ((Auth.step w.provider token acceptor).1)) _ (λ d h. (h, refl))
        (Hoare-lift ((Auth.step w.provider token acceptor).0) _ (λ result e.
          Hoare-bind (λ _ d. Exchanged result.complete d) (pass_on w result)
            (λ _. return result.complete)
            (record {
              run = λ d h.
                  (Hoare-Frames (Exchanged result.complete) Same (pass_on w result)
                      (λ x y s k.
                        (IsWaiting-Same x y s (k.0), λ done_. IsAdmitted-Same x y s (k.1 done_)))
                      (Same-Aside _ (pass_on-Frames result))).run
                    d
                    (
                      h.0,
                      λ done_. inr (record {
                        acceptor = (Auth.step w.provider token acceptor).1;
                        holds = h.1;
                        accepted = step-IsAccepted w.provider token acceptor e done_;
                      }),
                    );
            })
            (λ _. Hoare-return result.complete (λ d h. h))))))
