-- ===== src/Auth/Accepted.antt =====
-- When the exchange is complete.
use py_sqlbridge.Prelude.{◌≡◌, refl, Bool, true, false, ◌==◌, length, if◌then◌else◌}
use py_sqlbridge.Py.Result.{ok, err, auth_error}
use py_sqlbridge.Py.Bytes.{Bytes}
use py_sqlbridge.Auth.{
  Authorized, sec_e_ok, sec_i_continue_needed, unexpected_status, refused, Provider, AuthResult,
  SspiAcceptor, authorized, step,
}

module _ (p : Provider) where
  -- The security package has said of a token that it authenticates.
  pub record IsAccepted (a : SspiAcceptor p) : Type 0 where
    pub before : p.Context
    pub token : Bytes
    pub reply : Bytes
    pub says : p.authorize before token ≡ (sec_e_ok reply, a.auth)

  authorized-IsAccepted :
      (token : Bytes) (a : SspiAcceptor p) (context : p.Context) (x : Authorized × p.Context)
      {r : AuthResult}
      → a.complete ≡ false
      → p.authorize context token ≡ x
      → (authorized p x a).0 ≡ ok r
      → r.complete ≡ true
      → IsAccepted ((authorized p x a).1)
  authorized-IsAccepted token a context (sec_e_ok reply, auth) h e hr hc = record {
    before = context;
    token = token;
    reply = reply;
    says = e;
  }
  authorized-IsAccepted token a context (sec_i_continue_needed reply, auth) h e hr hc = cc
  authorized-IsAccepted token a context (unexpected_status, auth) h e hr hc = cc
  authorized-IsAccepted token a context (refused, auth) h e hr hc = cc

  guarded-IsAccepted :
      (done empty : Bool) (token : Bytes) (a : SspiAcceptor p) {r : AuthResult}
      → a.complete ≡ done
      → let out =
          if done
          then (err auth_error, a)
          else if empty
          then (err auth_error, a)
          else authorized p (p.authorize a.auth token) a in
        out.0 ≡ ok r → r.complete ≡ true → IsAccepted (out.1)
  guarded-IsAccepted true empty token a h hr hc = cc
  guarded-IsAccepted false true token a h hr hc = cc
  guarded-IsAccepted false false token a h hr hc =
      authorized-IsAccepted token a a.auth (p.authorize a.auth token) h refl hr hc

  pub step-IsAccepted :
      (token : Bytes) (a : SspiAcceptor p) {r : AuthResult}
      → (step p token a).0 ≡ ok r
      → r.complete ≡ true
      → IsAccepted ((step p token a).1)
  unfolding step
  step-IsAccepted token a hr hc =
      guarded-IsAccepted a.complete (length token == 0) token a refl hr hc
