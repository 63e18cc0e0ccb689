-- ===== src/Auth.antt =====
-- src/pysqlbridge/auth.py: the server's half of the Windows authentication exchange. The security
-- provider of pywin32 is a parameter.
pub mod Accepted
use py_sqlbridge.Prelude.{Bool, true, false, Option, none, some, [], length, ◌==◌, if◌then◌else◌}
use py_sqlbridge.Py.Result.{Result, ok, err, auth_error, ◌>>=◌}
use py_sqlbridge.Py.Bytes.{Bytes}
use py_sqlbridge.Py.Utf16.{Str}
use py_sqlbridge.Py.Effect.{Effect}

-- What `authorize` answers: a status and the token to send back, or an exception.
pub data Authorized : Type 0 where
  sec_e_ok sec_i_continue_needed : Bytes → Authorized
  unexpected_status refused : Authorized

-- `fresh` is `_new_server_auth`, which raises where the package is not there, and `names`
-- `QueryContextAttributes`, none where it raises.
pub record Provider : Type 1 where
  pub Context : Type 0
  pub fresh : Result Context
  pub authorize : Context → Bytes → Authorized × Context
  pub names : Context → Option Str

pub record AuthResult : Type 0 where
  pub token : Bytes
  pub complete : Bool

module _ (provider : Provider) where
  pub record SspiAcceptor : Type 0 where
    pub auth : provider.Context
    pub complete : Bool

  abbrev pub new_acceptor : Result SspiAcceptor
  new_acceptor = provider.fresh >>= λ auth. ok (record { auth = auth; complete = false })

  abbrev pub authorized : Authorized × provider.Context → Effect SspiAcceptor AuthResult
  authorized (sec_e_ok token, auth) a =
      (ok (record { token = token; complete = true }), record { auth = auth; complete = true })
  authorized (sec_i_continue_needed token, auth) a =
      (ok (record { token = token; complete = a.complete }), record a { auth = auth })
  authorized (unexpected_status, auth) a = (err auth_error, record a { auth = auth })
  authorized (refused, auth) a = (err auth_error, record a { auth = auth })

  unfoldable pub step : Bytes → Effect SspiAcceptor AuthResult
  step token a =
      if a.complete
      then (err auth_error, a)
      else if length token == 0
      then (err auth_error, a)
      else authorized (provider.authorize a.auth token) a

  abbrev pub username : SspiAcceptor → Option Str
  username a = if a.complete then provider.names a.auth else none
