-- ===== src/Connection/State.antt =====
-- What a connection keeps, and what it is handed when it is made.
use py_sqlbridge.Prelude.{ℕ, Bool, false, Option, none, List, []}
use py_sqlbridge.Py.Result.{Result}
use py_sqlbridge.Py.Bytes.{Bytes}
use py_sqlbridge.Py.Utf16.{Str}
pub use py_sqlbridge.Py.Dict.{Dict, same_text, dict_get, dict_set}
use py_sqlbridge.Versions.{tds_74}
use py_sqlbridge.Prelogin.{Options, Version, Encryption}
use py_sqlbridge.Login.{Login7}
use py_sqlbridge.Rpc.{Value}
use py_sqlbridge.ResultSet.Answer.{QueryFailure}
use py_sqlbridge.Tls.{Engine, Tunnel}
use py_sqlbridge.Auth.{Provider, SspiAcceptor}

pub data ConnectionState : Type 0 where
  expect_prelogin tls_handshake expect_login expect_sspi ready failed : ConnectionState

-- `Query`, with the session that the handler is handed beside it.
pub record Query : Type 0 where
  pub sql : Str
  pub parameters : Dict Value
  pub procedure : Option Str
  pub arguments : List Value

-- How a handler, or the encoding of its result, ends: it answers, it raises a `QueryError` with
-- the errors that follow it and the columns that it had declared, or it raises another exception,
-- of which the type's name and the text are kept.
pub data Answer (Column A : Type 0) : Type 0 where
  answered : A → Answer Column A
  query_error : QueryFailure → List QueryFailure → List Column → Answer Column A
  crashed : Str → Str → Answer Column A

-- What a connection is given: the TLS engine and the security package, the logins and the query
-- handler with the encoding of its result, the Python objects that the session's dictionary holds.
pub record World : Type 1 where
  pub engine : Engine
  pub provider : Provider
  pub Object : Type 0
  pub of_text : Option Str → Object
  pub is_none : Object → Bool
  pub Column : Type 0
  pub QueryResult : Type 0
  pub query_handler : Query → Dict Object → Answer Column QueryResult × Dict Object
  pub encode : QueryResult → ℕ → Str → Answer Column Bytes
  pub col_metadata : List Column → ℕ → Result Bytes
  pub logins : Option (Str → Str → Result Bool)
  pub version : Version
  pub encryption : Encryption
  pub server_name : Str
  pub database : Str
  pub reached_at : Option Str

module _ (w : World) where
  -- `responses` is the list that one call of `receive` queues its answers on, and `session_ids`
  -- the process's counter of session ids, which its connections share.
  pub record Connection : Type 0 where
    pub state : ConnectionState
    pub tunnel : Option (Tunnel w.engine)
    pub acceptor : Option (SspiAcceptor w.provider)
    pub buffer : Bytes
    pub plaintext : Bytes
    pub client_prelogin : Option Options
    pub login : Option Login7
    pub last_query : Option Str
    pub asked : ℕ
    pub session : Dict w.Object
    pub xact_descriptor : Option Bytes
    pub descriptor_counter : ℕ
    pub tds_version : ℕ
    pub spid : ℕ
    pub session_encrypted : Bool
    pub responses : List Bytes
    pub session_ids : ℕ

  -- A connection as `__init__` makes it.
  unfoldable pub new_connection : ℕ → Connection
  new_connection session_ids = record {
    state = expect_prelogin;
    tunnel = none;
    acceptor = none;
    buffer = [];
    plaintext = [];
    client_prelogin = none;
    login = none;
    last_query = none;
    asked = 0;
    session = [];
    xact_descriptor = none;
    descriptor_counter = 0;
    tds_version = tds_74;
    spid = 0;
    session_encrypted = false;
    responses = [];
    session_ids = session_ids;
  }
