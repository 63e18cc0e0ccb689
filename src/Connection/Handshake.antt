-- ===== src/Connection/Handshake.antt =====
-- The steps that lead to a login: PRELOGIN, the TLS handshake, LOGIN7 and the SSPI exchange.
use py_sqlbridge.Prelude.{
  ℕ, ◌==◌, ◌&&◌, Bool, true, false, not, Option, none, some, [], ◌∷◌, ◌++◌, length, if◌then◌else◌,
}
use py_sqlbridge.Py.Result.{Result, ok, protocol_error}
use py_sqlbridge.Py.Bytes.{Bytes}
use py_sqlbridge.Py.Utf16.{Str}
use py_sqlbridge.Py.Text.{text}
use py_sqlbridge.Py.Effect.{Effect, ◌>>=◌, ◌>>◌, return, raise, lift, modify, read}
use py_sqlbridge.Versions.{negotiate}
use py_sqlbridge.Packet.{
  PacketType, type_byte, Message, build_packet, default_packet_size, next_session_id,
  tabular_result, prelogin, login7, sspi,
}
use py_sqlbridge.Packet.Status.{end_of_message}
use py_sqlbridge.Prelogin.{
  Options, Encryption, off, on, not_supported, required, encryption_of, server_response, build,
}
use py_sqlbridge.Prelogin
use py_sqlbridge.Login.{Login7, uses_integrated_auth, deobfuscate_password}
use py_sqlbridge.Login
use py_sqlbridge.Token.{
  Notice, LoginAnswer, error_response, login_response, sspi_token, default_collation,
}
use py_sqlbridge.Tls.{new_tunnel, advance_handshake, wrap_handshake}
use py_sqlbridge.Auth.{AuthResult, SspiAcceptor, new_acceptor}
use py_sqlbridge.Auth
use py_sqlbridge.Connection.State.{
  ConnectionState, tls_handshake, expect_login, expect_sspi, ready, failed, World, Connection,
}
use py_sqlbridge.Connection.Transport.{
  assert_some, given, through, decrypt, take_clear, take_plain, take_message, queue, send,
}

abbrev login_failed : ℕ
login_failed = 18456

abbrev login_failed_severity : ℕ
login_failed_severity = 14

abbrev pub same_type : PacketType → PacketType → Bool
same_type a b = type_byte a == type_byte b

abbrev pub expect_type : {S : Type 0} → PacketType → Message → Effect S (Unit {0})
expect_type type m = if same_type m.type type then return tt else raise protocol_error

-- A test of the encryption that a client asked for.
abbrev asks_encryption : Option Encryption → Bool
asks_encryption (some on) = true
asks_encryption (some required) = true
asks_encryption _ = false

abbrev is_on : Encryption → Bool
is_on on = true
is_on _ = false

abbrev is_required : Encryption → Bool
is_required required = true
is_required _ = false

-- The error that a refused login is answered with.
abbrev pub login_refusal : Str → Str → Notice
login_refusal server user = record {
  number = login_failed;
  message = text "Login failed for user '" ++ (user ++ text "'.");
  state = 1;
  severity = login_failed_severity;
  server = server;
  procedure = [];
  line = 1;
}

module _ (w : World) where
  abbrev pub enter : ConnectionState → Effect (Connection w) (Unit {0})
  enter state = modify (λ c. record c { state = state })

  pub negotiate_encryption : Option Encryption → Encryption
  negotiate_encryption requested =
      if is_required w.encryption then on else if asks_encryption requested then on else off

  abbrev pub said : Options → Connection w → Connection w
  said asked c = record c { client_prelogin = some asked }

  abbrev pub agree : Encryption → Connection w → Connection w
  agree agreed c = record c { session_encrypted = is_on agreed }

  abbrev pub open_tunnel : Connection w → Connection w
  open_tunnel c = record c { tunnel = some (new_tunnel w.engine); state = tls_handshake }

  -- The answer to a PRELOGIN message.
  unfoldable pub answer_prelogin : Message → Effect (Connection w) Bool
  unfolding negotiate_encryption
  answer_prelogin m = do
    expect_type prelogin m
    asked ← lift (Prelogin.parse m.payload)
    modify (said asked)
    requested ← lift (encryption_of asked)
    let agreed = negotiate_encryption requested
    modify (agree agreed)
    response ← lift (server_response w.version agreed false (some asked))
    built ← lift (build response)
    packet ← lift (build_packet tabular_result built end_of_message 0 1 0)
    queue w (packet ∷ [])
    modify open_tunnel
    return true

  unfoldable pub step_prelogin : Effect (Connection w) Bool
  unfolding answer_prelogin
  step_prelogin = do message ← take_clear w; given message false answer_prelogin

  unfoldable pub advance : Message → Effect (Connection w) Bool
  advance m = do
    records ← through w (advance_handshake w.engine m.payload)
    packets ← lift (if length records == 0 then ok [] else wrap_handshake records)
    queue w packets
    c ← read
    tunnel ← assert_some c.tunnel
    if tunnel.complete then enter expect_login else return tt
    return true

  unfoldable pub step_handshake : Effect (Connection w) Bool
  unfolding advance
  step_handshake = do
    c ← read
    tunnel ← assert_some c.tunnel
    message ← take_clear w
    given message false advance

  -- The next session id of the process.
  abbrev pub take_session_id : Connection w → Connection w
  take_session_id c =
      let (spid, session_ids) = next_session_id c.session_ids in
      record c { spid = spid; session_ids = session_ids }

  abbrev pub login_answer : ℕ → LoginAnswer
  login_answer tds_version = record {
    major = w.version.major;
    minor = w.version.minor;
    build = w.version.build;
    server_name = w.server_name;
    database_name = w.database;
    language_name = text "us_english";
    size = default_packet_size;
    collation = default_collation;
    tds_version = tds_version;
  }

  -- `_finish_login`
  unfoldable pub finish_login : Effect (Connection w) (Unit {0})
  finish_login = do
    modify take_session_id
    c ← read
    payload ← lift (login_response (login_answer c.tds_version))
    send w payload 1
    enter ready

  -- The logins may raise.
  abbrev pub admits : Str → Str → Result Bool
  admits user password = elim w.logins [ none ↦ ok false | some knows ↦ knows user password ]

  -- `_answer_sql_login`
  unfoldable pub answer_sql_login : Login7 → Effect (Connection w) Bool
  unfolding finish_login
  answer_sql_login login = do
    password ← lift (deobfuscate_password login.password)
    admitted ← lift (admits login.user_name password)
    if admitted then (do finish_login; return true) else do
      c ← read
      payload ← lift (error_response (login_refusal w.server_name login.user_name) c.tds_version)
      send w payload 1
      enter failed
      return true

  abbrev pub hold : SspiAcceptor w.provider → Connection w → Connection w
  hold acceptor c = record c { acceptor = some acceptor }

  abbrev pub pass_on : AuthResult → Effect (Connection w) (Unit {0})
  pass_on result =
      if not (length result.token == 0) && not result.complete
      then (do payload ← lift (sspi_token result.token); send w payload 0)
      else return tt

  -- A round of the SSPI exchange: the acceptor's state and the token that goes back, which is not
  -- sent with the round that completes.
  unfoldable pub exchange : Bytes → Effect (Connection w) Bool
  exchange token = do
    c ← read
    acceptor ← assert_some c.acceptor
    let (r, acceptor') = Auth.step w.provider token acceptor
    modify (hold acceptor')
    result ← lift r
    pass_on result
    return result.complete

  -- What the connection keeps of a LOGIN7.
  abbrev pub arrived : Login7 → Connection w → Connection w
  arrived login c = record c { login = some login; tds_version = negotiate login.tds_version }

  unfoldable pub answer_login : Message → Effect (Connection w) Bool
  unfolding answer_sql_login exchange finish_login
  answer_login m = do
    expect_type login7 m
    login ← lift (Login.parse m.payload)
    modify (arrived login)
    if uses_integrated_auth login
        then (do
          acceptor ← lift (new_acceptor w.provider)
          modify (hold acceptor)
          complete ← exchange login.sspi
          if complete then finish_login else enter expect_sspi
          return true)
        else answer_sql_login login

  unfoldable pub step_login : Effect (Connection w) Bool
  unfolding answer_login
  step_login = do
    c ← read
    tunnel ← assert_some c.tunnel
    let moved = not (length c.buffer == 0)
    if moved then decrypt w else return tt
    message ← take_plain w
    given message moved answer_login

  unfoldable pub answer_sspi : Message → Effect (Connection w) Bool
  unfolding exchange finish_login
  answer_sspi m = do
    expect_type sspi m
    complete ← exchange m.payload
    if complete then finish_login else return tt
    return true

  unfoldable pub step_sspi : Effect (Connection w) Bool
  unfolding answer_sspi
  step_sspi = do
    c ← read
    acceptor ← assert_some c.acceptor
    message ← take_message w
    given message false answer_sspi
