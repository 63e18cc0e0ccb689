-- ===== src/Lib.antt =====
-- The wire protocol of pySQLbridge, a server that answers SQL Server clients from other data
-- sources. A client connects, the two agree on encryption (PRELOGIN), shake hands for TLS, the client
-- logs in (LOGIN7, with a password or through SSPI), and then sends batches, remote calls and
-- transaction requests, which a handler answers with result sets. Everything travels in packets, which are joined to
-- messages, and the server's answers are streams of tokens.
--
-- The files, and the code that they model (paths from the root of the repository):
--   Packet: src/pysqlbridge/tds/packet.py. Header, build_packet, build_message, iter_packets and
--     reassemble; next_session_id with the counter as its state. Status is PacketStatus.
--   Prelogin: src/pysqlbridge/tds/prelogin.py. The options as an association list in their order.
--   Versions: the version constants of packet.py and negotiate of token.py.
--   Batch: src/pysqlbridge/tds/batch.py. ALL_HEADERS and the text of a batch.
--   Transaction: src/pysqlbridge/tds/transaction.py, and _transaction_statement of connection.py.
--   Login: src/pysqlbridge/tds/login.py. LOGIN7 and the scrambling of its passwords.
--   Token: src/pysqlbridge/tds/token.py. The tokens; Token/Walk is a client that steps over them,
--     and Token/Changes one that reads the ENVCHANGE tokens.
--   Rpc: src/pysqlbridge/tds/rpc.py. A remote call and the values of its parameters.
--   ResultSet: src/pysqlbridge/tds/result.py. Types has the column types and their encoders, over Python
--     objects whose conversions are a parameter (Objects), Rows the columns and the rows, Answer
--     result_set. Client and Items are a client that reads what is declared.
--   Precedence: src/pysqlbridge/precedence.py. The type of a column that several branches of a union
--     give values to; Convert takes the cast of predicate.py as a parameter.
--   Logins: src/pysqlbridge/logins.py. The accounts and the store; hashlib, base64 and str.lower are
--     a parameter.
--   Tls: src/pysqlbridge/tds/tls.py. TlsTunnel, over an engine that is a parameter (an SSLObject with
--     its MemoryBIOs), and wrap_handshake.
--   Auth: SspiAcceptor of src/pysqlbridge/auth.py, over a security package that is a parameter, whose
--     loading can raise.
--   Connection: src/pysqlbridge/tds/connection.py. State has the connection's fields and what it is
--     handed (World: the engine, the package, the logins, the handler and the encoding of its
--     result), Transport takes messages and queues answers, Handshake has the steps up to the login,
--     Call what a request asks the handler, Query the answers of a logged-in connection, Receive the
--     loop of receive, and Transactions the ledger that a session keeps.
--   Prelude and Py: lists and numbers; Python's bytes, str, struct fields, UTF-16 and exceptions.
--
-- Bytes are lists of numbers and texts are lists of code points. A call that raises is a Result that
-- carries the exception's class; messages of exceptions, and logging, are left out. A method of the
-- connection is an Effect: it takes the object to a Result and the object as it was left, so that
-- what was assigned before an exception stays assigned.
--
-- Loops over a buffer run on fuel. iter_packets gets one more than the stream's length, which is
-- enough since every packet takes eight bytes at least. parse of PRELOGIN and the two loops of Rpc
-- get the payload's length in the same way: an entry of the table takes five bytes, a chunk four at
-- least, and a parameter one at least. The loop of receive takes its fuel as an argument, and
-- gives nothing when it runs out: every round takes bytes that arrived, or bytes that were decrypted,
-- so from some number of rounds on it has ended. read_items, the client's reading of an answer, is
-- enough with as many as the answer has tokens.
--
-- Not modelled: the SQL engine and the data sources behind the handler (of predicate.py, the ranges of
-- the integer types alone), sockets and threads (server.py), the reading of the configuration, and the
-- keys of the certificate. The connection takes the encoding of results as a parameter, because what
-- it tells a client of an encoding that fails is the text of an exception. The handler is a function
-- of the query and the session, a float is kept as its bytes, and the numbers of an error are not
-- negative. Python's floating point stands in parameters (the ticks of a datetime, the packing of a
-- float), and so does str.lower beyond ASCII.
pub mod Prelude
pub mod Py
pub mod Packet
pub mod Prelogin
pub mod Versions
pub mod Batch
pub mod Transaction
pub mod Login
pub mod Token
pub mod ResultSet
pub mod Precedence
pub mod Logins
pub mod Rpc
pub mod Tls
pub mod Auth
pub mod Connection
