-- ===== src/Connection.antt =====
-- src/pysqlbridge/tds/connection.py: one client connection as a state machine over bytes.
pub mod State
pub mod Transport
pub mod Handshake
pub mod Call
pub mod Query
pub mod Transactions
pub mod Receive
mod Tests
