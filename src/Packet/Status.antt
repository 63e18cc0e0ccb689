-- ===== src/Packet/Status.antt =====
-- `PacketStatus` of src/pysqlbridge/tds/packet.py. An `IntFlag` keeps the bits that it does not
-- name, so a status is a number.
use py_sqlbridge.Prelude.{ℕ}

abbrev pub normal : ℕ
normal = 0x00

abbrev pub end_of_message : ℕ
end_of_message = 0x01

abbrev ignore : ℕ
ignore = 0x02

abbrev reset_connection : ℕ
reset_connection = 0x08

abbrev reset_connection_skip_tran : ℕ
reset_connection_skip_tran = 0x10
