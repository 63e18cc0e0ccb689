-- ===== src/Packet.antt =====
-- src/pysqlbridge/tds/packet.py: the header, splitting a payload across packets, and reassembly.
pub mod Status
pub mod Header
pub mod Session
pub mod Framing
pub mod RoundTrip
pub mod Prefix
pub mod Progress
mod Tests
use Status
use mathlib.Core.List.{reverse}
use py_sqlbridge.Prelude.{
  ℕ, zero, suc, ◌+◌, ◌-◌, ◌%◌, Bool, true, false, Option, none, some, List, [], ◌∷◌, ◌++◌, leb, ltb,
  ◌==◌, length, drop, if◌then◌else◌,
}
use py_sqlbridge.Py.Result.{
  Exc, Result, ok, err, protocol_error, value_error, out_of_fuel, ◌>>=◌, ◌>>◌, raise_if,
}
use py_sqlbridge.Py.Bytes.{Bytes, slice, or_raise, pack_be, unpack_be}

abbrev pub header_size : ℕ
header_size = 8

abbrev pub max_packet_size : ℕ
max_packet_size = 0xffff

abbrev pub default_packet_size : ℕ
default_packet_size = 4096

pub data PacketType : Type 0 where
  sql_batch rpc tabular_result attention bulk_load transaction_manager login7 sspi prelogin :
      PacketType

abbrev pub type_byte : PacketType → ℕ
type_byte sql_batch = 0x01
type_byte rpc = 0x03
type_byte tabular_result = 0x04
type_byte attention = 0x06
type_byte bulk_load = 0x07
type_byte transaction_manager = 0x0e
type_byte login7 = 0x10
type_byte sspi = 0x11
type_byte prelogin = 0x12

-- `PacketType(raw)`, which raises for a value that no member has.
abbrev pub packet_type : ℕ → Option PacketType
packet_type b =
    if b == 0x01
    then some sql_batch
    else if b == 0x03
    then some rpc
    else if b == 0x04
    then some tabular_result
    else if b == 0x06
    then some attention
    else if b == 0x07
    then some bulk_load
    else if b == 0x0e
    then some transaction_manager
    else if b == 0x10
    then some login7
    else if b == 0x11
    then some sspi
    else if b == 0x12
    then some prelogin
    else none

pub record PacketHeader : Type 0 where
  pub type : PacketType
  pub status : ℕ
  pub length : ℕ
  pub spid : ℕ
  pub packet_id : ℕ
  pub window : ℕ

abbrev payload_length : PacketHeader → ℕ
payload_length h = h.length - header_size

-- `status & END_OF_MESSAGE`, the lowest bit.
abbrev pub is_end_of_message : PacketHeader → Bool
is_end_of_message h = h.status % 2 == 1

unfoldable pub parse_header : Bytes → Result PacketHeader
parse_header bytes = do
  raise_if (ltb (length bytes) header_size) protocol_error
  raw_type ← unpack_be 1 bytes 0
  raw_status ← unpack_be 1 bytes 1
  declared ← unpack_be 2 bytes 2
  spid ← unpack_be 2 bytes 4
  packet_id ← unpack_be 1 bytes 6
  window ← unpack_be 1 bytes 7
  type ← or_raise protocol_error (packet_type raw_type)
  raise_if (ltb declared header_size) protocol_error
  ok (record {
    type = type;
    status = raw_status;
    length = declared;
    spid = spid;
    packet_id = packet_id;
    window = window;
  })

abbrev pub first_session_id : ℕ
first_session_id = 51

abbrev pub max_session_id : ℕ
max_session_id = 0xffff

-- The state is what `itertools.count(FIRST_SESSION_ID)` gives next.
unfoldable pub next_session_id : ℕ → ℕ × ℕ
next_session_id given = (
  if leb given max_session_id
      then given
      else first_session_id + (given - first_session_id) % (max_session_id - first_session_id + 1),
  given + 1,
)

-- `_HEADER.pack`
unfoldable pub pack_header : PacketType → ℕ → ℕ → ℕ → ℕ → ℕ → Result Bytes
pack_header type status declared spid packet_id window = do
  a ← pack_be 1 (type_byte type)
  b ← pack_be 1 status
  c ← pack_be 2 declared
  d ← pack_be 2 spid
  e ← pack_be 1 packet_id
  f ← pack_be 1 window
  ok (a ++ (b ++ (c ++ (d ++ (e ++ f)))))

unfoldable pub build_packet : PacketType → Bytes → ℕ → ℕ → ℕ → ℕ → Result Bytes
build_packet type payload status spid packet_id window = do
  let declared = header_size + length payload
  raise_if (ltb max_packet_size declared) value_error
  header ← pack_header type status declared spid packet_id window
  ok (header ++ payload)

-- `[payload[i:i + body] for i in range(0, len(payload), body)]`, from `i` on, with fuel.
pub chunks_from : ℕ → Bytes → ℕ → ℕ → List Bytes
chunks_from zero payload body i = []
chunks_from (suc fuel) payload body i =
    let rest = chunks_from fuel payload body (i + body) in
    if ltb i (length payload) then slice payload i (i + body) ∷ rest else []

-- `... or [b""]`
pub or_empty : List Bytes → List Bytes
or_empty [] = [] ∷ []
or_empty (c ∷ cs) = c ∷ cs

-- The loop of `build_message` over the chunks that are left.
build_packets : PacketType → ℕ → ℕ → ℕ → ℕ → List Bytes → Result (List Bytes)
build_packets type spid start count index [] = ok []
build_packets type spid start count index (chunk ∷ chunks) = do
  let last = index == count - 1
  packet ←
      build_packet type chunk (if last then Status.end_of_message else Status.normal) spid
        ((start + index) % 256) 0
  packets ← build_packets type spid start count (index + 1) chunks
  ok (packet ∷ packets)

unfoldable pub build_message : PacketType → Bytes → ℕ → ℕ → ℕ → Result (List Bytes)
unfolding chunks_from or_empty build_packets
build_message type payload packet_size spid packet_id_start = do
  raise_if (leb packet_size header_size) value_error
  raise_if (ltb max_packet_size packet_size) value_error
  let body = packet_size - header_size
  let chunks = or_empty (chunks_from (length payload) payload body 0)
  build_packets type spid packet_id_start (length chunks) 0 chunks

-- What a generator gives, one packet after the other: the consumer asks for the rest, or does not.
pub data Packets : Type 0 where
  stop : Packets
  raised : Exc → Packets
  yield_packet : PacketHeader → Bytes → Packets → Packets

-- `iter_packets` from `offset` on, with fuel for the packets that are left.
pub iter_from : ℕ → Bytes → ℕ → Packets
iter_from zero stream offset = raised out_of_fuel
iter_from (suc fuel) stream offset =
    let go = λ (h : PacketHeader).
      let end = offset + h.length in
      let rest = iter_from fuel stream end in
      if ltb (length stream) end
      then stop
      else yield_packet h (slice stream (offset + header_size) end) rest in
    if leb (offset + header_size) (length stream)
    then elim (parse_header (drop offset stream)) [ err e ↦ raised e | ok h ↦ go h ]
    else stop

-- A packet takes eight bytes at least, so the stream's length is fuel enough.
pub iter_packets : Bytes → Packets
unfolding iter_from
iter_packets stream = iter_from (suc (length stream)) stream 0

pub record Message : Type 0 where
  pub type : PacketType
  pub payload : Bytes
  pub consumed : ℕ
  pub status : ℕ

-- What the loop of `reassemble` has gathered; `type` is unset before the first packet.
pub record Gathered : Type 0 where
  pub type : Option PacketType
  pub payload : Bytes
  pub consumed : ℕ
  pub opening : ℕ

abbrev pub or_first : Option PacketType → PacketType → PacketType
or_first none type = type
or_first (some first) type = first

abbrev opening_of : Gathered → PacketHeader → ℕ
opening_of g h = elim g.type [ none ↦ h.status | some _ ↦ g.opening ]

-- One round: the packet's part is joined to what was gathered.
abbrev pub gather : Gathered → PacketHeader → Bytes → Gathered
gather g h chunk = record {
  type = some (or_first g.type h.type);
  payload = g.payload ++ chunk;
  consumed = g.consumed + h.length;
  opening = opening_of g h;
}

pub reassemble_from : Packets → Gathered → Result (Option Message)
reassemble_from stop g = ok none
reassemble_from (raised e) g = err e
reassemble_from (yield_packet h chunk packets) g =
    let g' = gather g h chunk in
    let rest = reassemble_from packets g' in
    if is_end_of_message h
    then ok (
        some (record {
          type = or_first g.type h.type;
          payload = g'.payload;
          consumed = g'.consumed;
          status = g'.opening;
        }))
    else rest

abbrev pub nothing_gathered : Gathered
nothing_gathered = record { type = none; payload = []; consumed = 0; opening = 0 }

unfoldable pub reassemble : Bytes → Result (Option Message)
unfolding iter_packets reassemble_from
reassemble stream = reassemble_from (iter_packets stream) nothing_gathered
