-- ===== src/Packet/Header.antt =====
-- `pack_header` and `parse_header` are inverse, and what a header that parses says.
use py_sqlbridge.Prelude.{
  ℕ, ◌+◌, ◌≤◌, ◌<◌, ◌≡◌, refl, ap, ◌∙◌, arith, false, some, ◌++◌, length, length-append, drop, ltb,
  le→ltb, append_assoc,
}
use py_sqlbridge.Py.Result.{ok}
use py_sqlbridge.Py.Bytes.{Bytes, be_bytes}
use py_sqlbridge.Py.Bytes.Fields.{length-be_bytes, pack_be_fits}
use py_sqlbridge.Py.Bytes.Cursor.{past_be, unpack_be_here}
use py_sqlbridge.Packet.{
  PacketType, type_byte, packet_type, PacketHeader, parse_header, pack_header, build_packet,
}

-- The eight bytes of a header.
pub header_bytes : PacketHeader → Bytes
header_bytes h =
    be_bytes 1 (type_byte h.type)
    ++ (be_bytes 1 h.status
        ++ (be_bytes 2 h.length
            ++ (be_bytes 2 h.spid ++ (be_bytes 1 h.packet_id ++ be_bytes 1 h.window))))

-- Each field fits its width, and the length covers the header.
pub record IsWire (h : PacketHeader) : Type 0 where
  pub status_fits : h.status < 256
  pub covers : 8 ≤ h.length
  pub length_fits : h.length < 65536
  pub spid_fits : h.spid < 65536
  pub packet_id_fits : h.packet_id < 256
  pub window_fits : h.window < 256

type_byte-lt : (t : PacketType) → type_byte t < 256
type_byte-lt t = ground arith

packet_type-type_byte : (t : PacketType) → packet_type (type_byte t) ≡ some t
packet_type-type_byte t = ground arith

pub length-header_bytes : (h : PacketHeader) → length (header_bytes h) ≡ 8
unfolding header_bytes be_bytes
length-header_bytes h = omega (arith, length-be_bytes)

fields_behind :
    (h : PacketHeader) (rest : Bytes)
    → header_bytes h ++ rest
      ≡ be_bytes 1 (type_byte h.type)
        ++ (be_bytes 1 h.status
            ++ (be_bytes 2 h.length
                ++ (be_bytes 2 h.spid
                    ++ (be_bytes 1 h.packet_id ++ (be_bytes 1 h.window ++ rest)))))
unfolding header_bytes
fields_behind h rest = simp append_assoc

module _ (h : PacketHeader) (wire : IsWire h) (p rest : Bytes)
    (here : p ≡ header_bytes h ++ rest) where
  at_type :
      drop 0 p
      ≡ be_bytes 1 (type_byte h.type)
        ++ (be_bytes 1 h.status
            ++ (be_bytes 2 h.length
                ++ (be_bytes 2 h.spid
                    ++ (be_bytes 1 h.packet_id ++ (be_bytes 1 h.window ++ rest)))))
  at_type = here ∙ fields_behind h rest

  at_status :
      drop 1 p
      ≡ be_bytes 1 h.status
        ++ (be_bytes 2 h.length
            ++ (be_bytes 2 h.spid ++ (be_bytes 1 h.packet_id ++ (be_bytes 1 h.window ++ rest))))
  at_status = past_be 1 p 0 _ 1 _ at_type refl

  at_length :
      drop 2 p
      ≡ be_bytes 2 h.length
        ++ (be_bytes 2 h.spid ++ (be_bytes 1 h.packet_id ++ (be_bytes 1 h.window ++ rest)))
  at_length = past_be 1 p 1 _ 2 _ at_status refl

  at_spid :
      drop 4 p ≡ be_bytes 2 h.spid ++ (be_bytes 1 h.packet_id ++ (be_bytes 1 h.window ++ rest))
  at_spid = past_be 2 p 2 _ 4 _ at_length refl

  at_packet_id : drop 6 p ≡ be_bytes 1 h.packet_id ++ (be_bytes 1 h.window ++ rest)
  at_packet_id = past_be 2 p 4 _ 6 _ at_spid refl

  at_window : drop 7 p ≡ be_bytes 1 h.window ++ rest
  at_window = past_be 1 p 6 _ 7 _ at_packet_id refl

  long_enough : ltb (length p) 8 ≡ false
  long_enough =
      le→ltb (length p) 8
        (omega (arith, ap length here, length-append (header_bytes h) rest, length-header_bytes h))

  -- A header reads back with its fields, whatever follows it.
  pub parse_header_here : parse_header p ≡ ok h
  unfolding parse_header
  parse_header_here = rw (
    long_enough,
    unpack_be_here 1 p 0 _ _ at_type (type_byte-lt h.type) (omega arith),
    unpack_be_here 1 p 1 _ _ at_status wire.status_fits (omega arith),
    unpack_be_here 2 p 2 _ _ at_length wire.length_fits (omega arith),
    unpack_be_here 2 p 4 _ _ at_spid wire.spid_fits (omega arith),
    unpack_be_here 1 p 6 _ _ at_packet_id wire.packet_id_fits (omega arith),
    unpack_be_here 1 p 7 _ _ at_window wire.window_fits (omega arith),
    packet_type-type_byte h.type,
    le→ltb h.length 8 wire.covers,
  )

-- The header that `build_packet` writes.
abbrev pub header_of : PacketType → Bytes → ℕ → ℕ → ℕ → ℕ → PacketHeader
header_of type payload status spid packet_id window = record {
  type = type;
  status = status;
  length = 8 + length payload;
  spid = spid;
  packet_id = packet_id;
  window = window;
}

pub build_packet_fits :
    (type : PacketType) (payload : Bytes) (status spid packet_id window : ℕ)
    → 8 + length payload ≤ 65535
    → status < 256
    → spid < 65536
    → packet_id < 256
    → window < 256
    → build_packet type payload status spid packet_id window
      ≡ ok (header_bytes (header_of type payload status spid packet_id window) ++ payload)
unfolding build_packet pack_header header_bytes
build_packet_fits type payload status spid packet_id window fits s d i w = rw (
  le→ltb 65535 (8 + length payload) fits,
  pack_be_fits 1 (type_byte type) (type_byte-lt type),
  pack_be_fits 1 status s,
  pack_be_fits 2 (8 + length payload) (omega arith),
  pack_be_fits 2 spid d,
  pack_be_fits 1 packet_id i,
  pack_be_fits 1 window w,
)
