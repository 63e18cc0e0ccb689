-- ===== src/Packet/Progress.antt =====
-- What reassembly does with any buffer, well formed or not.
use py_sqlbridge.Prelude.{
  ℕ, zero, suc, ◌+◌, ◌-◌, ◌≤◌, ◌<◌, ◌≡◌, ◌⊎◌, ap, arith, inl, inr, some, ◌++◌, length, drop, ltb,
  leb, length-drop, length-append, length-take, Bool-cases,
}
use py_sqlbridge.Py.Result.{Exc, ok, err, protocol_error, Result-cases}
use py_sqlbridge.Py.Bytes.{Bytes, slice}
use py_sqlbridge.Py.Bytes.Total.{unpack_be_room}
use py_sqlbridge.Packet.{
  PacketHeader, parse_header, stop, raised, yield_packet, iter_from, Message, Gathered,
  nothing_gathered, gather, is_end_of_message, reassemble_from, reassemble,
}

parse_header_errors : (p : Bytes) (e : Exc) → parse_header p ≡ err e → e ≡ protocol_error
unfolding parse_header
parse_header_errors p e h = ground (
  arith,
  unpack_be_room 1 p 0,
  unpack_be_room 1 p 1,
  unpack_be_room 2 p 2,
  unpack_be_room 2 p 4,
  unpack_be_room 1 p 6,
  unpack_be_room 1 p 7,
)

parse_header_covers : (p : Bytes) (h : PacketHeader) → parse_header p ≡ ok h → 8 ≤ h.length
unfolding parse_header
parse_header_covers p h e = ground (
  arith,
  unpack_be_room 1 p 0,
  unpack_be_room 1 p 1,
  unpack_be_room 2 p 2,
  unpack_be_room 2 p 4,
  unpack_be_room 1 p 6,
  unpack_be_room 1 p 7,
)

-- One round of the walk from a place in the buffer: it stops, or the header is refused, or a packet
-- that lies within the buffer is yielded.
iter_from_cases :
    (fuel : ℕ) (stream : Bytes) (offset : ℕ)
    → (iter_from (suc fuel) stream offset ≡ stop)
      ⊎ (iter_from (suc fuel) stream offset ≡ raised protocol_error)
      ⊎ ((h : PacketHeader) × (iter_from (suc fuel) stream offset
            ≡ yield_packet h
                (slice stream (offset + 8) (offset + h.length))
                (iter_from fuel stream (offset + h.length)))
          × (8 ≤ h.length)
          × (offset + h.length ≤ length stream))
unfolding iter_from
iter_from_cases fuel stream offset = elim (Bool-cases (leb (offset + 8) (length stream))) [
  | inr few ↦ inl (rw few)
  | inl more ↦ elim (Result-cases (parse_header (drop offset stream))) [
    | inr (e, failed) ↦
        inr (inl (rw (more, failed, parse_header_errors (drop offset stream) e failed)))
    | inl (h, parsed) ↦ elim (Bool-cases (ltb (length stream) (offset + h.length))) [
      | inl cut ↦ inl (rw (more, parsed, cut))
      | inr whole ↦
          inr (inr (h, rw (more, parsed, whole), parse_header_covers _ h parsed, ground arith))
    ]
  ]
]

reassemble_from_errors :
    (fuel : ℕ) (stream : Bytes) (offset : ℕ) (g : Gathered) (e : Exc)
    → length stream < offset + fuel
    → offset ≤ length stream
    → reassemble_from (iter_from fuel stream offset) g ≡ err e
    → e ≡ protocol_error
unfolding reassemble_from
reassemble_from_errors zero stream offset g e enough inside h = absurd (omega arith)
reassemble_from_errors (suc fuel) stream offset g e enough inside h =
    elim (iter_from_cases fuel stream offset) [
      | inl stopped ↦ cc (rw stopped at h)
      | inr (inl failed) ↦ cc (rw failed at h)
      | inr (inr (head, walked, covers, within)) ↦ elim (Bool-cases (is_end_of_message head)) [
        | inl last ↦ cc (rw (walked, last) at h)
        | inr more ↦
            reassemble_from_errors fuel stream (offset + head.length) (gather g head _) e
              (omega arith) within (rw (walked, more) at h)
      ]
    ]

-- What a message adds to what was gathered before it.
record Adds (stream : Bytes) (offset : ℕ) (g : Gathered) (m : Message) : Type 0 where
  forward : g.consumed + 8 ≤ m.consumed
  within : m.consumed + offset ≤ g.consumed + length stream
  framed : length m.payload + g.consumed + 8 ≤ length g.payload + m.consumed

reassemble_from-Adds :
    (fuel : ℕ) (stream : Bytes) (offset : ℕ) (g : Gathered) (m : Message)
    → reassemble_from (iter_from fuel stream offset) g ≡ ok (some m)
    → Adds stream offset g m
unfolding reassemble_from
reassemble_from-Adds zero stream offset g m h = unfold iter_from in cc h
reassemble_from-Adds (suc fuel) stream offset g m h = elim (iter_from_cases fuel stream offset) [
  | inl stopped ↦ cc (rw stopped at h)
  | inr (inl failed) ↦ cc (rw failed at h)
  | inr (inr (head, walked, covers, within)) ↦
      let chunk = slice stream (offset + 8) (offset + head.length) in
      let size = length-append g.payload chunk in
      let room = length-take (offset + head.length - (offset + 8)) (drop (offset + 8) stream) in
      let left = length-drop (offset + 8) stream in
      elim (Bool-cases (is_end_of_message head)) [
        | inl last ↦
            let done = rw (walked, last) at h in
            let used : m.consumed ≡ g.consumed + head.length = ground (arith, done) in
            let joined : m.payload ≡ g.payload ++ chunk = ground (arith, done) in
            omega (arith, ap length joined)
        | inr more ↦
            let rest =
              reassemble_from-Adds fuel stream (offset + head.length) (gather g head chunk) m
                (rw (walked, more) at h) in
            omega arith
      ]
]

-- On any buffer, well formed or not, the only exception that `reassemble` raises is the protocol's.
pub reassemble_errors : (stream : Bytes) (e : Exc) → reassemble stream ≡ err e → e ≡ protocol_error
unfolding reassemble
reassemble_errors stream e h =
    reassemble_from_errors (suc (length stream)) stream 0 nothing_gathered e (omega arith)
      (omega arith) h

-- A message that `reassemble` finds in any buffer used at least a header's eight bytes and at most
-- the buffer, and its payload lacks at least one header of what was used.
pub reassemble_bounds :
    (stream : Bytes) (m : Message)
    → reassemble stream ≡ ok (some m)
    → (8 ≤ m.consumed) × (m.consumed ≤ length stream) × (length m.payload + 8 ≤ m.consumed)
unfolding reassemble
reassemble_bounds stream m h =
    let a = reassemble_from-Adds (suc (length stream)) stream 0 nothing_gathered m h in
    (omega arith, omega arith, omega arith)
