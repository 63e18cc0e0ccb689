-- ===== src/Packet/RoundTrip.antt =====
-- `build_message`, and then `reassemble`.
use mathlib.Core.Option.{none, some}
use py_sqlbridge.Prelude.{
  ℕ, zero, suc, ◌+◌, ◌-◌, ◌%◌, ◌≤◌, ◌<◌, ◌≡◌, refl, ap, ◌∙◌, arith, List, [], ◌∷◌, ◌++◌, leb,
  length, drop, concat, All, length-append, length-drop, le→ltb, le→leb, append_assoc, append-nil,
  if◌then◌else◌,
}
use py_sqlbridge.Py.Result.{ok}
use py_sqlbridge.Py.Bytes.{Bytes}
use py_sqlbridge.Py.Bytes.Cursor.{advance, slice_here}
use py_sqlbridge.Packet.{
  PacketType, PacketHeader, yield_packet, iter_from, Gathered, or_first, gather, nothing_gathered,
  chunks_from, or_empty, reassemble_from, reassemble, build_message,
}
use py_sqlbridge.Packet.Status
use py_sqlbridge.Packet.Header.{
  header_bytes, header_of, IsWire, length-header_bytes, parse_header_here,
}
use py_sqlbridge.Packet.Framing.{
  frame, frames, Fits, Fits-weaken, message_chunks, concat-message_chunks, message_chunks-Fits,
  message_chunks_ne, build_message-frames, frames_short,
}

module _ (h : PacketHeader) (wire : IsWire h) (chunk : Bytes) (sized : h.length ≡ 8 + length chunk)
    (stream rest : Bytes) (offset : ℕ)
    (here : drop offset stream ≡ header_bytes h ++ (chunk ++ rest)) where
  at_chunk : drop (offset + 8) stream ≡ chunk ++ rest
  at_chunk =
      advance stream offset (header_bytes h) (chunk ++ rest) here (offset + 8)
        (omega (arith, length-header_bytes h))

  -- One whole packet at the offset is yielded, and the walk goes on behind it.
  pub iter_from_packet :
      (fuel : ℕ)
      → iter_from (suc fuel) stream offset
        ≡ yield_packet h chunk (iter_from fuel stream (offset + h.length))
  unfolding iter_from
  iter_from_packet fuel =
      let long : offset + h.length ≤ length stream = omega (
        arith,
        ap length here,
        length-append (header_bytes h) (chunk ++ rest),
        length-append chunk rest,
        length-header_bytes h,
        length-drop offset stream,
      ) in
      rw (
        le→leb (offset + 8) (length stream) (omega arith),
        parse_header_here h wire (drop offset stream) (chunk ++ rest) here,
        le→ltb (length stream) (offset + h.length) long,
        slice_here stream (offset + 8) chunk rest at_chunk (offset + h.length) (omega arith),
      )

  pub behind_packet : drop (offset + h.length) stream ≡ rest
  behind_packet = advance stream (offset + 8) chunk rest at_chunk (offset + h.length) (omega arith)

-- What the first packet of a message says about the message.
abbrev first_status : List Bytes → ℕ
first_status [] = 0
first_status (c ∷ []) = 1
first_status (c ∷ d ∷ cs) = 0

abbrev status_after : Gathered → List Bytes → ℕ
status_after g cs = elim g.type [ none ↦ first_status cs | some _ ↦ g.opening ]

module _ (type : PacketType) (spid start : ℕ) (spid_fits : spid < 65536) where
  pub frame-IsWire :
      (status index : ℕ) (c : Bytes)
      → status < 256
      → Fits 65527 c
      → IsWire (header_of type c status spid ((start + index) % 256) 0)
  frame-IsWire status index c s fit = omega arith

  pub length_frame :
      (status index : ℕ) (c : Bytes) → length (frame type spid start status index c) ≡ 8 + length c
  length_frame status index c = omega (arith, length-append {0}, length-header_bytes)

  reassemble_frames :
      (cs : List Bytes) (index fuel : ℕ) (stream rest : Bytes) (offset : ℕ) (g : Gathered)
      → 0 < length cs
      → All (Fits 65527) cs
      → length cs ≤ fuel
      → drop offset stream ≡ concat (frames type spid start cs index) ++ rest
      → reassemble_from (iter_from fuel stream offset) g
        ≡ ok (
            some (record {
              type = or_first g.type type;
              payload = g.payload ++ concat cs;
              consumed = g.consumed + length (concat (frames type spid start cs index));
              status = status_after g cs;
            }))
  unfolding frames reassemble_from
  reassemble_frames [] index fuel stream rest offset g ne fit enough here = absurd (omega arith)
  reassemble_frames (c ∷ cs) index zero stream rest offset g ne fit enough here =
      absurd (omega arith)
  reassemble_frames (c ∷ []) index (suc fuel) stream rest offset g ne fit enough here =
      let h = header_of type c 1 spid ((start + index) % 256) 0 in
      let front : drop offset stream ≡ header_bytes h ++ (c ++ rest) =
        here ∙ rw (append-nil, append_assoc) in
      let size : g.consumed + length (frame type spid start 1 index c ++ [])
          ≡ g.consumed + (8 + length c) =
        rw append-nil (omega (arith, length_frame 1 index c)) in
      rw (
        iter_from_packet h (frame-IsWire 1 index c (omega arith) fit.0) c refl stream rest offset
            front fuel,
        size,
        append-nil c,
      )
  reassemble_frames (c ∷ d ∷ cs) index (suc fuel) stream rest offset g ne fit enough here =
      let h = header_of type c 0 spid ((start + index) % 256) 0 in
      let wire = frame-IsWire 0 index c (omega arith) fit.0 in
      let later = concat (frames type spid start (d ∷ cs) (index + 1)) in
      let front : drop offset stream ≡ header_bytes h ++ (c ++ (later ++ rest)) =
        here ∙ simp append_assoc in
      let size : g.consumed + length (frame type spid start 0 index c ++ later)
          ≡ (g.consumed + (8 + length c)) + length later =
        omega
          (arith, length-append (frame type spid start 0 index c) later, length_frame 0 index c) in
      let g' = gather g h c in
      rw
        (
          iter_from_packet h wire c refl stream (later ++ rest) offset front fuel,
          size,
          ← append_assoc g.payload c (d ++ concat cs),
        )
        (reassemble_frames (d ∷ cs) (index + 1) fuel stream rest (offset + (8 + length c)) g'
          (omega arith) fit.1 (omega arith)
          (behind_packet h wire c refl stream (later ++ rest) offset front))

  pub frames_long :
      (cs : List Bytes) (index : ℕ) → length cs ≤ length (concat (frames type spid start cs index))
  unfolding frames
  frames_long [] index = omega arith
  frames_long (c ∷ []) index =
      omega
        (arith, length_frame 1 index c, ap length (append-nil (frame type spid start 1 index c)))
  frames_long (c ∷ d ∷ cs) index = omega (
    arith,
    length_frame 0 index c,
    frames_long (d ∷ cs) (index + 1),
    length-append (frame type spid start 0 index c)
        (concat (frames type spid start (d ∷ cs) (index + 1))),
  )

-- The status of the first packet: it ends the message if the payload fits into it.
abbrev pub opening_status : ℕ → Bytes → ℕ
opening_status size payload =
    if leb (length payload) (size - 8) then Status.end_of_message else Status.normal

first_status-message_chunks :
    (size : ℕ) (payload : Bytes)
    → 8 < size
    → first_status (message_chunks size payload) ≡ opening_status size payload
unfolding chunks_from or_empty
first_status-message_chunks size [] h = ground arith
first_status-message_chunks size (b ∷ []) h = ground arith
first_status-message_chunks size (b ∷ b' ∷ bs) h = ground arith

-- For every payload, packet size between 9 and 65535 and two-byte session id, `build_message`
-- returns packets, each at most as long as the packet size. `reassemble` on their bytes, whatever
-- follows them in the buffer, returns the message's type and payload, consumes exactly the
-- packets, and reports the first packet's status: end of message if and only if the payload fits
-- into one packet.
pub reassemble-build_message :
    (type : PacketType) (payload : Bytes) (size spid start : ℕ) (rest : Bytes)
    → 8 < size
    → size ≤ 65535
    → spid < 65536
    → (packets : List Bytes) × (build_message type payload size spid start ≡ ok packets)
      × All (λ p. length p ≤ size) packets
      × (reassemble (concat packets ++ rest)
          ≡ ok (
              some (record {
                type = type;
                payload = payload;
                consumed = length (concat packets);
                status = opening_status size payload;
              })))
unfolding reassemble
reassemble-build_message type payload size spid start rest lo hi sp =
    let cs = message_chunks size payload in
    let fit = message_chunks-Fits size payload lo in
    let packets = frames type spid start cs 0 in
    let width : 8 + (size - 8) ≡ size = omega arith in
    (
      packets,
      build_message-frames type payload size spid start lo hi sp,
      rw width at (frames_short type spid start (size - 8) cs 0 fit),
      reassemble_frames type spid start sp cs 0 (suc (length (concat packets ++ rest)))
            (concat packets ++ rest) rest 0 nothing_gathered (message_chunks_ne size payload)
            (Fits-weaken (size - 8) 65527 cs (omega arith) fit)
            (omega
              (arith, frames_long type spid start sp cs 0, length-append (concat packets) rest))
            refl
          ∙ rw (
            concat-message_chunks size payload lo,
            first_status-message_chunks size payload lo,
            (let z : 0 + length (concat packets) ≡ length (concat packets) = omega arith in z),
          ),
    )
