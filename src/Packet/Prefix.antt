-- ===== src/Packet/Prefix.antt =====
-- Buffers that hold part of a message.
use py_sqlbridge.Prelude.{
  ℕ, zero, suc, ◌+◌, ◌-◌, ◌%◌, ◌≤◌, ◌<◌, ◌≡◌, refl, ap, ◌∙◌, arith, inl, inr, none, List, [], ◌∷◌,
  ◌++◌, ltb, length, drop, take, concat, All, length-append, length-drop, length-take, le→leb,
  lt→leb, lt→ltb, ltb→lt, append_assoc, append-nil, Bool-cases, take-append_ge,
}
use py_sqlbridge.Py.Result.{ok}
use py_sqlbridge.Py.Bytes.{Bytes}
use py_sqlbridge.Packet.{
  PacketType, PacketHeader, stop, iter_from, Gathered, gather, nothing_gathered, reassemble_from,
  reassemble, build_message,
}
use py_sqlbridge.Packet.Header.{
  header_bytes, header_of, IsWire, length-header_bytes, parse_header_here,
}
use py_sqlbridge.Packet.Framing.{
  frame, frames, Fits, Fits-weaken, message_chunks, message_chunks-Fits, build_message-frames,
}
use py_sqlbridge.Packet.RoundTrip.{frame-IsWire, length_frame, iter_from_packet, behind_packet}

module _ (h : PacketHeader) (wire : IsWire h) (chunk : Bytes) (sized : h.length ≡ 8 + length chunk)
    (stream later : Bytes) (offset m : ℕ) (inside : offset ≤ length stream)
    (here : drop offset stream ≡ take m (header_bytes h ++ (chunk ++ later))) where
  whole : length (header_bytes h ++ (chunk ++ later)) ≡ 8 + (length chunk + length later)
  whole = omega (
    arith,
    length-append (header_bytes h) (chunk ++ later),
    length-append chunk later,
    length-header_bytes h,
  )

  left : m ≤ 8 + (length chunk + length later) → length stream ≡ offset + m
  left le = omega (
    arith,
    ap length here,
    length-take m (header_bytes h ++ (chunk ++ later)),
    whole,
    length-drop offset stream,
  )

  -- A packet that is cut short ends the walk.
  iter_from_cut : (fuel : ℕ) → m < 8 + length chunk → iter_from (suc fuel) stream offset ≡ stop
  unfolding iter_from
  iter_from_cut fuel short = elim (Bool-cases (ltb m 8)) [
    | inl less ↦
        let few : length stream < offset + 8 = omega (arith, left (omega arith), ltb→lt m 8 less) in
        rw (lt→leb (offset + 8) (length stream) few)
    | inr more ↦
        let enough : 8 ≤ m = ground arith in
        let front : drop offset stream ≡ header_bytes h ++ take (m - 8) (chunk ++ later) =
          here
          ∙ take-append_ge m (m - 8) (header_bytes h) (chunk ++ later)
              (omega (arith, length-header_bytes h)) in
        rw (
          le→leb (offset + 8) (length stream) (omega (arith, left (omega arith))),
          parse_header_here h wire (drop offset stream) (take (m - 8) (chunk ++ later)) front,
          lt→ltb (length stream) (offset + h.length) (omega (arith, left (omega arith))),
        )
  ]

  -- Of a packet that is whole, the prefix shows all, and part of what follows.
  whole_packet :
      8 + length chunk ≤ m
      → drop offset stream ≡ header_bytes h ++ (chunk ++ take (m - (8 + length chunk)) later)
  whole_packet enough =
      here
      ∙ take-append_ge m (m - 8) (header_bytes h) (chunk ++ later)
          (omega (arith, length-header_bytes h))
      ∙ ap (λ t. header_bytes h ++ t)
          (take-append_ge (m - 8) (m - (8 + length chunk)) chunk later (omega arith))

module _ (type : PacketType) (spid start : ℕ) (spid_fits : spid < 65536) where
  reassemble_cut :
      (cs : List Bytes) (index fuel : ℕ) (stream : Bytes) (offset m : ℕ) (g : Gathered)
      → All (Fits 65527) cs
      → length stream < offset + fuel
      → offset ≤ length stream
      → drop offset stream ≡ take m (concat (frames type spid start cs index))
      → m < length (concat (frames type spid start cs index))
      → reassemble_from (iter_from fuel stream offset) g ≡ ok none
  unfolding frames reassemble_from
  reassemble_cut [] index fuel stream offset m g fit enough inside here short = absurd (omega arith)
  reassemble_cut (c ∷ cs) index zero stream offset m g fit enough inside here short =
      absurd (omega arith)
  reassemble_cut (c ∷ []) index (suc fuel) stream offset m g fit enough inside here short =
      let h = header_of type c 1 spid ((start + index) % 256) 0 in
      let wire = frame-IsWire type spid start spid_fits 1 index c (omega arith) fit.0 in
      rw (
        iter_from_cut h wire c refl stream [] offset m inside (here ∙ rw append_assoc) fuel (
          omega (
            arith,
            length_frame type spid start spid_fits 1 index c,
            ap length (append-nil (frame type spid start 1 index c)),
          )))
  reassemble_cut (c ∷ d ∷ cs) index (suc fuel) stream offset m g fit enough inside here short =
      let h = header_of type c 0 spid ((start + index) % 256) 0 in
      let wire = frame-IsWire type spid start spid_fits 0 index c (omega arith) fit.0 in
      let later = concat (frames type spid start (d ∷ cs) (index + 1)) in
      let front : drop offset stream ≡ take m (header_bytes h ++ (c ++ later)) =
        here ∙ rw append_assoc in
      let size = length-append (frame type spid start 0 index c) later in
      let g' = gather g h c in
      elim (Bool-cases (ltb m (8 + length c))) [
        | inl cut ↦ rw (
            iter_from_cut h wire c refl stream later offset m inside front fuel
              (ltb→lt m (8 + length c) cut))
        | inr full ↦
            let got : 8 + length c ≤ m = ground arith in
            let total = length_frame type spid start spid_fits 0 index c in
            let seen = whole_packet h wire c refl stream later offset m inside front got in
            let room = left h wire c refl stream later offset m inside front (omega arith) in
            rw
              (iter_from_packet h wire c refl stream (take (m - (8 + length c)) later) offset seen
                fuel)
              (reassemble_cut (d ∷ cs) (index + 1) fuel stream (offset + (8 + length c))
                (m - (8 + length c)) g' fit.1 (omega arith) (omega arith)
                (behind_packet h wire c refl stream (take (m - (8 + length c)) later) offset seen)
                (omega arith))
      ]

reassemble-frames_cut :
    (type : PacketType) (spid start n : ℕ) (cs : List Bytes)
    → spid < 65536
    → All (Fits 65527) cs
    → n < length (concat (frames type spid start cs 0))
    → reassemble (take n (concat (frames type spid start cs 0))) ≡ ok none
unfolding reassemble
reassemble-frames_cut type spid start n cs sp fit short =
    let stream = take n (concat (frames type spid start cs 0)) in
    reassemble_cut type spid start sp cs 0 (suc (length stream)) stream 0 n nothing_gathered fit
      (omega arith) (omega arith) refl short

-- For every payload, packet size between 9 and 65535 and two-byte session id, no proper prefix of
-- the bytes of the packets that `build_message` returns is taken for a message: `reassemble`
-- answers that more is to be read, and raises nothing.
pub reassemble_needs_all :
    (type : PacketType) (payload : Bytes) (size spid start n : ℕ) (packets : List Bytes)
    → 8 < size
    → size ≤ 65535
    → spid < 65536
    → build_message type payload size spid start ≡ ok packets
    → n < length (concat packets)
    → reassemble (take n (concat packets)) ≡ ok none
reassemble_needs_all type payload size spid start n packets lo hi sp built short =
    let cs = message_chunks size payload in
    let fit = Fits-weaken (size - 8) 65527 cs (omega arith) (message_chunks-Fits size payload lo) in
    let same : frames type spid start cs 0 ≡ packets =
      cc (build_message-frames type payload size spid start lo hi sp) in
    rw same at (
      reassemble-frames_cut type spid start n cs sp fit
        (omega (arith, ap (λ (t : List Bytes). length (concat t)) same)))
