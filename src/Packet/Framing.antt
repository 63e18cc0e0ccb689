-- ===== src/Packet/Framing.antt =====
-- What `build_message` writes: one packet for each chunk, the last one marked, and the chunks are
-- the payload.
use py_sqlbridge.Prelude.{
  ℕ, zero, suc, ◌+◌, ◌-◌, ◌%◌, ◌≤◌, ◌<◌, ◌≡◌, refl, sym, ap, ◌∙◌, arith, inl, inr, List, [], ◌∷◌,
  ◌++◌, ltb, length, drop, take, concat, All, length-append, length-take, take-append-drop,
  drop_all, drop-drop, le→ltb, lt→leb, ==_iff, ==_ne, Bool-cases,
}
use py_sqlbridge.Py.Result.{ok}
use py_sqlbridge.Py.Bytes.{Bytes, slice}
use py_sqlbridge.Packet.{PacketType, chunks_from, or_empty, build_packets, build_message}
use py_sqlbridge.Packet.Header.{header_bytes, header_of, length-header_bytes, build_packet_fits}

module _ (type : PacketType) (spid start : ℕ) where
  abbrev pub frame : ℕ → ℕ → Bytes → Bytes
  frame status index chunk =
      header_bytes (header_of type chunk status spid ((start + index) % 256) 0) ++ chunk

  -- The packets of a message, numbered from `index` on.
  unfoldable pub frames : List Bytes → ℕ → List Bytes
  frames [] index = []
  frames (c ∷ []) index = frame 1 index c ∷ []
  frames (c ∷ d ∷ cs) index = frame 0 index c ∷ frames (d ∷ cs) (index + 1)

-- A chunk that one packet can carry.
abbrev pub Fits : ℕ → Bytes → Type 0
Fits body chunk = length chunk ≤ body

module _ (type : PacketType) (spid start count : ℕ) (spid_fits : spid < 65536) where
  build_packets-frames :
      (cs : List Bytes) (index : ℕ)
      → count ≡ index + length cs
      → All (Fits 65527) cs
      → build_packets type spid start count index cs ≡ ok (frames type spid start cs index)
  unfolding build_packets frames
  build_packets-frames [] index e fit = refl
  build_packets-frames (c ∷ []) index e fit = rw (
    (==_iff index (count - 1)).1 (omega arith),
    build_packet_fits type c 1 spid ((start + index) % 256) 0 (omega (arith, fit.0)) (omega arith)
        spid_fits (omega arith) (omega arith),
  )
  build_packets-frames (c ∷ d ∷ cs) index e fit = rw (
    ==_ne index (count - 1) (λ h. omega arith),
    build_packet_fits type c 0 spid ((start + index) % 256) 0 (omega (arith, fit.0)) (omega arith)
        spid_fits (omega arith) (omega arith),
    build_packets-frames (d ∷ cs) (index + 1) (omega arith) fit.1,
  )

module _ (payload : Bytes) (body : ℕ) (pos : 0 < body) where
  slice_head : (i : ℕ) → slice payload i (i + body) ≡ take body (drop i payload)
  slice_head i = ap (λ t. take t (drop i payload)) (omega arith)

  concat-chunks_from :
      (fuel i : ℕ)
      → length payload ≤ fuel + i
      → concat (chunks_from fuel payload body i) ≡ drop i payload
  unfolding chunks_from
  concat-chunks_from zero i h = sym (drop_all i payload (omega arith))
  concat-chunks_from (suc fuel) i h = elim (Bool-cases (ltb i (length payload))) [
    | inl more ↦
        rw
          (
            more,
            slice_head i,
            concat-chunks_from fuel (i + body) (omega arith),
            drop-drop i body (i + body) payload refl,
          )
          (take-append-drop body (drop i payload))
    | inr done ↦ rw done (sym (drop_all i payload (ground arith)))
  ]

  chunks_from-Fits : (fuel i : ℕ) → All (Fits body) (chunks_from fuel payload body i)
  unfolding chunks_from
  chunks_from-Fits zero i = tt
  chunks_from-Fits (suc fuel) i = elim (Bool-cases (ltb i (length payload))) [
    | inl more ↦ rw more (
      omega (arith, length-take (i + body - i) (drop i payload)),
      chunks_from-Fits fuel (i + body),
    )
    | inr done ↦ rw done tt
  ]

concat-or_empty : (cs : List Bytes) → concat (or_empty cs) ≡ concat cs
unfolding or_empty
concat-or_empty [] = refl
concat-or_empty (c ∷ cs) = refl

or_empty-Fits : (body : ℕ) (cs : List Bytes) → All (Fits body) cs → All (Fits body) (or_empty cs)
unfolding or_empty
or_empty-Fits body [] h = omega arith
or_empty-Fits body (c ∷ cs) h = h

-- The chunks of `build_message`.
abbrev pub message_chunks : ℕ → Bytes → List Bytes
message_chunks size payload = or_empty (chunks_from (length payload) payload (size - 8) 0)

pub message_chunks_ne : (size : ℕ) (payload : Bytes) → 0 < length (message_chunks size payload)
unfolding or_empty
message_chunks_ne size payload = go (chunks_from (length payload) payload (size - 8) 0)
  where
    go : (cs : List Bytes) → 0 < length (or_empty cs)
    go [] = omega arith
    go (c ∷ cs) = omega arith

pub concat-message_chunks :
    (size : ℕ) (payload : Bytes) → 8 < size → concat (message_chunks size payload) ≡ payload
concat-message_chunks size payload h =
    concat-or_empty (chunks_from (length payload) payload (size - 8) 0)
    ∙ concat-chunks_from payload (size - 8) (omega arith) (length payload) 0 (omega arith)

pub message_chunks-Fits :
    (size : ℕ) (payload : Bytes) → 8 < size → All (Fits (size - 8)) (message_chunks size payload)
message_chunks-Fits size payload h =
    or_empty-Fits (size - 8) _
      (chunks_from-Fits payload (size - 8) (omega arith) (length payload) 0)

pub Fits-weaken : (a b : ℕ) (cs : List Bytes) → a ≤ b → All (Fits a) cs → All (Fits b) cs
Fits-weaken a b [] h fit = tt
Fits-weaken a b (c ∷ cs) h fit = (omega (arith, fit.0), Fits-weaken a b cs h fit.1)

-- With a size between the header's and the most that the length field can say, the message is
-- built, and it is the frames of its chunks.
pub build_message-frames :
    (type : PacketType) (payload : Bytes) (size spid start : ℕ)
    → 8 < size
    → size ≤ 65535
    → spid < 65536
    → build_message type payload size spid start
      ≡ ok (frames type spid start (message_chunks size payload) 0)
unfolding build_message
build_message-frames type payload size spid start lo hi sp =
    rw (lt→leb size 8 lo, le→ltb 65535 size hi)
      (build_packets-frames type spid start _ sp (message_chunks size payload) 0 (omega arith)
        (Fits-weaken (size - 8) 65527 _ (omega arith) (message_chunks-Fits size payload lo)))

module _ (type : PacketType) (spid start body : ℕ) where
  -- No packet is longer than the size that was asked for.
  pub frames_short :
      (cs : List Bytes) (index : ℕ)
      → All (Fits body) cs
      → All (λ p. length p ≤ 8 + body) (frames type spid start cs index)
  unfolding frames
  frames_short [] index fit = tt
  frames_short (c ∷ []) index fit =
      (omega (arith, fit.0, length-append {0}, length-header_bytes), tt)
  frames_short (c ∷ d ∷ cs) index fit = (
    omega (arith, fit.0, length-append {0}, length-header_bytes),
    frames_short (d ∷ cs) (index + 1) fit.1,
  )
