-- ===== src/Rpc/Chunks.antt =====
-- Values of the MAX types, which come in chunks.
use py_sqlbridge.Prelude.{
  ℕ, zero, suc, ◌+◌, ◌^◌, ◌≤◌, ◌<◌, ◌≡◌, ◌≢◌, refl, ap, ◌∙◌, arith, List, [], ◌∷◌, ◌++◌, length,
  drop, concat, All, append-nil, append_assoc, length-append, length-drop, ==_ne, drop-length,
}
use py_sqlbridge.Py.Result.{ok}
use py_sqlbridge.Py.Bytes.{Bytes, le_bytes}
use py_sqlbridge.Py.Bytes.Fields.{length-le_bytes}
use py_sqlbridge.Py.Bytes.Cursor.{advance, slice_here, unpack_le_here, past_le}
use py_sqlbridge.Rpc.{plp_null, read_chunks, read_plp}

-- Chunks as a client writes them: each behind its length, and a length of zero at the end.
unfoldable pub chunk_bytes : List Bytes → Bytes
chunk_bytes [] = le_bytes 4 0
chunk_bytes (chunk ∷ chunks) = le_bytes 4 (length chunk) ++ (chunk ++ chunk_bytes chunks)

abbrev pub IsChunk : Bytes → Type 0
IsChunk chunk = (0 < length chunk) × (length chunk < 2 ^ 32)

length-chunk_bytes : (chunks : List Bytes) → length chunks ≤ length (chunk_bytes chunks)
unfolding chunk_bytes
length-chunk_bytes [] = omega arith
length-chunk_bytes (chunk ∷ chunks) = omega (
  arith,
  length-chunk_bytes chunks,
  length-append (le_bytes 4 (length chunk)) (chunk ++ chunk_bytes chunks),
  length-append chunk (chunk_bytes chunks),
  length-le_bytes 4 (length chunk),
)

read_chunks-chunk_bytes :
    (chunks : List Bytes) (fuel : ℕ) (p : Bytes) (at : ℕ) (taken rest : Bytes)
    → All IsChunk chunks
    → length chunks < fuel
    → drop at p ≡ chunk_bytes chunks ++ rest
    → read_chunks fuel p at taken ≡ ok (taken ++ concat chunks, at + length (chunk_bytes chunks))
unfolding read_chunks chunk_bytes
read_chunks-chunk_bytes [] zero p at taken rest fits enough here = absurd (omega arith)
read_chunks-chunk_bytes [] (suc fuel) p at taken rest fits enough here =
    let size = unpack_le_here 4 p at 0 rest here (omega arith) (omega arith) in
    let wide = length-le_bytes 4 0 in rw (size, append-nil taken, wide) refl
read_chunks-chunk_bytes (chunk ∷ chunks) zero p at taken rest fits enough here =
    absurd (omega arith)
read_chunks-chunk_bytes (chunk ∷ chunks) (suc fuel) p at taken rest fits enough here =
    let n = length chunk in
    let here1 : drop at p ≡ le_bytes 4 n ++ ((chunk ++ chunk_bytes chunks) ++ rest) =
      here ∙ append_assoc (le_bytes 4 n) (chunk ++ chunk_bytes chunks) rest in
    let size =
      unpack_le_here 4 p at n ((chunk ++ chunk_bytes chunks) ++ rest) here1 (fits.0.1)
        (omega arith) in
    let here2 : drop (at + 4) p ≡ chunk ++ (chunk_bytes chunks ++ rest) =
      past_le 4 p at n (at + 4) ((chunk ++ chunk_bytes chunks) ++ rest) here1 refl
      ∙ append_assoc chunk (chunk_bytes chunks) rest in
    let here3 = advance p (at + 4) chunk (chunk_bytes chunks ++ rest) here2 (at + 4 + n) refl in
    let part = slice_here p (at + 4) chunk (chunk_bytes chunks ++ rest) here2 (at + 4 + n) refl in
    let ih =
      read_chunks-chunk_bytes chunks fuel p (at + 4 + n) (taken ++ chunk) rest (fits.1)
        (omega arith) here3 in
    let end : at + 4 + n + length (chunk_bytes chunks)
        ≡ at + length (chunk_bytes (chunk ∷ chunks)) =
      omega (
        arith,
        length-append (le_bytes 4 n) (chunk ++ chunk_bytes chunks),
        length-append chunk (chunk_bytes chunks),
        length-le_bytes 4 n,
      ) in
    rw
      (
        size,
        ==_ne n 0 (λ e. omega (arith, fits.0.0)),
        part,
        ih,
        append_assoc taken chunk (concat chunks),
        end,
      )
      refl

-- A value that arrives in chunks, none of them empty, behind any total but the one for NULL, is
-- read whole, whatever surrounds it, and what follows the closing length is read next.
pub read_plp-chunk_bytes :
    (total : ℕ) (chunks : List Bytes) (front rest : Bytes)
    → total < 2 ^ 64
    → total ≢ plp_null
    → All IsChunk chunks
    → read_plp (front ++ (le_bytes 8 total ++ (chunk_bytes chunks ++ rest))) (length front)
      ≡ ok (concat chunks, length front + 8 + length (chunk_bytes chunks))
unfolding read_plp
read_plp-chunk_bytes total chunks front rest small known fits =
    let p = front ++ (le_bytes 8 total ++ (chunk_bytes chunks ++ rest)) in
    let here =
      drop-length front (le_bytes 8 total ++ (chunk_bytes chunks ++ rest)) (length front) refl in
    let behind =
      past_le 8 p (length front) total (length front + 8) (chunk_bytes chunks ++ rest) here refl in
    let enough : length chunks < suc (length p) = omega (
      arith,
      length-chunk_bytes chunks,
      length-drop (length front + 8) p,
      ap length behind,
      length-append (chunk_bytes chunks) rest,
    ) in
    rw
      (
        unpack_le_here 8 p (length front) total (chunk_bytes chunks ++ rest) here small
            (omega arith),
        ==_ne total plp_null known,
      )
      (read_chunks-chunk_bytes chunks (suc (length p)) p (length front + 8) [] rest fits enough
        behind)
