-- ===== src/ResultSet/Cells.antt =====
-- What the layouts of cells are, and that each layout is read as it is written.
use py_sqlbridge.Prelude.{
  ℕ, ◌+◌, ◌*◌, ◌/◌, ◌%◌, ◌^◌, ◌<◌, ◌≡◌, ◌≢◌, refl, arith, some, [], ◌∷◌, ◌++◌, length, drop,
  take-length, drop-length, length-append, append_assoc, append-nil, le→leb, ==_ne,
}
use py_sqlbridge.Py.Result.{ok, bind-eq-ok}
use py_sqlbridge.Py.Bytes.{Bytes, le_bytes, pack_le}
use py_sqlbridge.Py.Bytes.Fields.{length-le_bytes, pack_le-eq-ok}
use py_sqlbridge.Py.Bytes.Cursor.{unpack_le_here}
use py_sqlbridge.Rpc.{plp_null}
use py_sqlbridge.Rpc.Chunks.{chunk_bytes, IsChunk, read_plp-chunk_bytes}
use py_sqlbridge.ResultSet.Types.{encode_chunk}
use py_sqlbridge.ResultSet.Client.{byte_count, short_count, chunked, read_content, read_cell}

pub content_read :
    (n : ℕ) (raw rest : Bytes)
    → n ≡ length raw
    → read_content n (raw ++ rest) ≡ some (some raw, rest)
content_read n raw rest e =
    rw
      (
        le→leb n (length (raw ++ rest)) (omega (arith, length-append raw rest)),
        take-length raw rest n e,
        drop-length raw rest n e,
      )
      refl

pub byte_count_read :
    (n : ℕ) (raw rest : Bytes)
    → n ≡ length raw
    → 0 < n
    → read_cell byte_count (n ∷ (raw ++ rest)) ≡ some (some raw, rest)
unfolding read_cell
byte_count_read n raw rest e h = rw (==_ne n 0 (λ z. omega (arith, h))) (content_read n raw rest e)

pub short_count_read :
    (size raw rest : Bytes)
    → pack_le 2 (length raw) ≡ ok size
    → length raw ≢ 65535
    → read_cell short_count ((size ++ raw) ++ rest) ≡ some (some raw, rest)
unfolding read_cell le_bytes
short_count_read size raw rest packed known =
    let (small, shape) = pack_le-eq-ok 2 (length raw) packed in
    let n : length raw % 256 + 256 * (length raw / 256 % 256) ≡ length raw = omega (arith, small) in
    rw (shape, n, ==_ne (length raw) 65535 known) (content_read (length raw) raw rest refl)

encode_chunk-eq-ok :
    (raw cell : Bytes)
    → 0 < length raw
    → encode_chunk raw ≡ ok cell
    → cell ≡ le_bytes 8 (length raw) ++ chunk_bytes (raw ∷ [])
unfolding encode_chunk chunk_bytes
encode_chunk-eq-ok [] cell there h = absurd (omega arith)
encode_chunk-eq-ok (b ∷ bs) cell there h =
    let (total, p8, h1) = bind-eq-ok (pack_le 8 (length (b ∷ bs))) _ h in
    let (size, p4, h2) = bind-eq-ok (pack_le 4 (length (b ∷ bs))) _ h1 in
    let (terminator, p0, h3) = bind-eq-ok (pack_le 4 0) _ h2 in
    cc (
      h3,
      (pack_le-eq-ok 8 (length (b ∷ bs)) p8).1,
      (pack_le-eq-ok 4 (length (b ∷ bs)) p4).1,
      (pack_le-eq-ok 4 0 p0).1,
    )

pub chunked_read :
    (n : ℕ) (raw rest : Bytes)
    → n < 2 ^ 64
    → n ≢ plp_null
    → IsChunk raw
    → read_cell chunked (le_bytes 8 n ++ (chunk_bytes (raw ∷ []) ++ rest)) ≡ some (some raw, rest)
unfolding read_cell
chunked_read n raw rest small known fits =
    let chunk = chunk_bytes (raw ∷ []) in
    let bytes = le_bytes 8 n ++ (chunk ++ rest) in
    let whole : (le_bytes 8 n ++ chunk) ++ rest ≡ bytes = append_assoc (le_bytes 8 n) chunk rest in
    let end : 8 + length chunk ≡ length (le_bytes 8 n ++ chunk) =
      omega (arith, length-append (le_bytes 8 n) chunk, length-le_bytes 8 n) in
    let behind : drop (8 + length chunk) bytes ≡ rest =
      rw (← whole) (drop-length (le_bytes 8 n ++ chunk) rest (8 + length chunk) end) in
    rw
      (
        unpack_le_here 8 bytes 0 n (chunk ++ rest) refl small (omega arith),
        ==_ne n plp_null known,
        read_plp-chunk_bytes n (raw ∷ []) [] rest small known (fits, tt),
        append-nil raw,
        behind,
      )
      refl

-- A text in chunks is read whole, unless it is empty.
pub chunk_read :
    (raw cell rest : Bytes)
    → 0 < length raw
    → length raw < 2 ^ 32
    → encode_chunk raw ≡ ok cell
    → read_cell chunked (cell ++ rest) ≡ some (some raw, rest)
chunk_read raw cell rest there small h =
    rw
      (
        encode_chunk-eq-ok raw cell there h,
        append_assoc (le_bytes 8 (length raw)) (chunk_bytes (raw ∷ [])) rest,
      )
      (chunked_read (length raw) raw rest (omega (arith, small)) (λ e. omega (arith, small, e))
        (there, small))
