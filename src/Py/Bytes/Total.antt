-- ===== src/Py/Bytes/Total.antt =====
-- Reads that lie within the buffer succeed.
use py_sqlbridge.Prelude.{
  ℕ, zero, suc, ◌+◌, ◌≤◌, ◌<◌, ◌≡◌, refl, arith, Option, none, some, [], ◌∷◌, length,
}
use py_sqlbridge.Py.Result.{Exc, ok, err}
use py_sqlbridge.Py.Bytes.{Bytes, slice, or_raise, index, le_value, be_value, unpack_le, unpack_be}

pub index_within : (p : Bytes) (i : ℕ) → i < length p → (b : ℕ) × (index p i ≡ ok b)
unfolding index
index_within [] i h = absurd (omega arith)
index_within (b ∷ p) zero h = (b, refl)
index_within (b ∷ p) (suc i) h = index_within p i (omega arith)

pub unpack_le_room :
    (w : ℕ) (p : Bytes) (at : ℕ)
    → at + w ≤ length p
    → unpack_le w p at ≡ ok (le_value (slice p at (at + w)))
unfolding unpack_le
unpack_le_room w p at h = ground arith

pub unpack_be_room :
    (w : ℕ) (p : Bytes) (at : ℕ)
    → at + w ≤ length p
    → unpack_be w p at ≡ ok (be_value (slice p at (at + w)))
unfolding unpack_be
unpack_be_room w p at h = ground arith

pub or_raise_errors : {A : Type 0} {c : Exc} (o : Option A) (e : Exc) → or_raise c o ≡ err e → e ≡ c
or_raise_errors none e h = cc
or_raise_errors (some a) e h = cc
