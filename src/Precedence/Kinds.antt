-- ===== src/Precedence/Kinds.antt =====
-- Equality of column types, and the branches of a union.
use mathlib.Core.List.{Memᴰ}
use mathlib.Core.List.Memᴰ
use py_sqlbridge.Prelude.{
  ℕ, ◌≡◌, refl, ap, ◌∙◌, arith, Bool, true, false, ◌&&◌, inl, inr, Option, none, some, List, [],
  ◌∷◌, ◌==◌, Bool-cases,
}
use py_sqlbridge.Py.Bytes.{Bytes}
use py_sqlbridge.ResultSet.Types.{
  ColumnType, integer, untyped_null, float, nvarchar, bit, unique_identifier, date_time, var_binary,
  small_int, binary,
}
use py_sqlbridge.Precedence.{same_bytes, same_size, same_kind, is_untyped, known, all_same}

same_bytes-eq : (a b : Bytes) → same_bytes a b ≡ true → a ≡ b
unfolding same_bytes
same_bytes-eq [] [] h = refl
same_bytes-eq [] (y ∷ b) h = cc
same_bytes-eq (x ∷ a) [] h = cc
same_bytes-eq (x ∷ a) (y ∷ b) h = ground (arith, same_bytes-eq a b)

same_size-eq : (a b : Option ℕ) → same_size a b ≡ true → a ≡ b
same_size-eq none none h = refl
same_size-eq (some a) (some b) h = ground arith
same_size-eq _ _ h = cc

both : (a b : Bool) → (a && b) ≡ true → (a ≡ true) × (b ≡ true)
both true true h = (refl, refl)
both true false h = cc
both false b h = cc

nvarchar-eq :
    (a b : Option ℕ) (c d : Bytes)
    → (same_size a b && same_bytes c d) ≡ true
    → ColumnType.nvarchar a c ≡ ColumnType.nvarchar b d
nvarchar-eq a b c d h =
    let (sizes, collations) = both (same_size a b) (same_bytes c d) h in
    rw (same_size-eq a b sizes, same_bytes-eq c d collations) refl

same_number-eq : (f : ℕ → ColumnType) (a b : ℕ) → (a == b) ≡ true → f a ≡ f b
same_number-eq f a b h = ap f (ground arith)

pub same_kind-eq : (a b : ColumnType) → same_kind a b ≡ true → a ≡ b
unfolding same_kind
same_kind-eq (integer a) (integer b) h = same_number-eq integer a b h
same_kind-eq (untyped_null a) (untyped_null b) h = same_number-eq untyped_null a b h
same_kind-eq (float a) (float b) h = same_number-eq float a b h
same_kind-eq (nvarchar a c) (nvarchar b d) h = nvarchar-eq a b c d h
same_kind-eq bit bit h = refl
same_kind-eq unique_identifier unique_identifier h = refl
same_kind-eq date_time date_time h = refl
same_kind-eq (var_binary a) (var_binary b) h = same_number-eq var_binary a b h
same_kind-eq small_int small_int h = refl
same_kind-eq (binary a) (binary b) h = same_number-eq binary a b h
same_kind-eq _ _ h = cc

pub all_same-eq :
    (first : ColumnType) (kinds : List ColumnType)
    → all_same first kinds ≡ true
    → (k : ColumnType) → Memᴰ k kinds
    → k ≡ first
unfolding all_same
all_same-eq first [] h k m = elim m [ ]
all_same-eq first (x ∷ kinds) h k (Memᴰ.head e) =
    let (here, later) = both (same_kind x first) (all_same first kinds) h in
    e ∙ same_kind-eq x first here
all_same-eq first (x ∷ kinds) h k (Memᴰ.tail m) =
    let (here, later) = both (same_kind x first) (all_same first kinds) h in
    all_same-eq first kinds later k m

-- A branch is known when it is no untyped NULL.
pub known_iff :
    (kinds : List ColumnType) (k : ColumnType)
    → (Memᴰ k (known kinds) → Memᴰ k kinds × (is_untyped k ≡ false))
      × (Memᴰ k kinds → is_untyped k ≡ false → Memᴰ k (known kinds))
unfolding known
known_iff [] k = ((λ m. absurd (Memᴰ.not-nil m)), λ m e. absurd (Memᴰ.not-nil m))
known_iff (x ∷ kinds) k =
    let (out, back) = known_iff kinds k in
    elim (Bool-cases (is_untyped x)) [
      | inl null ↦ rw null (
        (λ m. (Memᴰ.tail (out m).0, (out m).1)),
        λ m e. elim (Memᴰ.cases_cons m) [
          | inl same ↦ cc (null, e, ap is_untyped same)
          | inr later ↦ back later e
        ],
      )
      | inr typed ↦ rw typed (
        (λ m. elim (Memᴰ.cases_cons m) [
          | inl same ↦ (Memᴰ.head same, ap is_untyped same ∙ typed)
          | inr later ↦ (Memᴰ.tail (out later).0, (out later).1)
        ]),
        λ m e. elim (Memᴰ.cases_cons m) [
          | inl same ↦ Memᴰ.head same
          | inr later ↦ Memᴰ.tail (back later e)
        ],
      )
    ]
