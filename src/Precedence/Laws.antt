-- ===== src/Precedence/Laws.antt =====
-- When a union is refused, when nothing is converted, and that the order of the branches is left out.
use mathlib.Core.List.{Memᴰ}
use py_sqlbridge.Prelude.{
  ℕ, ◌≤◌, ◌<◌, ◌⊎◌, All, ltb, Bool-cases, ◌≡◌, ◌≢◌, ◌↔◌, refl, sym, ap, ◌∙◌, arith, true, false,
  inl, inr, List, [], ◌∷◌, length, lt→ltb,
}
use py_sqlbridge.Py.Result.{ok}
use py_sqlbridge.Py.Bytes.{le_bytes}
use py_sqlbridge.Py.Int.{le_integer}
use py_sqlbridge.ResultSet.Types.{
  ColumnType, untyped_null, small_int, Objects, encode, encode_null, encode_present,
}
use py_sqlbridge.Precedence.{
  rank, width, same_kind, incompatible, known, is_untyped, all_same, Resolution, settled, clash,
  resolve,
}
use py_sqlbridge.Precedence.Kinds.{known_iff}
use py_sqlbridge.Precedence.Order.{Below}
use py_sqlbridge.Precedence.Outcome.{
  Origin, Outcome, agreeing, winning, clashing, incompatible_self, resolve-Outcome,
}

-- Two branches that say something about the type, and do not convert.
abbrev pub HasClash : List ColumnType → Type 0
HasClash kinds =
    (a b : ColumnType) × Memᴰ a (known kinds) × Memᴰ b (known kinds) × (incompatible a b ≡ true)

abbrev pub IsRefused : Resolution → Type 0
IsRefused r = (low high : ColumnType) × (r ≡ clash low high)

IsRefused-of :
    (kinds : List ColumnType) (r : Resolution)
    → Outcome kinds r
    → (a b : ColumnType) → Memᴰ a kinds
    → Memᴰ b kinds
    → incompatible a b ≡ true
    → IsRefused r
IsRefused-of kinds _ (agreeing alike) a b m n bad =
    cc (rw (alike a b m n) at bad, incompatible_self b)
IsRefused-of kinds _ (winning w origin top fine) a b m n bad = cc (fine a b m n)
IsRefused-of kinds _ (clashing low high ml mh e le) a b m n bad = (low, high, refl)

clash_of :
    (kinds : List ColumnType) (r : Resolution)
    → Outcome kinds r
    → (low high : ColumnType) → r ≡ clash low high
    → Memᴰ low kinds × Memᴰ high kinds × (incompatible low high ≡ true)
clash_of kinds _ (agreeing alike) low high e = cc
clash_of kinds _ (winning w origin top fine) low high e = cc
clash_of kinds _ (clashing l h ml mh bad le) low high e =
    let one : l ≡ low = cc in let other : h ≡ high = cc in rw⁻¹ one (rw⁻¹ other (ml, mh, bad))

-- A union is refused exactly when two of its branches that say something about the type are
-- incompatible, wherever they stand.
pub resolve_refuses : (kinds : List ColumnType) → HasClash kinds ↔ IsRefused (resolve kinds)
resolve_refuses kinds = (
  λ h.
      let (a, b, m, n, bad) = h in
      IsRefused-of (known kinds) (resolve kinds) (resolve-Outcome kinds) a b m n bad,
  λ h.
      let (low, high, e) = h in
      let (m, n, bad) = clash_of (known kinds) (resolve kinds) (resolve-Outcome kinds) low high e in
      (low, high, m, n, bad),
)

-- The same branches, in any order and however often.
abbrev pub SameBranches : List ColumnType → List ColumnType → Type 0
SameBranches xs ys = (k : ColumnType) → Memᴰ k xs ↔ Memᴰ k ys

known-SameBranches :
    (xs ys : List ColumnType) → SameBranches xs ys → SameBranches (known xs) (known ys)
known-SameBranches xs ys h k = (
  λ m. let (there, typed) = (known_iff xs k).0 m in (known_iff ys k).1 ((h k).0 there) typed,
  λ m. let (there, typed) = (known_iff ys k).0 m in (known_iff xs k).1 ((h k).1 there) typed,
)

settled_of :
    (kinds : List ColumnType) (r : Resolution)
    → Outcome kinds r
    → (w : ColumnType) → r ≡ settled w
    → Origin kinds w × ((k : ColumnType) → Memᴰ k kinds → Below k w)
settled_of kinds _ (agreeing alike) w e = cc
settled_of kinds _ (winning x origin top fine) w e =
    let same : x ≡ w = cc in rw⁻¹ same (origin, top)
settled_of kinds _ (clashing l h ml mh bad le) w e = cc

-- Where a type comes from is of its rank.
Origin-rank :
    (kinds : List ColumnType) (w v : ColumnType)
    → Origin kinds w
    → ((k : ColumnType) → Memᴰ k kinds → Below k v)
    → rank w ≤ rank v
unfolding rank
Origin-rank kinds w v (inl m) top = (top w m).0
Origin-rank kinds w v (inr (e, m)) top = rw e (top small_int m).0

Origin-width :
    (kinds : List ColumnType) (w v : ColumnType)
    → Origin kinds w
    → ((k : ColumnType) → Memᴰ k kinds → Below k v)
    → rank w ≡ rank v
    → rank w ≢ 60
    → width w ≤ width v
unfolding rank
Origin-width kinds w v (inl m) top e n = (top w m).1 e
Origin-width kinds w v (inr (s, m)) top e n = absurd (n (ap rank s))

-- The type that is chosen does not hang on the order in which the branches stand, nor on how often
-- one stands there: its rank is the same, and so is its size, but for the two encodings of a
-- smallint.
pub resolve_order :
    (xs ys : List ColumnType) (w v : ColumnType)
    → SameBranches xs ys
    → resolve xs ≡ settled w
    → resolve ys ≡ settled v
    → (rank w ≡ rank v) × (rank w ≢ 60 → width w ≡ width v)
resolve_order xs ys w v same ex ey =
    let both = known-SameBranches xs ys same in
    let (ow, topw) = settled_of (known xs) (resolve xs) (resolve-Outcome xs) w ex in
    let (ov, topv) = settled_of (known ys) (resolve ys) (resolve-Outcome ys) v ey in
    let topvx : (k : ColumnType) → Memᴰ k (known xs) → Below k v = λ k m. topv k ((both k).0 m) in
    let topwy : (k : ColumnType) → Memᴰ k (known ys) → Below k w = λ k m. topw k ((both k).1 m) in
    let ranks : rank w ≡ rank v =
      omega (arith, Origin-rank (known xs) w v ow topvx, Origin-rank (known ys) v w ov topwy) in
    (
      ranks,
      λ n. omega (
        arith,
        Origin-width (known xs) w v ow topvx ranks n,
        Origin-width (known ys) v w ov topwy (sym ranks) (λ e. n (ranks ∙ e)),
      ),
    )

-- A written NULL, or the fixed two-byte int.
abbrev pub IsNullOrInt : ColumnType → Type 0
IsNullOrInt k = ((w : ℕ) × (k ≡ untyped_null w)) ⊎ (k ≡ small_int)

-- The two-byte ints are what such branches say.
all_same-NullOrInt :
    (kinds : List ColumnType) → All IsNullOrInt kinds → all_same small_int (known kinds) ≡ true
unfolding all_same known same_kind
all_same-NullOrInt [] h = refl
all_same-NullOrInt (k ∷ kinds) h = elim h.0 [
  | inl (w, e) ↦ rw e (all_same-NullOrInt kinds h.1)
  | inr e ↦ rw e (all_same-NullOrInt kinds h.1)
]

length-known_le : (kinds : List ColumnType) → length (known kinds) ≤ length kinds
unfolding known
length-known_le [] = omega arith
length-known_le (k ∷ kinds) = elim (Bool-cases (is_untyped k)) [
  | inl says_nothing ↦ rw says_nothing (omega (arith, length-known_le kinds))
  | inr says ↦ rw says (omega (arith, length-known_le kinds))
]

length-known_lt :
    (kinds : List ColumnType) (w : ℕ)
    → Memᴰ (untyped_null w) kinds
    → length (known kinds) < length kinds
unfolding known
length-known_lt [] w m = elim m [ ]
length-known_lt (k ∷ kinds) w (Memᴰ.head e) = rw (← e) (omega (arith, length-known_le kinds))
length-known_lt (k ∷ kinds) w (Memᴰ.tail m) = elim (Bool-cases (is_untyped k)) [
  | inl says_nothing ↦ rw says_nothing (omega (arith, length-known_lt kinds w m))
  | inr says ↦ rw says (omega (arith, length-known_lt kinds w m))
]

known-NullOrInt :
    (kinds : List ColumnType)
    → All IsNullOrInt kinds
    → Memᴰ small_int kinds
    → (others : List ColumnType) × (known kinds ≡ small_int ∷ others)
unfolding known
known-NullOrInt [] h m = elim m [ ]
known-NullOrInt (k ∷ kinds) h (Memᴰ.head e) = (known kinds, rw (← e) refl)
known-NullOrInt (k ∷ kinds) h (Memᴰ.tail m) = elim h.0 [
  | inl (w, e) ↦ (let (others, same) = known-NullOrInt kinds h.1 m in (others, rw (e, same) refl))
  | inr e ↦ (known kinds, rw e refl)
]

resolve-NullOrInt :
    (kinds : List ColumnType) (w : ℕ)
    → All IsNullOrInt kinds
    → Memᴰ (untyped_null w) kinds
    → Memᴰ small_int kinds
    → resolve kinds ≡ settled small_int
unfolding resolve
resolve-NullOrInt kinds w h missing there =
    let (others, shape) = known-NullOrInt kinds h there in
    let same : all_same small_int (small_int ∷ others) ≡ true =
      rw shape at (all_same-NullOrInt kinds h) in
    let shorter : ltb (length (small_int ∷ others)) (length kinds) ≡ true =
      rw shape at
        (lt→ltb (length (known kinds)) (length kinds) (length-known_lt kinds w missing)) in
    rw (shape, shorter, same) refl

-- A union of written NULLs and fixed two-byte ints, in any number and order but with one of each at
-- least, settles on the two-byte int, and under that type None is sent as the number 0.
pub resolve_null-small_int :
    (o : Objects) (value : o.Object) (kinds : List ColumnType) (w : ℕ)
    → All IsNullOrInt kinds
    → Memᴰ (untyped_null w) kinds
    → Memᴰ small_int kinds
    → o.is_none value ≡ true
    → o.truth value ≡ false
    → (resolve kinds ≡ settled small_int) × (encode o small_int value ≡ ok (0 ∷ 0 ∷ []))
unfolding encode encode_null encode_present le_integer le_bytes
resolve_null-small_int o value kinds w h missing there none_there falsy =
    (resolve-NullOrInt kinds w h missing there, rw (none_there, falsy) refl)
