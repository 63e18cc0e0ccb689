-- ===== src/Precedence/Order.antt =====
-- The order of the types, the greatest branch, and the pairs that are refused.
use mathlib.Core.List.{Memᴰ}
use mathlib.Core.List.Memᴰ
use py_sqlbridge.Prelude.{
  ℕ, ◌≤◌, ◌≡◌, refl, sym, ap, arith, true, false, ◌&&◌, ◌||◌, inl, inr, Option, none, some, List,
  [], ◌∷◌, ltb, ◌==◌, Bool-cases, Option-cases,
}
use py_sqlbridge.ResultSet.Types.{ColumnType}
use py_sqlbridge.Precedence.{
  rank, width, incompatible, clash_with, or_else, first_clash, exceeds, greatest,
}

-- One type does not stand above another: by its rank, or between two of one rank by what it holds.
abbrev pub Below : ColumnType → ColumnType → Type 0
Below a b = (rank a ≤ rank b) × (rank a ≡ rank b → width a ≤ width b)

pub Below-refl : (a : ColumnType) → Below a a
Below-refl a = (omega arith, λ e. omega arith)

Below-trans : (a b c : ColumnType) → Below a b → Below b c → Below a c
Below-trans a b c h k =
    let f : rank a ≡ rank b → width a ≤ width b = h.1 in
    let g : rank b ≡ rank c → width b ≤ width c = k.1 in
    (
      omega (arith, h.0, k.0),
      λ e.
          let ab : rank a ≡ rank b = omega (arith, h.0, k.0, e) in
          let bc : rank b ≡ rank c = omega (arith, h.0, k.0, e) in omega (arith, f ab, g bc),
    )

keys_true :
    (r w r' w' : ℕ) → (ltb r r' || (r == r' && ltb w w')) ≡ true → (r ≤ r') × (r ≡ r' → w ≤ w')
keys_true r w r' w' h = ground arith

keys_false :
    (r w r' w' : ℕ) → (ltb r r' || (r == r' && ltb w w')) ≡ false → (r' ≤ r) × (r' ≡ r → w' ≤ w)
keys_false r w r' w' h = ground arith

pub greatest-Below :
    (best : ColumnType) (kinds : List ColumnType)
    → Below best (greatest best kinds)
      × ((k : ColumnType) → Memᴰ k kinds → Below k (greatest best kinds))
unfolding greatest
greatest-Below best [] = (Below-refl best, λ k m. absurd (Memᴰ.not-nil m))
greatest-Below best (x ∷ kinds) = elim (Bool-cases (exceeds x best)) [
  | inl above ↦
      let (top, others) = greatest-Below x kinds in
      let up = keys_true (rank best) (width best) (rank x) (width x) above in
      rw above (
        Below-trans best x (greatest x kinds) up top,
        λ k m. elim (Memᴰ.cases_cons m) [ inl same ↦ rw same top | inr later ↦ others k later ],
      )
  | inr not_above ↦
      let (top, others) = greatest-Below best kinds in
      let up = keys_false (rank best) (width best) (rank x) (width x) not_above in
      rw not_above (
        top,
        λ k m. elim (Memᴰ.cases_cons m) [
          | inl same ↦ rw same (Below-trans x best (greatest best kinds) up top)
          | inr later ↦ others k later
        ],
      )
]

pub greatest-Mem :
    (best : ColumnType) (kinds : List ColumnType) → Memᴰ (greatest best kinds) (best ∷ kinds)
unfolding greatest
greatest-Mem best [] = Memᴰ.head refl
greatest-Mem best (x ∷ kinds) = elim (Bool-cases (exceeds x best)) [
  | inl above ↦ rw above (Memᴰ.tail (greatest-Mem x kinds))
  | inr not_above ↦ rw not_above (elim (Memᴰ.cases_cons (greatest-Mem best kinds)) [
    | inl same ↦ Memᴰ.head same
    | inr later ↦ Memᴰ.tail (Memᴰ.tail later)
  ])
]

clash_with-Pair :
    (one : ColumnType) (kinds : List ColumnType) (p : ColumnType × ColumnType)
    → clash_with one kinds ≡ some p
    → (p.0 ≡ one) × Memᴰ p.1 kinds × (incompatible one p.1 ≡ true)
unfolding clash_with
clash_with-Pair one [] p h = cc
clash_with-Pair one (x ∷ kinds) p h = elim (Bool-cases (incompatible one x)) [
  | inl bad ↦
      let same : (one, x) ≡ p = (let e : some (one, x) ≡ some p = rw bad at h in cc) in
      let second : p.1 ≡ x = sym (ap (λ t. t.1) same) in
      (sym (ap (λ t. t.0) same), Memᴰ.head second, rw second bad)
  | inr good ↦ let (a, b, c) = clash_with-Pair one kinds p (rw good at h) in (a, Memᴰ.tail b, c)
]

clash_with-none :
    (one : ColumnType) (kinds : List ColumnType)
    → clash_with one kinds ≡ none
    → (b : ColumnType) → Memᴰ b kinds
    → incompatible one b ≡ false
unfolding clash_with
clash_with-none one [] h b m = elim m [ ]
clash_with-none one (x ∷ kinds) h b m = elim (Bool-cases (incompatible one x)) [
  | inl bad ↦ cc (rw bad at h)
  | inr good ↦ elim (Memᴰ.cases_cons m) [
    | inl same ↦ rw same good
    | inr later ↦ clash_with-none one kinds (rw good at h) b later
  ]
]

pub first_clash-Pair :
    (ones kinds : List ColumnType) (p : ColumnType × ColumnType)
    → first_clash ones kinds ≡ some p
    → Memᴰ p.0 ones × Memᴰ p.1 kinds × (incompatible p.0 p.1 ≡ true)
unfolding first_clash
first_clash-Pair [] kinds p h = cc
first_clash-Pair (one ∷ ones) kinds p h = elim (Option-cases (clash_with one kinds)) [
  | inr (q, found) ↦
      let same : q ≡ p = (let e : some q ≡ some p = rw found at h in cc) in
      let (a, b, c) = clash_with-Pair one kinds p (rw same at found) in (Memᴰ.head a, b, rw a c)
  | inl nothing ↦
      let (a, b, c) = first_clash-Pair ones kinds p (rw nothing at h) in (Memᴰ.tail a, b, c)
]

or_else-none :
    (o later : Option (ColumnType × ColumnType))
    → or_else o later ≡ none
    → (o ≡ none) × (later ≡ none)
or_else-none none later h = (refl, h)
or_else-none (some p) later h = cc

pub first_clash-none :
    (ones kinds : List ColumnType)
    → first_clash ones kinds ≡ none
    → (a b : ColumnType) → Memᴰ a ones
    → Memᴰ b kinds
    → incompatible a b ≡ false
unfolding first_clash
first_clash-none [] kinds h a b m n = elim m [ ]
first_clash-none (one ∷ ones) kinds h a b m n =
    let (here, later) = or_else-none (clash_with one kinds) (first_clash ones kinds) h in
    elim (Memᴰ.cases_cons m) [
      | inl same ↦ rw same (clash_with-none one kinds here b n)
      | inr other ↦ first_clash-none ones kinds later a b other n
    ]
