-- ===== src/Precedence/Outcome.antt =====
-- What `resolve` answers, by what the branches are.
use mathlib.Core.List.{Memᴰ}
use mathlib.Core.List.Memᴰ
use py_sqlbridge.Prelude.{
  ◌≤◌, ◌≡◌, ◌⊎◌, refl, sym, ◌∙◌, arith, Bool, true, false, ◌&&◌, ◌||◌, inl, inr, List, [], ◌∷◌, ltb,
  length, Bool-cases, Option-cases,
}
use py_sqlbridge.ResultSet.Types.{ColumnType, integer, small_int}
use py_sqlbridge.Precedence.{
  rank, width, refuses, incompatible, is_untyped, known, all_same, first_clash, greatest, encodable,
  Resolution, agreed, settled, clash, sorted_clash, decide, resolve_known, resolve,
}
use py_sqlbridge.Precedence.Kinds.{all_same-eq}
use py_sqlbridge.Precedence.Order.{
  Below, Below-refl, greatest-Below, greatest-Mem, first_clash-Pair, first_clash-none,
}

-- A branch that says something about the type.
abbrev pub IsKnown : List ColumnType → ColumnType → Type 0
IsKnown kinds k = Memᴰ k kinds × (is_untyped k ≡ false)

-- Where a winner comes from: it is a branch, or the nullable encoding of one.
abbrev pub Origin : List ColumnType → ColumnType → Type 0
Origin kinds w = Memᴰ w kinds ⊎ ((w ≡ integer 2) × Memᴰ small_int kinds)

-- What the outcome says of the branches.
pub data Outcome (kinds : List ColumnType) : Resolution → Type 0 where
  agreeing : ((a b : ColumnType) → Memᴰ a kinds → Memᴰ b kinds → a ≡ b) → Outcome kinds agreed
  winning :
      (w : ColumnType)
      → Origin kinds w
      → ((k : ColumnType) → Memᴰ k kinds → Below k w)
      → ((a b : ColumnType) → Memᴰ a kinds → Memᴰ b kinds → incompatible a b ≡ false)
      → Outcome kinds (settled w)
  clashing :
      (low high : ColumnType)
      → Memᴰ low kinds
      → Memᴰ high kinds
      → incompatible low high ≡ true
      → rank low ≤ rank high
      → Outcome kinds (clash low high)

or_sym : (a b : Bool) → (a || b) ≡ true → (b || a) ≡ true
or_sym true true h = refl
or_sym true false h = refl
or_sym false true h = refl
or_sym false false h = cc

incompatible_sym : (a b : ColumnType) → incompatible a b ≡ true → incompatible b a ≡ true
incompatible_sym a b h = or_sym (refuses a b) (refuses b a) h

pub incompatible_self : (a : ColumnType) → incompatible a a ≡ false
unfolding refuses
incompatible_self (integer w) = refl
incompatible_self _ = refl

second : (a b : Bool) → (a && b) ≡ true → b ≡ true
second true b h = h
second false b h = cc

sorted_clash-Outcome :
    (kinds : List ColumnType) (a b : ColumnType)
    → Memᴰ a kinds
    → Memᴰ b kinds
    → incompatible a b ≡ true
    → Outcome kinds (sorted_clash a b)
sorted_clash-Outcome kinds a b m n bad = elim (Bool-cases (ltb (rank b) (rank a))) [
  | inl lower ↦ rw lower (clashing b a n m (incompatible_sym a b bad) (ground arith))
  | inr higher ↦ rw higher (clashing a b m n bad (ground arith))
]

winner-Outcome :
    (kinds : List ColumnType) (w : ColumnType)
    → Memᴰ w kinds
    → ((k : ColumnType) → Memᴰ k kinds → Below k w)
    → ((a b : ColumnType) → Memᴰ a kinds → Memᴰ b kinds → incompatible a b ≡ false)
    → Outcome kinds (settled (encodable w))
unfolding rank width
winner-Outcome kinds small_int m top fine =
    winning (integer 2) (inr (refl, m))
      (λ k n. let (low, narrow) = top k n in (low, λ e. omega (arith, narrow e))) fine
winner-Outcome kinds w m top fine = winning w (inl m) top fine

decide-Outcome :
    (first : ColumnType) (kinds : List ColumnType) → Outcome (first ∷ kinds) (decide first kinds)
decide-Outcome first kinds =
    let all = first ∷ kinds in
    let (top, others) = greatest-Below first kinds in
    elim (Bool-cases (all_same first all)) [
      | inl same ↦ rw same (
          agreeing
            (λ a b m n. all_same-eq first all same a m ∙ sym (all_same-eq first all same b n)))
      | inr differ ↦ rw differ (elim (Option-cases (first_clash all all)) [
        | inr (p, found) ↦
            let (m, n, bad) = first_clash-Pair all all p found in
            rw found (sorted_clash-Outcome all p.0 p.1 m n bad)
        | inl fine ↦ rw fine (
            winner-Outcome all (greatest first kinds) (greatest-Mem first kinds)
              (λ k m. elim (Memᴰ.cases_cons m) [
                | inl same ↦ rw same top
                | inr later ↦ others k later
              ])
              (first_clash-none all all fine))
      ])
    ]

resolve_known-Outcome :
    (beside_nulls : Bool) (kinds : List ColumnType)
    → Outcome kinds (resolve_known beside_nulls kinds)
resolve_known-Outcome b [] = agreeing (λ a b m n. elim m [ ])
resolve_known-Outcome b (first ∷ kinds) =
    let all = first ∷ kinds in
    elim (Bool-cases (b && all_same first all)) [
      | inl same ↦
          let alike : (k : ColumnType) → Memᴰ k all → k ≡ first =
            all_same-eq first all (second b (all_same first all) same) in
          rw same (
            winning first (inl (Memᴰ.head refl)) (λ k m. rw (alike k m) (Below-refl first))
              (λ x y m n. rw (alike x m, alike y n) (incompatible_self first)))
      | inr differ ↦ rw differ (decide-Outcome first kinds)
    ]

-- What the type of a union's column says of its branches, those that are written NULLs left aside.
-- Where there is nothing to convert, they are all of one type. A type that is chosen is that of a
-- branch, or the int of two bytes that can say NULL in the place of the one that cannot; no branch
-- stands above it, by rank and then by size, and no two branches are incompatible. Two types that
-- clash are two branches that are incompatible, the lower first.
pub resolve-Outcome : (kinds : List ColumnType) → Outcome (known kinds) (resolve kinds)
unfolding resolve
resolve-Outcome kinds =
    resolve_known-Outcome (ltb (length (known kinds)) (length kinds)) (known kinds)
