-- ===== src/Py/Dict.antt =====
-- Python's dictionaries with text for keys, in the order of insertion.
use py_sqlbridge.Prelude.{
  ◌≡◌, refl, arith, Bool, false, Option, none, some, List, [], ◌∷◌, ◌==◌, ◌&&◌, true, if◌then◌else◌,
  inl, inr, Bool-cases,
}
use py_sqlbridge.Py.Utf16.{Str}

abbrev pub Dict : Type 0 → Type 0
Dict O = List (Str × O)

abbrev pub same_text : Str → Str → Bool
same_text [] [] = true
same_text [] (b ∷ bs) = false
same_text (a ∷ xs) [] = false
same_text (a ∷ xs) (b ∷ bs) = a == b && same_text xs bs

unfoldable pub dict_get : {O : Type 0} → Str → Dict O → Option O
dict_get key [] = none
dict_get key ((k, o) ∷ entries) =
    let rest = dict_get key entries in if same_text key k then some o else rest

unfoldable pub dict_set : {O : Type 0} → Str → O → Dict O → Dict O
dict_set key value [] = (key, value) ∷ []
dict_set key value ((k, o) ∷ entries) =
    let rest = dict_set key value entries in
    if same_text key k then (k, value) ∷ entries else (k, o) ∷ rest

pub same_text_refl : (a : Str) → same_text a a ≡ true
same_text_refl [] = refl
same_text_refl (x ∷ a) = ground (arith, same_text_refl a)

pub same_text-eq : (a b : Str) → same_text a b ≡ true → a ≡ b
same_text-eq [] [] h = refl
same_text-eq [] (y ∷ b) h = cc
same_text-eq (x ∷ a) [] h = cc
same_text-eq (x ∷ a) (y ∷ b) h = ground (arith, same_text-eq a b)

module _ {O : Type 0} where
  pub dict_get-dict_set :
      (key : Str) (value : O) (d : Dict O) → dict_get key (dict_set key value d) ≡ some value
  unfolding dict_get dict_set
  dict_get-dict_set key value [] = rw (same_text_refl key) refl
  dict_get-dict_set key value ((k, o) ∷ entries) = elim (Bool-cases (same_text key k)) [
    | inl here ↦ rw (here, here) refl
    | inr there ↦ rw (there, there) (dict_get-dict_set key value entries)
  ]

  pub dict_get-dict_set_other :
      (key other : Str) (value : O) (d : Dict O)
      → same_text key other ≡ false
      → dict_get key (dict_set other value d) ≡ dict_get key d
  unfolding dict_get dict_set
  dict_get-dict_set_other key other value [] h = rw h refl
  dict_get-dict_set_other key other value ((k, o) ∷ entries) h =
      elim (Bool-cases (same_text other k)) [
        | inl here ↦
            let same : other ≡ k = same_text-eq other k here in
            let apart : same_text key k ≡ false = rw same at h in rw (here, apart) refl
        | inr there ↦ elim (Bool-cases (same_text key k)) [
          | inl first ↦ rw (there, first) refl
          | inr later ↦ rw (there, later) (dict_get-dict_set_other key other value entries h)
        ]
      ]
