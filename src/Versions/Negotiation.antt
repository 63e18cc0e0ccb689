-- ===== src/Versions/Negotiation.antt =====
-- What `negotiate` answers.
use py_sqlbridge.Prelude.{
  ℕ, ◌≤◌, ◌<◌, ◌≡◌, arith, true, false, inl, inr, some, List, [], ◌∷◌, Bool-cases, Option-cases,
  ltb,
}
use py_sqlbridge.Versions.{tds_70, known_versions, contains, newest_below, negotiate}

-- The newest of a list's versions below `r` lies in the list, below `r`, and at or above every
-- version of the list that lies below `r`.
newest_below-some :
    (xs : List ℕ) (r best : ℕ)
    → newest_below xs r ≡ some best
    → (contains xs best ≡ true) × (best < r)
newest_below-some [] r best h = cc
newest_below-some (x ∷ xs) r best h = elim (Option-cases (newest_below xs r)) [
  | inl nothing ↦ ground (arith, rw nothing at h)
  | inr (y, found) ↦ let ih = newest_below-some xs r y found in ground (arith, rw found at h, ih)
]

reached :
    (x y : ℕ) (xs : List ℕ) (v : ℕ)
    → contains (x ∷ xs) v ≡ true
    → (contains xs v ≡ true → v ≤ y)
    → x ≤ y
    → v ≤ y
reached x y xs v h reach le = elim (Bool-cases (contains xs v)) [
  | inl later ↦ reach later
  | inr other ↦ ground arith
]

bounded :
    (x y : ℕ) (xs : List ℕ) (v : ℕ)
    → contains (x ∷ xs) v ≡ true
    → (contains xs v ≡ true → v ≤ y)
    → y ≤ x
    → v ≤ x
bounded x y xs v h reach le = elim (Bool-cases (contains xs v)) [
  | inl later ↦ omega (arith, reach later)
  | inr other ↦ ground arith
]

strictly :
    (requested v : ℕ)
    → contains known_versions v ≡ true
    → contains known_versions requested ≡ false
    → v ≤ requested
    → v < requested
strictly requested v known other le = ground arith

newest_below_newest :
    (xs : List ℕ) (r v : ℕ)
    → contains xs v ≡ true
    → v < r
    → (best : ℕ) × (newest_below xs r ≡ some best) × (v ≤ best)
newest_below_newest [] r v h lt = cc
newest_below_newest (x ∷ xs) r v h lt = elim (Option-cases (newest_below xs r)) [
  | inl nothing ↦ elim (Bool-cases (contains xs v)) [
    | inl later ↦ let (y, found, le) = newest_below_newest xs r v later lt in cc (nothing, found)
    | inr other ↦ let e : x ≡ v = ground arith in (x, rw nothing (ground arith), omega arith)
  ]
  | inr (y, found) ↦
      let reach : contains xs v ≡ true → v ≤ y = λ later.
        (let (z, found', le) = newest_below_newest xs r v later lt in
          ground (arith, found, found')) in
      elim (Bool-cases (ltb x r)) [
        | inl below ↦ elim (Bool-cases (ltb x y)) [
          | inl less ↦ (y, rw (found, below, less), reached x y xs v h reach (ground arith))
          | inr more ↦ (x, rw (found, below, more), bounded x y xs v h reach (ground arith))
        ]
        | inr above ↦ (y, rw (found, above), ground (arith, reach))
      ]
]

-- For a request from TDS 7.0 on, the answer is a known version, not newer than the request, and
-- at least as new as every known version that is not newer than the request.
pub negotiate_best :
    (requested v : ℕ)
    → tds_70 ≤ requested
    → contains known_versions v ≡ true
    → v ≤ requested
    → (contains known_versions (negotiate requested) ≡ true)
      × (negotiate requested ≤ requested)
      × (v ≤ negotiate requested)
unfolding negotiate
negotiate_best requested v lo known le = elim (Bool-cases (contains known_versions requested)) [
  | inl same ↦ rw same (same, omega arith, le)
  | inr other ↦
      let below : v < requested = strictly requested v known other le in
      let (best, found, up) = newest_below_newest known_versions requested v known below in
      let facts = newest_below-some known_versions requested best found in
      rw (other, found) (facts.0, omega arith, up)
]
