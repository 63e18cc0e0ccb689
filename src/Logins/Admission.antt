-- ===== src/Logins/Admission.antt =====
-- Whom a store admits.
use mathlib.Core.List.{Memᴰ}
use mathlib.Core.List.Memᴰ
use py_sqlbridge.Prelude.{
  ◌≡◌, ◌⊎◌, ◌↔◌, refl, sym, ap, ◌∙◌, Bool, true, false, not, ◌&&◌, ◌||◌, inl, inr, Option, none,
  some, List, [], ◌∷◌, Bool-cases,
}
use py_sqlbridge.Py.Result.{ok, bind-eq-ok}
use py_sqlbridge.Py.Utf16.{Str}
use py_sqlbridge.Py.Dict.{
  Dict, same_text, dict_get, same_text_refl, same_text-eq, dict_get-dict_set,
  dict_get-dict_set_other,
}
use py_sqlbridge.Logins.{
  Library, Login, LoginStore, matches_hash, login_admits, by_name, new_store, admits_found,
  store_admits, seen, told_apart, from_logins,
}

not_both : (a b : Bool) → (not a && b) ≡ true → (a ≡ false) × (b ≡ true)
not_both false true h = (refl, refl)
not_both false false h = cc
not_both true b h = cc

neither : (a b : Bool) → (a || b) ≡ false → (a ≡ false) × (b ≡ false)
neither false false h = (refl, refl)
neither false true h = cc
neither true b h = cc

same_text_apart : (a b : Str) → same_text a b ≡ false → same_text b a ≡ false
same_text_apart a b h = elim (Bool-cases (same_text b a)) [
  | inl same ↦ (let e : b ≡ a = same_text-eq b a same in cc (rw e at h, same_text_refl a))
  | inr other ↦ other
]

module _ (lib : Library) where
  -- What is found was put there under its name, or was there before.
  by_name-found :
      (logins : List Login) (d : Dict Login) (key : Str) (l : Login)
      → dict_get key (by_name lib logins d) ≡ some l
      → (Memᴰ l logins × (lib.lower l.user ≡ key)) ⊎ (dict_get key d ≡ some l)
  unfolding by_name
  by_name-found [] d key l h = inr h
  by_name-found (x ∷ logins) d key l h = elim (by_name-found logins _ key l h) [
    | inl (m, e) ↦ inl (Memᴰ.tail m, e)
    | inr before ↦ elim (Bool-cases (same_text key (lib.lower x.user))) [
      | inl here ↦
          let same : key ≡ lib.lower x.user = same_text-eq key (lib.lower x.user) here in
          let put : some x ≡ some l =
            sym (dict_get-dict_set (lib.lower x.user) x d) ∙ (rw same at before) in
          let one : l ≡ x = cc in inl (Memᴰ.head one, rw one (sym same))
      | inr other ↦ inr (sym (dict_get-dict_set_other key (lib.lower x.user) x d other) ∙ before)
    ]
  ]

  -- Names that are told apart from those seen.
  told_apart-seen :
      (logins : List Login) (names : List Str) (l : Login)
      → told_apart lib names logins ≡ true
      → Memᴰ l logins
      → seen lib (lib.lower l.user) names ≡ false
  unfolding told_apart seen
  told_apart-seen [] names l h m = elim m [ ]
  told_apart-seen (x ∷ logins) names l h m =
      let (fresh, later) = not_both (seen lib (lib.lower x.user) names) _ h in
      elim (Memᴰ.cases_cons m) [
        | inl same ↦ rw same fresh
        | inr other ↦
            (neither (same_text (lib.lower l.user) (lib.lower x.user)) _
              (told_apart-seen logins (lib.lower x.user ∷ names) l later other)).1
      ]

  -- A name that none of the logins has is where it was.
  by_name-kept :
      (logins : List Login) (d : Dict Login) (key : Str)
      → ((l : Login) → Memᴰ l logins → same_text key (lib.lower l.user) ≡ false)
      → dict_get key (by_name lib logins d) ≡ dict_get key d
  unfolding by_name
  by_name-kept [] d key h = refl
  by_name-kept (x ∷ logins) d key h =
      by_name-kept logins _ key (λ l m. h l (Memᴰ.tail m))
      ∙ dict_get-dict_set_other key (lib.lower x.user) x d (h x (Memᴰ.head refl))

  apart_later :
      (logins : List Login) (names : List Str) (x l : Login)
      → told_apart lib (lib.lower x.user ∷ names) logins ≡ true
      → Memᴰ l logins
      → same_text (lib.lower x.user) (lib.lower l.user) ≡ false
  unfolding seen
  apart_later logins names x l h m =
      same_text_apart (lib.lower l.user) (lib.lower x.user)
        (neither (same_text (lib.lower l.user) (lib.lower x.user)) _
          (told_apart-seen logins (lib.lower x.user ∷ names) l h m)).0

  by_name-Mem :
      (logins : List Login) (d : Dict Login) (names : List Str) (l : Login)
      → told_apart lib names logins ≡ true
      → Memᴰ l logins
      → dict_get (lib.lower l.user) (by_name lib logins d) ≡ some l
  unfolding by_name told_apart
  by_name-Mem [] d names l h m = elim m [ ]
  by_name-Mem (x ∷ logins) d names l h m =
      let (fresh, later) = not_both (seen lib (lib.lower x.user) names) _ h in
      elim (Memᴰ.cases_cons m) [
        | inl same ↦ rw same (
            by_name-kept logins _ (lib.lower x.user) (λ k n. apart_later logins names x k later n)
            ∙ dict_get-dict_set (lib.lower x.user) x d)
        | inr other ↦ by_name-Mem logins _ _ l later other
      ]

  from_logins-eq-ok :
      (logins : List Login) (decoy : Str) (store : LoginStore)
      → from_logins lib logins decoy ≡ ok store
      → (told_apart lib [] logins ≡ true) × (store.logins ≡ by_name lib logins [])
  unfolding from_logins
  from_logins-eq-ok logins decoy store h = elim (Bool-cases (told_apart lib [] logins)) [
    | inl apart ↦
        let same : new_store lib logins decoy ≡ store =
          (let e : ok (new_store lib logins decoy) ≡ ok store = rw apart at h in cc) in
        (apart, sym (ap (λ s. s.logins) same))
    | inr double ↦ cc (rw double at h)
  ]

  -- Nobody is admitted by what is not found.
  admits_found-true :
      (found : Option Login) (store : LoginStore) (password : Str)
      → admits_found lib found store password ≡ ok true
      → (l : Login) × (found ≡ some l) × (login_admits lib l password ≡ ok true)
  admits_found-true none store password h =
      let (b, e, last) = bind-eq-ok (matches_hash lib store.decoy password) _ h in cc
  admits_found-true (some l) store password h = (l, refl, h)

-- A store admits exactly the accounts that it was made of. A user name and a password are admitted
-- when one of the logins has that name, case aside, and admits the password, wherever it stands in
-- the configuration; and nobody else is. The names in the configuration are told apart, as
-- from_document has them.
pub store_admits_iff :
    (lib : Library) (logins : List Login) (decoy : Str) (store : LoginStore) (user password : Str)
    → from_logins lib logins decoy ≡ ok store
    → (store_admits lib store user password ≡ ok true) ↔ (
        (l : Login) × Memᴰ l logins
        × (lib.lower l.user ≡ lib.lower user)
        × (login_admits lib l password ≡ ok true))
unfolding store_admits dict_get
store_admits_iff lib logins decoy store user password h =
    let (apart, held) = from_logins-eq-ok lib logins decoy store h in
    (
      λ yes_.
          let (l, found, admitted) =
            admits_found-true lib (dict_get (lib.lower user) store.logins) store password yes_ in
          elim (by_name-found lib logins [] (lib.lower user) l (rw held at found)) [
            | inl (m, e) ↦ (l, m, e, admitted)
            | inr before ↦ cc
          ],
      λ k.
          let (l, m, e, admitted) = k in
          let found : dict_get (lib.lower user) store.logins ≡ some l =
            rw (held, ← e) (by_name-Mem lib logins [] [] l apart m) in
          rw found admitted,
    )
