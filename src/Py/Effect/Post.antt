-- ===== src/Py/Effect/Post.antt =====
-- What holds when a method returns.
use py_sqlbridge.Prelude.{◌≡◌, refl, Bool, true, false, if◌then◌else◌}
use py_sqlbridge.Py.Result.{Result, ok, err}
use py_sqlbridge.Py.Effect.{Effect, and_then, ◌>>=◌, ◌>>◌, lift, return, read, modify}

abbrev pub Post : {S A : Type 0} → (A → S → Type 0) → Result A × S → Type 0
Post Q (ok a, s) = Q a s
Post Q (err e, s) = Unit {0}

-- Run where `P` holds, the method raises or ends where `Q` holds.
pub record Hoare {S A : Type 0} (P : S → Type 0) (m : Effect S A) (Q : A → S → Type 0)
    : Type 0 where
  pub run : (s : S) → P s → Post Q (m s)

module _ {S A B : Type 0} {Q : B → S → Type 0} where
  Post-and_then :
      (R : A → S → Type 0) (f : A → Effect S B) (r : Result A × S)
      → Post R r
      → ((a : A) → Hoare (R a) (f a) Q)
      → Post Q (and_then f r)
  Post-and_then R f (ok a, t) h k = (k a).run t h
  Post-and_then R f (err e, t) h k = tt

module _ {S A B : Type 0} {P : S → Type 0} {Q : B → S → Type 0} where
  pub Hoare-bind :
      (R : A → S → Type 0) (m : Effect S A) (f : A → Effect S B)
      → Hoare P m R
      → ((a : A) → Hoare (R a) (f a) Q)
      → Hoare P (m >>= f) Q
  Hoare-bind R m f h k = record { run = λ s p. Post-and_then R f (m s) (h.run s p) k }

  pub Hoare-lift :
      (r : Result A) (f : A → Effect S B)
      → ((a : A) → r ≡ ok a → Hoare P (f a) Q)
      → Hoare P (lift r >>= f) Q
  Hoare-lift (ok a) f k = record { run = (k a refl).run }
  Hoare-lift (err e) f k = record { run = λ s p. tt }

module _ {S A : Type 0} {P : S → Type 0} {Q : A → S → Type 0} where
  pub Hoare-read : (f : S → Effect S A) → ((s : S) → Hoare P (f s) Q) → Hoare P (read >>= f) Q
  Hoare-read f k = record { run = λ s p. (k s).run s p }

  pub Hoare-modify :
      (R : S → Type 0) (g : S → S) (m : Effect S A)
      → ((s : S) → P s → R (g s))
      → Hoare R m Q
      → Hoare P (modify g >> m) Q
  Hoare-modify R g m h k = record { run = λ s p. k.run (g s) (h s p) }

  pub Hoare-if :
      (b : Bool) (m n : Effect S A)
      → (b ≡ true → Hoare P m Q)
      → (b ≡ false → Hoare P n Q)
      → Hoare P (if b then m else n) Q
  Hoare-if true m n hm hn = hm refl
  Hoare-if false m n hm hn = hn refl

  pub Hoare-return : (a : A) → ((s : S) → P s → Q a s) → Hoare P (return a) Q
  Hoare-return a h = record { run = h }

-- The same at one state.
module _ {S A B : Type 0} (Q : B → S → Type 0) where
  pub Post-lift :
      (r : Result A) (f : A → Effect S B) (s : S)
      → ((a : A) → r ≡ ok a → Post Q (f a s))
      → Post Q ((lift r >>= f) s)
  Post-lift (ok a) f s k = k a refl
  Post-lift (err e) f s k = tt

  Post-after :
      (R : A → S → Type 0) (f : A → Effect S B) (r : Result A × S)
      → Post R r
      → ((a : A) (t : S) → R a t → Post Q (f a t))
      → Post Q (and_then f r)
  Post-after R f (ok a, t) h k = k a t h
  Post-after R f (err e, t) h k = tt

  pub Post-bind :
      (R : A → S → Type 0) (m : Effect S A) (f : A → Effect S B) (s : S)
      → Post R (m s)
      → ((a : A) (t : S) → R a t → Post Q (f a t))
      → Post Q ((m >>= f) s)
  Post-bind R m f s h k = Post-after R f (m s) h k

module _ {S A : Type 0} (R Q : A → S → Type 0) where
  pub Post-mono : (r : Result A × S) → ((a : A) (s : S) → R a s → Q a s) → Post R r → Post Q r
  Post-mono (ok a, s) h k = h a s k
  Post-mono (err e, s) h k = tt

module _ {S A : Type 0} (Q : A → S → Type 0) where
  pub Post-if :
      (b : Bool) (m n : Effect S A) (s : S)
      → Post Q (m s)
      → Post Q (n s)
      → Post Q ((if b then m else n) s)
  Post-if true m n s hm hn = hm
  Post-if false m n s hm hn = hn
