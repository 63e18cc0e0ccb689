-- ===== src/Py/Effect/Frame.antt =====
-- What a method leaves related to what it was: a relation that is reflexive and transitive.
use py_sqlbridge.Prelude.{Bool, true, false, if◌then◌else◌}
use py_sqlbridge.Py.Result.{Exc, Result, ok, err}
use py_sqlbridge.Py.Effect.{Effect, ◌>>=◌, return, lift, modify, read, raise}
use py_sqlbridge.Py.Effect.Post.{Post, Hoare, Hoare-bind}

pub record IsPreorder {S : Type 0} (R : S → S → Type 0) : Type 0 where
  pub same : (s : S) → R s s
  pub then_ : (s t u : S) → R s t → R t u → R s u

-- What returns is related to what it started from.
abbrev pub Frames : {S A : Type 0} → (S → S → Type 0) → Effect S A → Type 0
Frames {S} R m = (s : S) → Post (λ _ t. R s t) (m s)

module _ {S A : Type 0} {R : S → S → Type 0} (p : IsPreorder R) where
  pub Frames-return : (a : A) → Frames R (return a)
  Frames-return a s = p.same s

  pub Frames-lift : (r : Result A) → Frames R (lift r)
  Frames-lift (ok a) s = p.same s
  Frames-lift (err e) s = tt

  pub Frames-if :
      (b : Bool) (m n : Effect S A) → Frames R m → Frames R n → Frames R (if b then m else n)
  Frames-if true m n hm hn = hm
  Frames-if false m n hm hn = hn

  pub Frames-read : (f : S → Effect S A) → ((s : S) → Frames R (f s)) → Frames R (read >>= f)
  Frames-read f h s = h s s

  Post-before : (s t : S) (r : Result A × S) → R s t → Post (λ _ u. R t u) r → Post (λ _ u. R s u) r
  Post-before s t (ok b, u) h k = p.then_ s t u h k
  Post-before s t (err x, u) h k = tt

module _ {S A B : Type 0} {R : S → S → Type 0} (p : IsPreorder R) where
  pub Frames-bind :
      (m : Effect S A) (f : A → Effect S B)
      → Frames R m
      → ((a : A) → Frames R (f a))
      → Frames R (m >>= f)
  Frames-bind m f hm hf s =
      let go : Hoare (λ t. R s t) (m >>= f) (λ _ u. R s u) =
        Hoare-bind (λ _ t. R s t) m f (record { run = λ t h. Post-before p s t (m t) h (hm t) })
          (λ a. record { run = λ t h. Post-before p s t (f a t) h (hf a t) }) in
      go.run s (p.same s)

module _ {S : Type 0} {R : S → S → Type 0} (p : IsPreorder R) where
  pub Frames-raise : (A : Type 0) (e : Exc) → Frames R (raise {A = A} e)
  Frames-raise A e s = tt

  pub Frames-modify : (g : S → S) → ((s : S) → R s (g s)) → Frames R (modify g)
  Frames-modify g h s = h s

module _ {S A : Type 0} (I : S → Type 0) where
  Post-holds :
      (R : S → S → Type 0) (s : S) (r : Result A × S)
      → ((t : S) → R s t → I t)
      → Post (λ _ t. R s t) r
      → Post (λ _ t. I t) r
  Post-holds R s (ok a, t) h k = h t k
  Post-holds R s (err e, t) h k = tt

  -- What holds of a state and of those that are related to it holds after such a method.
  pub Hoare-Frames :
      (R : S → S → Type 0) (m : Effect S A)
      → ((s t : S) → R s t → I s → I t)
      → Frames R m
      → Hoare I m (λ _ t. I t)
  Hoare-Frames R m h k = record { run = λ s i. Post-holds R s (m s) (λ t r. h s t r i) (k s) }

module _ {S A : Type 0} (R Q : S → S → Type 0) where
  Post-weaken :
      (s : S) (r : Result A × S)
      → ((t : S) → R s t → Q s t)
      → Post (λ _ t. R s t) r
      → Post (λ _ t. Q s t) r
  Post-weaken s (ok a, t) h k = h t k
  Post-weaken s (err e, t) h k = tt

  pub Frames-weaken : (m : Effect S A) → ((s t : S) → R s t → Q s t) → Frames R m → Frames Q m
  Frames-weaken m h k s = Post-weaken s (m s) (h s) (k s)
