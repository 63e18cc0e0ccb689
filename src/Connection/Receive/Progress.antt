-- ===== src/Connection/Receive/Progress.antt =====
-- What a step that moves has read.
use py_sqlbridge.Prelude.{
  ℕ, zero, suc, ◌⊎◌, ◌==◌, ◌<◌, ◌≡◌, refl, ◌∙◌, arith, Bool, true, false, not, Option, none, some,
  [], length, drop, length-drop, if◌then◌else◌, inl, inr,
}
use py_sqlbridge.Py.Result.{Result, ok, err}
use py_sqlbridge.Py.Bytes.{Bytes}
use py_sqlbridge.Py.Effect.{Effect, ◌>>=◌, ◌>>◌, return, modify}
use py_sqlbridge.Py.Effect.Post.{Post, Post-lift, Post-bind, Post-mono, Post-if}
use py_sqlbridge.Py.Effect.Frame.{Frames}
use py_sqlbridge.Packet.{Message, reassemble}
use py_sqlbridge.Packet.Progress.{reassemble_bounds}
use py_sqlbridge.Tls.{unwrap}
use py_sqlbridge.Connection.State.{World, Connection}
use py_sqlbridge.Connection.Transport.{
  given, assert_some, through, decrypt, take_clear, take_plain, take_message, is_tunnelled,
}
use py_sqlbridge.Connection.Handshake.{
  step_prelogin, step_handshake, step_login, step_sspi, answer_prelogin, advance, answer_login,
  answer_sspi,
}
use py_sqlbridge.Connection.Query.{answer_one, step_query}
use py_sqlbridge.Connection.Receive.Frame.{Unread, Unread-Aside}
use py_sqlbridge.Connection.Receive.Unread.{
  answer_prelogin-Leaves, advance-Leaves, answer_login-Leaves, answer_sspi-Leaves,
}
use py_sqlbridge.Connection.Receive.Queries.{answer_one-Frames}

taken_shorter :
    (bytes : Bytes) (m : Message)
    → reassemble bytes ≡ ok (some m)
    → length (drop m.consumed bytes) < length bytes
taken_shorter bytes m e =
    let (some_, within, framed) = reassemble_bounds bytes m e in
    omega (arith, length-drop m.consumed bytes)

ℕ-cases : (n : ℕ) → (n ≡ 0) ⊎ (0 < n)
ℕ-cases zero = inl refl
ℕ-cases (suc n) = inr (omega arith)

Post-trivial : {S A : Type 0} (r : Result A × S) → Post (λ _ _. Unit {0}) r
Post-trivial (ok a, s) = tt
Post-trivial (err e, s) = tt

module _ {w : World} where
  -- There are fewer bytes as they arrived, or as many and fewer that were decrypted.
  pub data Shrinks (c d : Connection w) : Type 0 where
    arrived : length d.buffer < length c.buffer → Shrinks c d
    decrypted : d.buffer ≡ c.buffer → length d.plaintext < length c.plaintext → Shrinks c d

  pub Shrinks-Unread : (c d e : Connection w) → Shrinks c d → Unread d e → Shrinks c e
  Shrinks-Unread c d e (arrived h) u = arrived (rw u.buffer h)
  Shrinks-Unread c d e (decrypted s h) u = decrypted (u.buffer ∙ s) (rw u.plaintext h)

  -- A message was taken, and with it bytes.
  abbrev pub Took : Connection w → Option Message → Connection w → Type 0
  Took c none d = Unit {0}
  Took c (some m) d = Shrinks c d

  given-clear :
      (c : Connection w) (o : Option Message)
      → reassemble c.buffer ≡ ok o
      → Post (Took c) (
          given o none
            (λ m. modify (λ c. record c { buffer = drop m.consumed c.buffer }) >> return (some m))
            c)
  given-clear c none e = tt
  given-clear c (some m) e = arrived (taken_shorter c.buffer m e)

  take_clear-Took : (c : Connection w) → Post (Took c) (take_clear w c)
  unfolding take_clear
  take_clear-Took c = Post-lift (Took c) (reassemble c.buffer) _ c (given-clear c)

  -- Taking from the plaintext leaves what arrived.
  TookPlain : Connection w → Option Message → Connection w → Type 0
  TookPlain c o d = (d.buffer ≡ c.buffer) × Took c o d

  given-plain :
      (c : Connection w) (o : Option Message)
      → reassemble c.plaintext ≡ ok o
      → Post (TookPlain c) (
          given o none
            (λ m.
              modify (λ c. record c { plaintext = drop m.consumed c.plaintext }) >> return (some m))
            c)
  unfolding TookPlain
  given-plain c none e = (refl, tt)
  given-plain c (some m) e = (refl, decrypted refl (taken_shorter c.plaintext m e))

  take_plain-TookPlain : (c : Connection w) → Post (TookPlain c) (take_plain w c)
  unfolding take_plain
  take_plain-TookPlain c = Post-lift (TookPlain c) (reassemble c.plaintext) _ c (given-plain c)

  decrypt_empties : (c : Connection w) → Post (λ _ d. d.buffer ≡ []) (decrypt w c)
  unfolding decrypt
  decrypt_empties c =
      Post-bind (λ _ d. d.buffer ≡ []) (λ _ _. Unit {0}) (through w (unwrap w.engine c.buffer)) _ c
        (Post-trivial (through w (unwrap w.engine c.buffer) c)) (λ plain d h. refl)

  -- After what arrived was decrypted, if there was any.
  Decrypted : Connection w → Connection w → Type 0
  Decrypted c d = (length c.buffer ≡ 0 → d ≡ c) × (0 < length c.buffer → d.buffer ≡ [])

  decrypt_some :
      (b : Bool) (c : Connection w)
      → (length c.buffer == 0) ≡ b
      → Post (λ _ d. Decrypted c d) ((if b then return tt else decrypt w) c)
  unfolding Decrypted
  decrypt_some true c e = (λ _. refl, λ some_. absurd (ground arith))
  decrypt_some false c e =
      Post-mono (λ _ d. d.buffer ≡ []) (λ _ d. Decrypted c d) (decrypt w c)
        (λ _ d h. (λ none_. absurd (ground arith), λ _. h)) (decrypt_empties c)

  -- What follows a decryption takes bytes of what was there before it.
  Took-Decrypted :
      (c d e : Connection w) (o : Option Message) → Decrypted c d → TookPlain d o e → Took c o e
  unfolding Decrypted TookPlain
  Took-Decrypted c d e none h k = tt
  Took-Decrypted c d e (some m) h k = elim (ℕ-cases (length c.buffer)) [
    | inl empty ↦ let same = h.0 empty in rw (← same) (k.1)
    | inr more ↦ arrived (rw (k.0, h.1 more) more)
  ]

  take_message-Took : (c : Connection w) → Post (Took c) (take_message w c)
  unfolding take_message
  take_message-Took c =
      Post-if (Took c) (is_tunnelled w c) _ (take_clear w) c
        (Post-bind (Took c) (λ _ d. Decrypted c d)
          (if length c.buffer == 0 then return tt else decrypt w) (λ _. take_plain w) c
          (decrypt_some (length c.buffer == 0) c refl)
          (λ _ d h.
            Post-mono (TookPlain d) (Took c) (take_plain w d) (λ o e k. Took-Decrypted c d e o h k)
              (take_plain-TookPlain d)))
        (take_clear-Took c)

  -- A step that says that it moved has read bytes.
  abbrev pub Moves : Connection w → Bool → Connection w → Type 0
  Moves c moved d = moved ≡ true → Shrinks c d

  answered-Moves :
      (c : Connection w) (o : Option Message) (f : Message → Effect (Connection w) Bool)
      (d : Connection w)
      → ((m : Message) → Frames Unread (f m))
      → Took c o d
      → Post (Moves c) (given o false f d)
  answered-Moves c none f d h k = λ e. cc
  answered-Moves c (some m) f d h k =
      Post-mono (λ _ e. Unread d e) (Moves c) (f m d) (λ moved e u yes_. Shrinks-Unread c d e k u)
        (h m d)

  -- Taking a message and answering it.
  taking-Moves :
      (c : Connection w) (take_ : Effect (Connection w) (Option Message))
      (f : Message → Effect (Connection w) Bool)
      → ((m : Message) → Frames Unread (f m))
      → Post (Took c) (take_ c)
      → Post (Moves c) ((take_ >>= λ o. given o false f) c)
  taking-Moves c take_ f h k =
      Post-bind (Moves c) (Took c) take_ (λ o. given o false f) c k
        (λ o d t. answered-Moves c o f d h t)

  asserted-Moves :
      {A : Type 0} (c : Connection w) (o : Option A) (f : A → Effect (Connection w) Bool)
      → ((a : A) → Post (Moves c) (f a c))
      → Post (Moves c) ((assert_some o >>= f) c)
  asserted-Moves c none f h = tt
  asserted-Moves c (some a) f h = h a

  pub step_prelogin-Moves : (c : Connection w) → Post (Moves c) (step_prelogin w c)
  unfolding step_prelogin
  step_prelogin-Moves c =
      taking-Moves c (take_clear w) (answer_prelogin w) answer_prelogin-Leaves (take_clear-Took c)

  pub step_handshake-Moves : (c : Connection w) → Post (Moves c) (step_handshake w c)
  unfolding step_handshake
  step_handshake-Moves c =
      asserted-Moves c c.tunnel _
        (λ tunnel. taking-Moves c (take_clear w) (advance w) advance-Leaves (take_clear-Took c))

  pub step_sspi-Moves : (c : Connection w) → Post (Moves c) (step_sspi w c)
  unfolding step_sspi
  step_sspi-Moves c = asserted-Moves c c.acceptor _ (λ acceptor.
      taking-Moves c (take_message w) (answer_sspi w) answer_sspi-Leaves (take_message-Took c))

  pub step_query-Moves : (c : Connection w) → Post (Moves c) (step_query w c)
  unfolding step_query
  step_query-Moves c =
      taking-Moves c (take_message w) (answer_one w)
        (λ m. Unread-Aside (answer_one w m) (answer_one-Frames m)) (take_message-Took c)

  -- The login step moves as soon as anything has arrived.
  login-Moves :
      (b : Bool) (c d e : Connection w) (o : Option Message)
      → (length c.buffer == 0) ≡ b
      → Decrypted c d
      → TookPlain d o e
      → Post (Moves c) (given o (not b) (answer_login w) e)
  unfolding Decrypted TookPlain
  login-Moves true c d e none empty h k = λ no_. cc
  login-Moves false c d e none empty h k =
      λ _. arrived (rw (k.0, h.1 (ground arith)) (ground arith))
  login-Moves b c d e (some m) empty h k =
      answered-Moves c (some m) (answer_login w) e answer_login-Leaves
        (unfold TookPlain in Took-Decrypted c d e (some m) h k)

  decrypt_if-Decrypted :
      (b : Bool) (c : Connection w)
      → (length c.buffer == 0) ≡ b
      → Post (λ _ d. Decrypted c d) ((if not b then decrypt w else return tt) c)
  decrypt_if-Decrypted true c e = decrypt_some true c e
  decrypt_if-Decrypted false c e = decrypt_some false c e

  pub step_login-Moves : (c : Connection w) → Post (Moves c) (step_login w c)
  unfolding step_login
  step_login-Moves c = asserted-Moves c c.tunnel _ (λ tunnel.
      Post-bind (Moves c) (λ _ d. Decrypted c d)
        (if not (length c.buffer == 0) then decrypt w else return tt) _ c
        (decrypt_if-Decrypted (length c.buffer == 0) c refl)
        (λ _ d h.
          Post-bind (Moves c) (TookPlain d) (take_plain w) _ d (take_plain-TookPlain d)
            (λ o e k. login-Moves (length c.buffer == 0) c d e o refl h k)))
