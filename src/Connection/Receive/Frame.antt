-- ===== src/Connection/Receive/Frame.antt =====
-- What the transport leaves alone.
use py_sqlbridge.Prelude.{ℕ, ◌==◌, ◌≡◌, refl, ◌∙◌, Option, some, none, List, length, concat}
use py_sqlbridge.Py.Bytes.{Bytes}
use py_sqlbridge.Py.Effect.{Effect, ◌>>=◌, return, lift, modify}
use py_sqlbridge.Py.Effect.Post.{Hoare}
use py_sqlbridge.Py.Effect.Frame.{
  IsPreorder, Frames, Frames-return, Frames-lift, Frames-if, Frames-read, Frames-bind,
  Frames-modify, Frames-weaken,
}
use py_sqlbridge.Packet.{reassemble, build_message, tabular_result, default_packet_size}
use py_sqlbridge.Tls.{Tunnel, unwrap, wrap}
use py_sqlbridge.Connection.State.{World, Connection}
use py_sqlbridge.Connection.Transport.{
  assert_some, given, through, decrypt, take_clear, take_plain, take_message, send, is_tunnelled,
  queue,
}

module _ {w : World} where
  -- The same state, login and acceptor: whether the connection is admitted is the same.
  pub record Same (c d : Connection w) : Type 0 where
    pub state : d.state ≡ c.state
    pub login : d.login ≡ c.login
    pub acceptor : d.acceptor ≡ c.acceptor

  -- The same bytes to read.
  pub record Unread (c d : Connection w) : Type 0 where
    pub buffer : d.buffer ≡ c.buffer
    pub plaintext : d.plaintext ≡ c.plaintext

  abbrev pub Aside : Connection w → Connection w → Type 0
  Aside c d = Same c d × Unread c d

  pub same : IsPreorder Same
  same = record {
    same = λ c. record { state = refl; login = refl; acceptor = refl };
    then_ = λ c d e h k. record {
      state = k.state ∙ h.state;
      login = k.login ∙ h.login;
      acceptor = k.acceptor ∙ h.acceptor;
    };
  }

  pub unread : IsPreorder Unread
  unread = record {
    same = λ c. record { buffer = refl; plaintext = refl };
    then_ =
        λ c d e h k. record { buffer = k.buffer ∙ h.buffer; plaintext = k.plaintext ∙ h.plaintext };
  }

  pub aside : IsPreorder Aside
  aside = record {
    same = λ c. (same.same c, unread.same c);
    then_ = λ c d e h k. (same.then_ c d e (h.0) (k.0), unread.then_ c d e (h.1) (k.1));
  }

  -- A change of none of the three, of neither of the two, and of none of the five.
  abbrev pub kept :
      {c d : Connection w}
      → d.state ≡ c.state
      → d.login ≡ c.login
      → d.acceptor ≡ c.acceptor
      → Same c d
  kept s l a = record { state = s; login = l; acceptor = a }

  abbrev pub left :
      {c d : Connection w} → d.buffer ≡ c.buffer → d.plaintext ≡ c.plaintext → Unread c d
  left b p = record { buffer = b; plaintext = p }

module _ {w : World} {A : Type 0} where
  pub Frames-assert_some :
      {R : Connection w → Connection w → Type 0}
      → IsPreorder R
      → (o : Option A) → Frames R (assert_some o)
  Frames-assert_some p none c = tt
  Frames-assert_some p (some a) c = p.same c

  pub Same-Aside : (m : Effect (Connection w) A) → Frames Aside m → Frames Same m
  Same-Aside m h = Frames-weaken Aside Same m (λ c d k. k.0) h

  pub Unread-Aside : (m : Effect (Connection w) A) → Frames Aside m → Frames Unread m
  Unread-Aside m h = Frames-weaken Aside Unread m (λ c d k. k.1) h

module _ {w : World} {A B : Type 0} {R : Connection w → Connection w → Type 0}
    (p : IsPreorder R) where
  pub Frames-given :
      (o : Option A) (b : B) (f : A → Effect (Connection w) B)
      → ((a : A) → Frames R (f a))
      → Frames R (given o b f)
  Frames-given none b f h c = p.same c
  Frames-given (some a) b f h c = h a c

module _ {w : World} where
  pub through-Frames : {A : Type 0} (m : Effect (Tunnel w.engine) A) → Frames Aside (through w m)
  unfolding through
  through-Frames {A} m = Frames-read aside _ (λ c.
      Frames-bind aside (assert_some c.tunnel) _ (Frames-assert_some aside c.tunnel) (λ t.
        Frames-bind aside (modify _) _
          (Frames-modify aside _ (λ d. (kept refl refl refl, left refl refl)))
          (λ _. Frames-lift aside ((m t).0))))

  pub queue-Frames : (packets : List Bytes) → Frames Aside (queue w packets)
  queue-Frames packets = Frames-modify aside _ (λ d. (kept refl refl refl, left refl refl))

  pub send-Frames : (payload : Bytes) (id : ℕ) → Frames Aside (send w payload id)
  unfolding send
  send-Frames payload id = Frames-read aside _ (λ c.
      Frames-bind aside (lift (build_message tabular_result payload default_packet_size c.spid id))
        _ (Frames-lift aside _)
        (λ packets.
          Frames-if aside (is_tunnelled w c) _ (queue w packets)
            (Frames-bind aside (through w (wrap w.engine (concat packets))) _ (through-Frames _)
              (λ records. queue-Frames _))
            (queue-Frames packets)))

  pub decrypt-Frames : Frames Same (decrypt w)
  unfolding decrypt
  decrypt-Frames = Frames-read same _ (λ c.
      Frames-bind same (through w (unwrap w.engine c.buffer)) _
        (Same-Aside _ (through-Frames (unwrap w.engine c.buffer)))
        (λ plain. Frames-modify same _ (λ d. kept refl refl refl)))

  pub take_clear-Frames : Frames Same (take_clear w)
  unfolding take_clear
  take_clear-Frames = Frames-read same _ (λ c.
      Frames-bind same (lift (reassemble c.buffer)) _ (Frames-lift same (reassemble c.buffer))
        (λ o. Frames-given same o none _ (λ m c. kept refl refl refl)))

  pub take_plain-Frames : Frames Same (take_plain w)
  unfolding take_plain
  take_plain-Frames = Frames-read same _ (λ c.
      Frames-bind same (lift (reassemble c.plaintext)) _ (Frames-lift same (reassemble c.plaintext))
        (λ o. Frames-given same o none _ (λ m c. kept refl refl refl)))

  pub take_message-Frames : Frames Same (take_message w)
  unfolding take_message
  take_message-Frames = Frames-read same _ (λ c.
      Frames-if same (is_tunnelled w c) _ (take_clear w)
        (Frames-bind same _ (λ _. take_plain w)
          (Frames-if same (length c.buffer == 0) (return tt) (decrypt w) (Frames-return same tt)
            decrypt-Frames)
          (λ _. take_plain-Frames))
        take_clear-Frames)

module _ {w : World} {A B : Type 0} {P : Connection w → Type 0}
    {Q : B → Connection w → Type 0} where
  pub Hoare-assert_some :
      (o : Option A) (f : A → Effect (Connection w) B)
      → ((a : A) → Hoare P (f a) Q)
      → Hoare P (assert_some o >>= f) Q
  Hoare-assert_some none f k = record { run = λ c h. tt }
  Hoare-assert_some (some a) f k = record { run = (k a).run }

  pub Hoare-given :
      (o : Option A) (b : B) (f : A → Effect (Connection w) B)
      → ((c : Connection w) → P c → Q b c)
      → ((a : A) → Hoare P (f a) Q)
      → Hoare P (given o b f) Q
  Hoare-given none b f h k = record { run = h }
  Hoare-given (some a) b f h k = k a
