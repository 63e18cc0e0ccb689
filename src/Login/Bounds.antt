-- ===== src/Login/Bounds.antt =====
-- What `Login7.parse` does with any payload.
use py_sqlbridge.Prelude.{
  ℕ, ◌+◌, ◌-◌, ◌*◌, ◌≤◌, ◌≡◌, refl, arith, Bool, true, false, not, inl, inr, [], length,
  length-take, length-drop, drop, ltb, ◌==◌, Bool-cases,
}
use py_sqlbridge.Py.Result.{Exc, Result, ok, err, protocol_error, ◌>>=◌, raise_if, Result-cases}
use py_sqlbridge.Py.Bytes.{Bytes, slice, unpack_le}
use py_sqlbridge.Py.Bytes.Total.{unpack_le_room}
use py_sqlbridge.Py.Utf16.{Str, decode_utf16}
use py_sqlbridge.Py.Utf16.RoundTrip.{decode_utf16_errors}
use py_sqlbridge.Batch.{catch_decode}
use py_sqlbridge.Login.{slice_of, read_pair, read_string, read_password, sspi_length, Login7, parse}

-- It returns something with the property, or raises the protocol's exception.
data Yields {A : Type 0} (P : A → Type 0) : Result A → Type 0 where
  yields : (a : A) → P a → Yields P (ok a)
  fails : Yields P (err protocol_error)

module _ {A B : Type 0} {Q : A → Type 0} {P : B → Type 0} where
  Yields-bind :
      (m : Result A) (f : A → Result B)
      → Yields Q m
      → ((a : A) → Q a → Yields P (f a))
      → Yields P (m >>= f)
  Yields-bind _ f (yields a h) k = k a h
  Yields-bind _ f fails k = fails

module _ {A : Type 0} {P : A → Type 0} where
  Yields-map : {Q : A → Type 0} {r : Result A} → Yields Q r → ((a : A) → Q a → P a) → Yields P r
  Yields-map (yields a h) k = yields a (k a h)
  Yields-map fails k = fails

  Yields-err : (r : Result A) (e : Exc) → Yields P r → r ≡ err e → e ≡ protocol_error
  Yields-err _ e (yields a h) k = cc
  Yields-err _ e fails k = cc

  Yields-ok : (r : Result A) (a : A) → Yields P r → r ≡ ok a → P a
  Yields-ok _ a (yields b h) k = let same : b ≡ a = cc in rw (← same) h
  Yields-ok _ a fails k = cc

abbrev Any {ℓ} : {A : Type ℓ} → A → Type 0
Any a = Unit {0}

raise_if-Yields : (b : Bool) → Yields Any (raise_if b protocol_error)
raise_if-Yields true = fails
raise_if-Yields false = yields tt tt

-- The whole run of bytes that an offset and a size name.
abbrev pub IsRun : Bytes → ℕ → ℕ → Bytes → Type 0
IsRun p offset size blob = (blob ≡ slice p offset (offset + size)) × (length blob ≡ size)

slice_of-Yields :
    (p : Bytes) (offset size : ℕ) → Yields (IsRun p offset size) (slice_of p offset size)
unfolding slice_of
slice_of-Yields p offset size = elim (Bool-cases (size == 0)) [
  | inl empty ↦
      let none_there : size ≡ 0 = ground arith in
      let nothing : offset + 0 - offset ≡ 0 = omega arith in
      rw none_there (yields [] (rw nothing refl, refl))
  | inr there ↦ elim (Bool-cases (ltb (length p) offset)) [
    | inl past ↦ rw (there, past) fails
    | inr before ↦ elim (Bool-cases (ltb (length p) (offset + size))) [
      | inl cut ↦ rw (there, before, cut) fails
      | inr room ↦
          let inside : offset + size ≤ length p = ground arith in
          let wide : length (slice p offset (offset + size)) ≡ size =
            omega
              (arith, length-take (offset + size - offset) (drop offset p), length-drop offset p) in
          rw (there, before, room) (yields (slice p offset (offset + size)) (refl, wide))
    ]
  ]
]

decode-Yields :
    (blob : Bytes) → Yields (λ s. decode_utf16 blob ≡ ok s) (catch_decode (decode_utf16 blob))
decode-Yields blob = elim (Result-cases (decode_utf16 blob)) [
  | inl (s, e) ↦ rw e (yields s refl)
  | inr (x, e) ↦ rw (e, decode_utf16_errors blob x e) fails
]

module _ (p : Bytes) where
  -- The bytes that the pair at `at` points at: as many as twice its count says, at its offset.
  abbrev pub Points : ℕ → Bytes → Type 0
  Points at blob =
      (offset : ℕ) × (count : ℕ) × (read_pair p at ≡ ok (offset, count))
      × IsRun p offset (count * 2) blob

  -- The text of those bytes.
  abbrev pub PointsText : ℕ → Str → Type 0
  PointsText at s = (blob : Bytes) × Points at blob × (decode_utf16 blob ≡ ok s)

  -- The bytes of the SSPI field, whose size can stand in the 32-bit field at 90.
  abbrev pub PointsSspi : Bytes → Type 0
  PointsSspi blob =
      (offset : ℕ) × (short : ℕ) × (long : ℕ) × (read_pair p 78 ≡ ok (offset, short))
      × (unpack_le 4 p 90 ≡ ok long)
      × IsRun p offset (sspi_length short long) blob

  -- Where each variable field of a login was read.
  pub record IsPointed (l : Login7) : Type 0 where
    pub host_name : PointsText 36 l.host_name
    pub user_name : PointsText 40 l.user_name
    pub password : Points 44 l.password
    pub app_name : PointsText 48 l.app_name
    pub server_name : PointsText 52 l.server_name
    pub extension : PointsText 56 l.extension
    pub client_interface_name : PointsText 60 l.client_interface_name
    pub language : PointsText 64 l.language
    pub database : PointsText 68 l.database
    pub sspi : PointsSspi l.sspi
    pub atch_db_file : PointsText 82 l.atch_db_file
    pub change_password : PointsText 86 l.change_password

module _ (p : Bytes) (long : 94 ≤ length p) where
  field-Yields : (w at : ℕ) → at + w ≤ 94 → Yields (λ n. unpack_le w p at ≡ ok n) (unpack_le w p at)
  field-Yields w at h =
      let e = unpack_le_room w p at (omega (arith, h, long)) in rw e (yields _ refl)

  read_pair-Yields :
      (at : ℕ) → at + 4 ≤ 94 → Yields (λ pair. read_pair p at ≡ ok pair) (read_pair p at)
  unfolding read_pair
  read_pair-Yields at h =
      let a = unpack_le_room 2 p at (omega (arith, h, long)) in
      let b = unpack_le_room 2 p (at + 2) (omega (arith, h, long)) in rw (a, b) (yields _ refl)

  read_password-Yields : (at : ℕ) → at + 4 ≤ 94 → Yields (Points p at) (read_password p at)
  unfolding read_password
  read_password-Yields at h = Yields-bind _ _ (read_pair-Yields at h) λ pair e.
      Yields-map (slice_of-Yields p pair.0 (pair.1 * 2)) λ blob run. (pair.0, pair.1, e, run)

  read_string-Yields : (at : ℕ) → at + 4 ≤ 94 → Yields (PointsText p at) (read_string p at)
  unfolding read_string
  read_string-Yields at h = Yields-bind _ _ (read_pair-Yields at h) λ pair e.
      Yields-bind _ _ (slice_of-Yields p pair.0 (pair.1 * 2)) λ blob run.
        Yields-map (decode-Yields blob) λ s decoded. (blob, (pair.0, pair.1, e, run), decoded)

  -- The fields and strings behind the check of the size.
  parse-Yields : Yields (IsPointed p) (parse p)
  unfolding parse
  parse-Yields = Yields-bind _ _ (raise_if-Yields (ltb (length p) 94)) λ _ _.
      Yields-bind _ _ (field-Yields 4 0 (omega arith)) λ declared _.
        Yields-bind _ _ (field-Yields 4 4 (omega arith)) λ _ _.
          Yields-bind _ _ (field-Yields 4 8 (omega arith)) λ _ _.
            Yields-bind _ _ (field-Yields 4 12 (omega arith)) λ _ _.
              Yields-bind _ _ (field-Yields 4 16 (omega arith)) λ _ _.
                Yields-bind _ _ (field-Yields 4 20 (omega arith)) λ _ _.
                  Yields-bind _ _ (field-Yields 1 24 (omega arith)) λ _ _.
                    Yields-bind _ _ (field-Yields 1 25 (omega arith)) λ _ _.
                      Yields-bind _ _ (field-Yields 1 26 (omega arith)) λ _ _.
                        Yields-bind _ _ (field-Yields 1 27 (omega arith)) λ _ _.
                          Yields-bind _ _ (field-Yields 4 28 (omega arith)) λ _ _.
                            Yields-bind _ _ (field-Yields 4 32 (omega arith)) λ _ _.
                              Yields-bind _ _ (raise_if-Yields (not (declared == length p))) λ _ _.
                                Yields-bind _ _ (read_string-Yields 36 (omega arith)) λ _ host.
                                  Yields-bind _ _ (read_string-Yields 40 (omega arith)) λ _ user.
                                    Yields-bind _ _ (read_password-Yields 44 (omega arith))
                                      λ _ pass.
                                        Yields-bind _ _ (read_string-Yields 48 (omega arith))
                                          λ _ app.
                                            Yields-bind _ _ (read_string-Yields 52 (omega arith))
                                              λ _ server.
                                                Yields-bind _ _
                                                  (read_string-Yields 56 (omega arith))
                                                  λ _ ext.
                                                    Yields-bind _ _
                                                      (read_string-Yields 60 (omega arith))
                                                      λ _ face.
                                                        Yields-bind _ _
                                                          (read_string-Yields 64 (omega arith))
                                                          λ _ lang.
                                                            Yields-bind _ _
                                                            (read_string-Yields 68 (omega arith))
                                                            λ _ data_name.
                                                            Yields-bind _ _
                                                            (read_pair-Yields 78 (omega arith))
                                                            λ pair where_sspi.
                                                            Yields-bind _ _
                                                            (read_string-Yields 82 (omega arith))
                                                            λ _ file.
                                                            Yields-bind _ _
                                                            (read_string-Yields 86 (omega arith))
                                                            λ _ change.
                                                            Yields-bind _ _
                                                            (field-Yields 4 90 (omega arith))
                                                            λ size long_size.
                                                            Yields-bind _ _
                                                            (slice_of-Yields p pair.0
                                                            (sspi_length pair.1 size))
                                                            λ _ run. yields _ (record {
                                                            host_name = host;
                                                            user_name = user;
                                                            password = pass;
                                                            app_name = app;
                                                            server_name = server;
                                                            extension = ext;
                                                            client_interface_name = face;
                                                            language = lang;
                                                            database = data_name;
                                                            sspi = (
                                                            pair.0, pair.1, size, where_sspi,
                                                            long_size, run,
                                                            );
                                                            atch_db_file = file;
                                                            change_password = change;
                                                            })

parse_short : (p : Bytes) → ltb (length p) 94 ≡ true → parse p ≡ err protocol_error
unfolding parse
parse_short p short = rw short refl

parse-Yields_any : (p : Bytes) → Yields (IsPointed p) (parse p)
parse-Yields_any p = elim (Bool-cases (ltb (length p) 94)) [
  | inl short ↦ rw (parse_short p short) fails
  | inr long ↦ parse-Yields p (ground arith)
]

-- On any payload, the only exception that `Login7.parse` raises is the protocol's. Where it returns
-- a login, each of its texts, the password's bytes and those of the SSPI field are what the payload
-- holds at the offset that the field's entry of the table names, and as long as the entry says.
pub parse_login_errors :
    (payload : Bytes)
    → ((e : Exc) → parse payload ≡ err e → e ≡ protocol_error)
      × ((l : Login7) → parse payload ≡ ok l → IsPointed payload l)
parse_login_errors p = (
  λ e. Yields-err (parse p) e (parse-Yields_any p),
  λ l. Yields-ok (parse p) l (parse-Yields_any p),
)
