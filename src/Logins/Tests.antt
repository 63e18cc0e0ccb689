-- ===== src/Logins/Tests.antt =====
-- Two accounts whose passwords are written out.
use mathlib.Core.List.{Memᴰ}
use py_sqlbridge.Prelude.{◌≡◌, ◌↔◌, refl, true, false, none, some, List, [], ◌∷◌}
use py_sqlbridge.Py.Result.{ok}
use py_sqlbridge.Py.Utf16.{Str}
use py_sqlbridge.Py.Text.{text}
use py_sqlbridge.Logins.{
  Library, Login, LoginStore, login_admits, new_store, store_admits, seen, told_apart, from_logins,
}
use py_sqlbridge.Logins.Admission.{store_admits_iff}

abbrev library : Library
library = record {
  pbkdf2 = λ password salt n. ok password;
  b64encode = λ bytes. [];
  b64decode = λ s. some [];
  utf8 = λ s. ok s;
  parse_int = λ s. none;
  lower = λ s. s;
}

abbrev account : Str → Str → Login
account user secret = record {
  user = user;
  secret = secret;
  hashed = false;
  source = text "the configuration";
}

abbrev two_accounts : List Login
two_accounts = account (text "reader") (text "one") ∷ account (text "writer") (text "two") ∷ []

abbrev store : LoginStore
store = new_store library two_accounts []

two_told_apart : from_logins library two_accounts [] ≡ ok store
unfolding from_logins told_apart seen
two_told_apart = refl

store_admits_iff_example : (store_admits library store (text "writer") (text "two") ≡ ok true) ↔ (
    (l : Login) × Memᴰ l two_accounts
    × (library.lower l.user ≡ library.lower (text "writer"))
    × (login_admits library l (text "two") ≡ ok true))
store_admits_iff_example =
    store_admits_iff library two_accounts [] store (text "writer") (text "two") two_told_apart
