-- ===== src/Accounts/Defs.antt =====
-- The table of users and what the routes read of a session. Times are in microseconds; the fields
-- of a request are given stripped, as the routes read them.
use ids_bachelor_thesis.Prelude.{
  ℕ, ◌+◌, ◌*◌, Bool, false, not, ◌&&◌, String, text_test, number_test, ◌==◌, Option, none, some,
  List, [], ◌∷◌, map, length, ltb, leb, if◌then◌else◌,
}
use ids_bachelor_thesis.Dict.{Dict, get, insert, holds}
use ids_bachelor_thesis.Text.{codes}

-- A row of the table; a text or a time that is missing or empty is none.
pub record Account : Type 0 where
  pub username : String
  pub password_hash : String
  pub role : String
  pub email : Option String
  pub totp_secret : Option String
  pub totp_enabled : Bool
  pub totp_qr_shown : Bool
  pub email_otp_enabled : Bool
  pub email_otp_code : Option String
  pub email_otp_code_expires : Option ℕ
  pub failed_attempts : ℕ
  pub locked_until : Option ℕ

-- The rows by their id.
abbrev pub Accounts : Type 0
Accounts = Dict ℕ Account

-- The answer of `PasswordHasher.verify`: it returns, or raises VerifyMismatchError or another error.
pub data Verified : Type 0 where
  matches mismatch broken : Verified

-- What argon2, pyotp and hashlib do. `hash` takes the salt, and `totp_verify` is none where it raises.
pub record Crypto : Type 0 where
  pub verify : (password_hash password : String) → Verified
  pub needs_rehash : String → Bool
  pub hash : (salt password : String) → String
  pub totp_verify : (secret otp : String) → (now : ℕ) → Option Bool
  -- `_pwd_fingerprint`
  pub fingerprint : String → String

-- What the two regular expressions say of a name and of an address.
pub record Syntax : Type 0 where
  pub is_username : String → Bool
  pub is_email : String → Bool

abbrev pub bad_email : Syntax → Option String → Bool
bad_email y none = false
bad_email y (some e) = not (y.is_email e)

abbrev pub minutes : ℕ → ℕ
minutes n = n * 60_000_000

abbrev pub max_username_len : ℕ
max_username_len = 30

abbrev pub max_password_len : ℕ
max_password_len = 64

abbrev pub text_len : String → ℕ
text_len s = length (codes s)

-- What a route answers: a page or a value, a redirect, an error with its status, or an exception.
pub data Answer : Type 0 where
  done : Answer
  refused : ℕ → Answer
  raised : Answer

unfoldable pub is_locked : ℕ → Account → Bool
is_locked now u = elim u.locked_until [ none ↦ false | some t ↦ ltb now t ]

-- the greatest of the ids that pass the test
unfoldable pub greatest : (ℕ → Bool) → List ℕ → Option ℕ
greatest test [] = none
greatest test (id ∷ ids) = elim (greatest test ids) [
  | none ↦ if test id then some id else none
  | some m ↦ if test id && ltb m id then some id else some m
]

abbrev with_id : ℕ → Option Account → Option (ℕ × Account)
with_id id none = none
with_id id (some u) = some (id, u)

abbrev row_at : Accounts → Option ℕ → Option (ℕ × Account)
row_at db none = none
row_at db (some id) = with_id id (get db id)

-- `.filter(username == name).order_by(id.desc()).first()`
unfoldable pub by_username : Accounts → String → Option (ℕ × Account)
unfolding greatest
by_username db name =
    row_at db (greatest (λ id. holds (λ u. u.username == name) (get db id)) (map (λ row. row.0) db))

-- `u = s.get(DbUser, id)`, and if there is one, a change of it
abbrev pub change_found : Accounts → ℕ → (Account → Account) → Option Account → Accounts
change_found db id f none = db
change_found db id f (some u) = insert db id (f u)

unfoldable pub change : Accounts → ℕ → (Account → Account) → Accounts
change db id f = change_found db id f (get db id)

unfoldable pub count_failure : ℕ → Account → Account
count_failure now u =
    if leb 5 (u.failed_attempts + 1)
    then record u {
      failed_attempts = u.failed_attempts + 1;
      locked_until = some (now + minutes 15);
    }
    else record u { failed_attempts = u.failed_attempts + 1 }

unfoldable pub record_password_failure : ℕ → ℕ → Accounts → Accounts
unfolding change
record_password_failure now id db = change db id (count_failure now)

-- What Flask keeps for a browser between its requests.
pub record Session : Type 0 where
  pub user_id : Option ℕ
  pub pwd_fp : String
  pub totp_setup_secret : Option String

abbrev pub no_session : Session
no_session = record { user_id = none; pwd_fp = ""; totp_setup_secret = none }

module _ (p : Crypto) where
  abbrev load_row : ℕ → Session → ℕ → Option Account → Option (ℕ × Account)
  load_row now s id none = none
  load_row now s id (some u) =
      if s.pwd_fp == ""
      then none
      else if not (s.pwd_fp == p.fingerprint u.password_hash)
      then none
      else if is_locked now u
      then none
      else some (id, u)

  -- `load_user` for the user that the session names: a change of the password, or a lock, ends it.
  unfoldable pub load_user : ℕ → Session → Accounts → Option (ℕ × Account)
  unfolding is_locked
  load_user now s db = elim s.user_id [ none ↦ none | some id ↦ load_row now s id (get db id) ]
