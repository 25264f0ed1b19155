-- ===== src/Accounts/Admin.antt =====
-- The routes under /admin/api/users, for a user with the role admin.
use ids_bachelor_thesis.Prelude.{
  ℕ, ◌+◌, ◌*◌, Bool, false, not, ◌&&◌, ◌||◌, String, text_test, number_test, ◌==◌, Option, none,
  some, ltb, leb, if◌then◌else◌,
}
use ids_bachelor_thesis.Dict.{get, insert, pop, is_some}
use ids_bachelor_thesis.Text.{is_lower_of}
use ids_bachelor_thesis.Accounts.Defs.{
  Account, Accounts, Crypto, Syntax, bad_email, max_password_len, text_len, by_username, Answer,
  done, refused, raised, change, Session, load_user,
}
use ids_bachelor_thesis.Accounts.Login.{clear_failures}

-- `role_required("admin")`; a missing role counts as soc.
unfoldable pub is_admin : Account → Bool
unfolding is_lower_of
is_admin u = is_lower_of u.role "admin"

abbrev pub is_role : String → Bool
is_role role = role == "admin" || role == "soc"

abbrev pub bad_password : String → Bool
bad_password password = ltb (text_len password) 12 || ltb max_password_len (text_len password)

-- A row for a new user; what is not given has the default of the column.
abbrev pub new_account : String → String → String → Option String → Account
new_account username password_hash role email = record {
  username = username;
  password_hash = password_hash;
  role = role;
  email = email;
  totp_secret = none;
  totp_enabled = false;
  totp_qr_shown = false;
  email_otp_enabled = false;
  email_otp_code = none;
  email_otp_code_expires = none;
  failed_attempts = 0;
  locked_until = none;
}

-- The length of a lock: not given, no number, or millionths of an hour.
pub data Duration : Type 0 where
  default_duration no_number : Duration
  hours : ℕ → Duration

abbrev pub change_user : Accounts → ℕ → (Account → Account) → Accounts × Answer
change_user db id f = if is_some (get db id) then (change db id f, done) else (db, refused 404)

abbrev pub reset_mfa : Account → Account
reset_mfa u = record u {
  totp_enabled = false;
  totp_secret = none;
  totp_qr_shown = false;
  email_otp_enabled = false;
  email_otp_code = none;
  email_otp_code_expires = none;
  failed_attempts = 0;
  locked_until = none;
}

-- eight hours if nothing is given
abbrev pub duration_of : Duration → Option ℕ
duration_of default_duration = some 8_000_000
duration_of no_number = none
duration_of (hours h) = some h

-- from 0.05 to 8760 hours; a millionth of an hour is 3600 microseconds
abbrev pub lock_for : ℕ → ℕ → Account → Account
lock_for now h u = record u { locked_until = some (now + h * 3600) }

abbrev pub lock_user : ℕ → ℕ → Accounts → Option ℕ → Accounts × Answer
lock_user now id db none = (db, refused 400)
lock_user now id db (some h) =
    if leb 50_000 h && leb h 8_760_000_000
    then change_user db id (lock_for now h)
    else (db, refused 400)

module _ (p : Crypto) where
  abbrev pub for_admin :
      Accounts → (ℕ → Accounts × Answer) → Option (ℕ × Account) → Accounts × Answer
  for_admin db route none = (db, refused 302)
  for_admin db route (some (me, u)) = if is_admin u then route me else (db, refused 403)

  -- The database gives the id; one in use would violate the primary key.
  unfoldable pub admin_create_user :
      ℕ
      → Session
      → Syntax
      → (id : ℕ) → (salt username password role : String) → (email : Option String) → Accounts
      → Accounts × Answer
  unfolding load_user by_username
  admin_create_user now s y id salt username password role email db =
      for_admin db
        (λ me.
          if not (is_role role)
          then (db, refused 400)
          else if not (y.is_username username) || bad_password password
          then (db, refused 400)
          else if bad_email y email
          then (db, refused 400)
          else if is_some (by_username db username)
          then (db, refused 400)
          else if is_some (get db id)
          then (db, raised)
          else (insert db id (new_account username (p.hash salt password) role email), done))
        (load_user p now s db)

  unfoldable pub admin_delete_user : ℕ → Session → (id : ℕ) → Accounts → Accounts × Answer
  unfolding load_user
  admin_delete_user now s id db =
      for_admin db
        (λ me.
          if me == id
          then (db, refused 400)
          else if not (is_some (get db id))
          then (db, refused 404)
          else (pop db id, done))
        (load_user p now s db)

  abbrev pub reset_password : String → String → Account → Account
  reset_password salt password u = record u {
    password_hash = p.hash salt password;
    failed_attempts = 0;
    locked_until = none;
  }

  unfoldable pub admin_reset_password :
      ℕ → Session → (id : ℕ) → (salt new : String) → Accounts → Accounts × Answer
  unfolding load_user change
  admin_reset_password now s id salt new db =
      for_admin db
        (λ me.
          if bad_password new
          then (db, refused 400)
          else change_user db id (reset_password salt new))
        (load_user p now s db)

  unfoldable pub admin_set_role :
      ℕ → Session → (id : ℕ) → (role : String) → Accounts → Accounts × Answer
  unfolding load_user change
  admin_set_role now s id role db =
      for_admin db
        (λ me.
          if not (is_role role)
          then (db, refused 400)
          else if me == id && not (role == "admin")
          then (db, refused 400)
          else change_user db id (λ u. record u { role = role }))
        (load_user p now s db)

  unfoldable pub admin_reset_mfa : ℕ → Session → (id : ℕ) → Accounts → Accounts × Answer
  unfolding load_user change
  admin_reset_mfa now s id db =
      for_admin db (λ me. if me == id then (db, refused 400) else change_user db id reset_mfa)
        (load_user p now s db)

  unfoldable pub admin_set_lock :
      ℕ → Session → (id : ℕ) → (locked : Bool) → Duration → Accounts → Accounts × Answer
  unfolding load_user change
  admin_set_lock now s id locked duration db =
      for_admin db
        (λ me.
          if me == id && locked
          then (db, refused 400)
          else if locked
          then lock_user now id db (duration_of duration)
          else change_user db id clear_failures)
        (load_user p now s db)
