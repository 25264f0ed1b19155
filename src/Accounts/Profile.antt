-- ===== src/Accounts/Profile.antt =====
-- `update_profile` of uni-srver.py, for the name and the address of the user who is signed in, and
-- `totp_qr`. The checks of an uploaded picture are an argument, and the path where it is stored is left
-- out.
use ids_bachelor_thesis.Prelude.{
  ℕ, Bool, true, not, ◌&&◌, ◌||◌, String, text_test, number_test, ◌==◌, Option, none, some, map,
  ltb, if◌then◌else◌,
}
use ids_bachelor_thesis.Dict.{get, holds, is_some}
use ids_bachelor_thesis.Accounts.Defs.{
  Account, Accounts, Verified, matches, mismatch, broken, Crypto, Syntax, bad_email,
  max_password_len, text_len, greatest, done, refused, raised, change, Session, no_session,
  load_user,
}
use ids_bachelor_thesis.Accounts.Settings.{Reply, for_user}

-- What becomes of the picture: none is sent or it is stored, a check refuses it, or storing it raises.
pub data Upload : Type 0 where
  passed turned_down not_stored : Upload

pub record Profile : Type 0 where
  pub username : String
  pub email : Option String
  pub confirm_password : String

abbrev pub set_profile : Profile → Account → Account
set_profile r u = record u { username = r.username; email = r.email }

-- whether another row has the name
unfoldable pub is_taken : Accounts → ℕ → String → Bool
unfolding greatest
is_taken db id name = is_some (
    greatest (λ j. not (j == id) && holds (λ u. u.username == name) (get db j))
      (map (λ row. row.0) db))

-- A new name signs the user out.
abbrev pub store_profile : Session → Accounts → ℕ → Account → Profile → Upload → Reply
store_profile s db id u r turned_down = (db, s, refused 400)
store_profile s db id u r not_stored = (db, s, raised)
store_profile s db id u r passed =
    (change db id (set_profile r), if r.username == u.username then s else no_session, done)

abbrev pub confirm_profile : Session → Accounts → ℕ → Account → Profile → Upload → Verified → Reply
confirm_profile s db id u r upload mismatch = (db, s, refused 400)
confirm_profile s db id u r upload broken = (db, s, raised)
confirm_profile s db id u r upload matches = store_profile s db id u r upload

unfoldable pub update_profile : Crypto → Syntax → ℕ → Profile → Upload → Session → Accounts → Reply
unfolding load_user is_taken change
update_profile p y now r upload s db =
    for_user s db
      (λ id u.
        if r.username == "" || not (y.is_username r.username)
        then (db, s, refused 400)
        else if bad_email y r.email
        then (db, s, refused 400)
        else if is_taken db id r.username
        then (db, s, refused 400)
        else if r.confirm_password == "" || ltb max_password_len (text_len r.confirm_password)
        then (db, s, refused 400)
        else confirm_profile s db id u r upload (p.verify u.password_hash r.confirm_password))
      (load_user p now s db)

abbrev pub show_qr : Account → Account
show_qr u = record u { totp_qr_shown = true }

-- The code of a new secret is shown once for a session, that of a stored one once for the account.
abbrev pub show_row : Session → Accounts → ℕ → Account → Bool → Option String → Reply
show_row s db id u qr_shown (some secret) = (db, s, if qr_shown then refused 400 else done)
show_row s db id u qr_shown none =
    if not (is_some u.totp_secret) || u.totp_qr_shown
    then (db, s, refused 400)
    else (change db id show_qr, s, done)

-- `qr_shown` is the key totp_setup_qr_shown of the session.
unfoldable pub totp_qr : Crypto → ℕ → (qr_shown : Bool) → Session → Accounts → Reply
unfolding load_user change
totp_qr p now qr_shown s db =
    for_user s db (λ id u. show_row s db id u qr_shown s.totp_setup_secret) (load_user p now s db)
