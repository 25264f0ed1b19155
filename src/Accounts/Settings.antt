-- ===== src/Accounts/Settings.antt =====
-- The routes of the settings page that change the password and the second factors of the user who
-- is signed in. A redirect back to the page with an error message counts as a refusal with status 400.
use ids_bachelor_thesis.Prelude.{
  ℕ, Bool, true, false, not, ◌&&◌, ◌||◌, String, text_test, number_test, ◌==◌, Option, none, some,
  ltb, if◌then◌else◌,
}
use ids_bachelor_thesis.Dict.{is_some}
use ids_bachelor_thesis.Text.{codes, is_ascii}
use ids_bachelor_thesis.Accounts.Defs.{
  Account, Accounts, Verified, matches, mismatch, broken, Crypto, max_password_len, text_len,
  Answer, done, refused, raised, change, Session, no_session, load_user,
}
use ids_bachelor_thesis.Accounts.Login.{issue_code}

-- A route for a user who is signed in; without one, Flask redirects to the login page (302).
abbrev pub Reply : Type 0
Reply = Accounts × Session × Answer

abbrev pub for_user :
    Session
    → Accounts
    → (ℕ → Account → Accounts × Session × Answer)
    → Option (ℕ × Account)
    → Accounts × Session × Answer
for_user s db route none = (db, no_session, refused 302)
for_user s db route (some (id, u)) = route id u

abbrev pub set_totp : String → Account → Account
set_totp secret u = record u {
  totp_secret = some secret;
  totp_enabled = true;
  totp_qr_shown = true;
}

abbrev pub clear_totp : Account → Account
clear_totp u = record u { totp_enabled = false; totp_secret = none; totp_qr_shown = false }

-- The answer about a code and the time it expires at: none is an exception.
abbrev pub code_fits : ℕ → String → Option String → Option ℕ → Option Bool
code_fits now otp none expires = some false
code_fits now otp (some code) none = some false
code_fits now otp (some code) (some expires) =
    if ltb expires now
    then some false
    else if not (is_ascii (codes otp) && is_ascii (codes code))
    then none
    else some (otp == code)

abbrev pub set_email_otp : Bool → Account → Account
set_email_otp enabled u = record u {
  email_otp_enabled = enabled;
  email_otp_code = none;
  email_otp_code_expires = none;
}

module _ (p : Crypto) where
  unfoldable pub enable_totp : ℕ → (secret : String) → Session → Accounts → Reply
  unfolding load_user
  enable_totp now secret s db =
      for_user s db
        (λ id u.
          if u.totp_enabled
          then (db, s, refused 400)
          else (db, record s { totp_setup_secret = some secret }, done))
        (load_user p now s db)

  abbrev pub verify_pending :
      ℕ → ℕ → String → Session → Accounts → Option String → Accounts × Session × Answer
  verify_pending now id otp s db none = (db, s, refused 400)
  verify_pending now id otp s db (some secret) = elim (p.totp_verify secret otp now) [
    | none ↦ (db, s, raised)
    | some false ↦ (db, s, refused 400)
    | some true ↦ (change db id (set_totp secret), record s { totp_setup_secret = none }, done)
  ]

  unfoldable pub verify_new_totp : ℕ → (otp : String) → Session → Accounts → Reply
  unfolding load_user change
  verify_new_totp now otp s db =
      for_user s db
        (λ id u.
          if otp == ""
          then (db, s, refused 400)
          else verify_pending now id otp s db s.totp_setup_secret)
        (load_user p now s db)

  -- With no secret pyotp raises.
  abbrev pub totp_of : ℕ → String → Option String → Option Bool
  totp_of now otp none = none
  totp_of now otp (some secret) = p.totp_verify secret otp now

  abbrev pub drop_totp : ℕ → String → Session → Accounts → ℕ → Account → Verified → Reply
  drop_totp now otp s db id u mismatch = (db, s, refused 400)
  drop_totp now otp s db id u broken = (db, s, raised)
  drop_totp now otp s db id u matches = elim (totp_of now otp u.totp_secret) [
    | none ↦ (db, s, raised)
    | some false ↦ (db, s, refused 400)
    | some true ↦ (change db id clear_totp, record s { totp_setup_secret = none }, done)
  ]

  unfoldable pub disable_totp : ℕ → (password otp : String) → Session → Accounts → Reply
  unfolding load_user change
  disable_totp now password otp s db =
      for_user s db
        (λ id u.
          if password == "" || otp == "" || ltb max_password_len (text_len password)
          then (db, s, refused 400)
          else if not u.totp_enabled
          then (db, s, refused 400)
          else drop_totp now otp s db id u (p.verify u.password_hash password))
        (load_user p now s db)

  abbrev pub set_password : String → String → Account → Account
  set_password salt password u = record u { password_hash = p.hash salt password }

  -- whether the second factor lets a change of the password pass; an error stops the route
  abbrev pub totp_allows : ℕ → String → Account → Option Bool
  totp_allows now otp u =
      if not u.totp_enabled
      then some true
      else if otp == "" || not (is_some u.totp_secret)
      then some false
      else totp_of now otp u.totp_secret

  abbrev pub replace_password :
      String → String → Session → Accounts → ℕ → Verified → Accounts × Session × Answer
  replace_password salt new s db id mismatch = (db, s, refused 400)
  replace_password salt new s db id broken = (db, s, raised)
  replace_password salt new s db id matches =
      (change db id (set_password salt new), no_session, done)

  abbrev pub if_allowed :
      String → String → String → Session → Accounts → ℕ → Account → Option Bool → Reply
  if_allowed salt current new s db id u none = (db, s, raised)
  if_allowed salt current new s db id u (some false) = (db, s, refused 400)
  if_allowed salt current new s db id u (some true) =
      replace_password salt new s db id (p.verify u.password_hash current)

  -- A success signs the user out.
  unfoldable pub change_password : ℕ → (salt current new otp : String) → Session → Accounts → Reply
  unfolding load_user change
  change_password now salt current new otp s db =
      for_user s db
        (λ id u.
          if current == "" || new == "" || ltb max_password_len (text_len current)
          then (db, s, refused 400)
          else if ltb (text_len new) 12 || ltb max_password_len (text_len new)
          then (db, s, refused 400)
          else if current == new
          then (db, s, refused 400)
          else if_allowed salt current new s db id u (totp_allows now otp u))
        (load_user p now s db)

  -- The code is stored before it is sent.
  unfoldable pub start_email_otp : ℕ → (code : String) → (sent : Bool) → Session → Accounts → Reply
  unfolding load_user change issue_code
  start_email_otp now code sent s db =
      for_user s db
        (λ id u.
          if not (is_some u.email)
          then (db, s, refused 400)
          else (change db id (issue_code now code), s, if sent then done else refused 500))
        (load_user p now s db)

  unfoldable pub start_email_otp_disable :
      ℕ → (code : String) → (sent : Bool) → Session → Accounts → Reply
  unfolding load_user change issue_code
  start_email_otp_disable now code sent s db =
      for_user s db
        (λ id u.
          if not (is_some u.email) || not u.email_otp_enabled
          then (db, s, refused 400)
          else (change db id (issue_code now code), s, if sent then done else refused 500))
        (load_user p now s db)

  abbrev pub use_code : ℕ → String → Bool → Session → Accounts → ℕ → Account → Reply
  use_code now otp enabled s db id u =
      elim (code_fits now otp u.email_otp_code u.email_otp_code_expires) [
        | none ↦ (db, s, raised)
        | some false ↦ (db, s, refused 400)
        | some true ↦ (change db id (set_email_otp enabled), s, done)
      ]

  unfoldable pub verify_email_otp : ℕ → (otp : String) → Session → Accounts → Reply
  unfolding load_user change
  verify_email_otp now otp s db =
      for_user s db
        (λ id u. if otp == "" then (db, s, refused 400) else use_code now otp true s db id u)
        (load_user p now s db)

  abbrev pub confirm_email : ℕ → String → Session → Accounts → ℕ → Account → Verified → Reply
  confirm_email now otp s db id u mismatch = (db, s, refused 400)
  confirm_email now otp s db id u broken = (db, s, raised)
  confirm_email now otp s db id u matches = use_code now otp false s db id u

  unfoldable pub disable_email_otp : ℕ → (password otp : String) → Session → Accounts → Reply
  unfolding load_user change
  disable_email_otp now password otp s db =
      for_user s db
        (λ id u.
          if password == "" || otp == "" || ltb max_password_len (text_len password)
          then (db, s, refused 400)
          else if not u.email_otp_enabled
          then (db, s, refused 400)
          else confirm_email now otp s db id u (p.verify u.password_hash password))
        (load_user p now s db)
