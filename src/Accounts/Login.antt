-- ===== src/Accounts/Login.antt =====
-- The routes before a sign-in: `login`, `check_totp` and `start_login_email_otp`.
use ids_bachelor_thesis.Prelude.{
  ℕ, ◌+◌, Bool, true, false, not, ◌&&◌, ◌||◌, String, text_test, number_test, ◌==◌, Option, none,
  some, ltb, if◌then◌else◌,
}
use ids_bachelor_thesis.Dict.{get, is_some}
use ids_bachelor_thesis.Text.{codes, is_ascii}
use ids_bachelor_thesis.Accounts.Defs.{
  Account, Accounts, Verified, matches, mismatch, broken, Crypto, minutes, max_username_len,
  max_password_len, text_len, Answer, done, refused, raised, is_locked, by_username, change,
  record_password_failure, Session,
}

pub record Credentials : Type 0 where
  pub username : String
  pub password : String
  pub otp : String
  pub otp_method : String

-- What the second factor comes to; `passed_email` uses the code up, `failed_otp` is counted, and
-- `crashed` is an exception that login turns into a refusal.
pub data Factor : Type 0 where
  passed passed_email failed_otp crashed : Factor

unfoldable pub too_long : String → String → Bool
too_long username password =
    ltb max_username_len (text_len username) || ltb max_password_len (text_len password)

abbrev pub clear_code : Account → Account
clear_code u = record u { email_otp_code = none; email_otp_code_expires = none }

abbrev pub clear_failures : Account → Account
clear_failures u = record u { failed_attempts = 0; locked_until = none }

-- A new code for five minutes, which is sent by email
unfoldable pub issue_code : ℕ → String → Account → Account
issue_code now code u = record u {
  email_otp_code = some code;
  email_otp_code_expires = some (now + minutes 5);
}

module _ (p : Crypto) where
  abbrev totp_result : Option Bool → Factor
  totp_result none = crashed
  totp_result (some true) = passed
  totp_result (some false) = failed_otp

  unfoldable pub check_totp_code : ℕ → String → Option String → Factor
  check_totp_code now otp none = failed_otp
  check_totp_code now otp (some secret) =
      if otp == "" then failed_otp else totp_result (p.totp_verify secret otp now)

  -- `secrets.compare_digest` raises on a text with a character outside ASCII.
  unfoldable pub check_email_code : ℕ → String → Option String → Option ℕ → Factor
  check_email_code now otp none expires = failed_otp
  check_email_code now otp (some code) none = failed_otp
  check_email_code now otp (some code) (some expires) =
      if otp == "" || ltb expires now
      then failed_otp
      else if not (is_ascii (codes otp) && is_ascii (codes code))
      then crashed
      else if otp == code
      then passed_email
      else failed_otp

  unfoldable pub second_factor : ℕ → Credentials → Account → Factor
  unfolding check_totp_code check_email_code
  second_factor now r u =
      let by_totp = check_totp_code now r.otp u.totp_secret in
      let by_email = check_email_code now r.otp u.email_otp_code u.email_otp_code_expires in
      if not u.totp_enabled && not u.email_otp_enabled
      then passed
      else if u.totp_enabled && not u.email_otp_enabled
      then by_totp
      else if u.email_otp_enabled && not u.totp_enabled
      then by_email
      else if r.otp_method == "totp"
      then by_totp
      else if r.otp_method == "email"
      then by_email
      else failed_otp

  unfoldable pub rehash : String → String → Account → Account
  rehash salt password u =
      if p.needs_rehash u.password_hash
      then record u { password_hash = p.hash salt password }
      else u

  abbrev pub session_for : ℕ → Option Account → Option Session
  session_for id none = none
  session_for id (some u) = some (record {
    user_id = some id;
    pwd_fp = p.fingerprint u.password_hash;
    totp_setup_secret = none;
  })

  -- The counter is cleared, and the browser gets a session of its own.
  unfoldable pub sign_in : ℕ → Accounts → Accounts × Answer × Option Session
  unfolding change
  sign_in id db = let db' = change db id clear_failures in (db', done, session_for id (get db' id))

  unfoldable pub after_factor : ℕ → ℕ → Accounts → Factor → Accounts × Answer × Option Session
  unfolding record_password_failure sign_in change
  after_factor now id db passed = sign_in id db
  after_factor now id db passed_email = sign_in id (change db id clear_code)
  after_factor now id db failed_otp = (record_password_failure now id db, refused 401, none)
  after_factor now id db crashed = (db, refused 401, none)

  -- With the password right, the factors are checked against the row that was read first.
  unfoldable pub after_password :
      ℕ
      → String
      → Credentials
      → ℕ
      → Account
      → Accounts
      → Verified
      → Accounts × Answer × Option Session
  unfolding rehash second_factor after_factor change record_password_failure
  after_password now salt r id u db matches =
      after_factor now id (change db id (rehash salt r.password)) (second_factor now r u)
  after_password now salt r id u db mismatch =
      (record_password_failure now id db, refused 401, none)
  after_password now salt r id u db broken = (db, raised, none)

  unfoldable pub login_account :
      ℕ
      → String
      → Credentials
      → Accounts
      → Option (ℕ × Account)
      → Accounts × Answer × Option Session
  unfolding after_password is_locked
  login_account now salt r db none = (db, refused 401, none)
  login_account now salt r db (some (id, u)) =
      if is_locked now u
      then (db, refused 403, none)
      else after_password now salt r id u db (p.verify u.password_hash r.password)

  unfoldable pub login : ℕ → String → Credentials → Accounts → Accounts × Answer × Option Session
  unfolding login_account too_long by_username
  login now salt r db =
      if too_long r.username r.password
      then (db, refused 401, none)
      else login_account now salt r db (by_username db r.username)

  -- The steps that check_totp and start_login_email_otp share; `next` is what follows them.
  abbrev pub after_check :
      ℕ → ℕ → Account → Accounts → (ℕ → Account → Accounts × Answer) → Verified → Accounts × Answer
  after_check now id u db next matches = next id u
  after_check now id u db next mismatch = (record_password_failure now id db, refused 401)
  after_check now id u db next broken = (db, raised)

  abbrev pub check_account :
      ℕ
      → Credentials
      → Accounts
      → (ℕ → Account → Accounts × Answer)
      → Option (ℕ × Account)
      → Accounts × Answer
  check_account now r db next none = (db, refused 401)
  check_account now r db next (some (id, u)) =
      if is_locked now u
      then (db, refused 403)
      else after_check now id u db next (p.verify u.password_hash r.password)

  unfoldable pub check_credentials :
      ℕ → Credentials → Accounts → (ℕ → Account → Accounts × Answer) → Accounts × Answer
  unfolding too_long by_username record_password_failure is_locked
  check_credentials now r db next =
      if r.username == "" || r.password == ""
      then (db, refused 400)
      else if too_long r.username r.password
      then (db, refused 401)
      else check_account now r db next (by_username db r.username)

  -- Which factors the account wants; nothing is changed.
  unfoldable pub check_totp : ℕ → Credentials → Accounts → Accounts × Answer
  unfolding check_credentials
  check_totp now r db = check_credentials now r db (λ id u. (db, done))

  -- `sent` says if the email went out.
  unfoldable pub start_login_email_otp :
      ℕ → (code : String) → (sent : Bool) → Credentials → Accounts → Accounts × Answer
  unfolding check_credentials issue_code change
  start_login_email_otp now code sent r db = check_credentials now r db (λ id u.
      if not (is_some u.email) || not u.email_otp_enabled
      then (db, refused 400)
      else (change db id (issue_code now code), if sent then done else refused 500))
