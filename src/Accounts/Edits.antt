-- ===== src/Accounts/Edits.antt =====
-- Every route leaves the table as it is or edits one row, and what each edit stands on.
use ids_bachelor_thesis.Prelude.{
  ℕ, Bool, true, false, not, ◌||◌, String, number_test, text_test, ◌==◌, Option, none, some,
  if◌then◌else◌, inl, inr, Bool-cases,
}
use ids_bachelor_thesis.Dict.{is_some}
use ids_bachelor_thesis.Accounts.Defs.{
  Account, Accounts, Crypto, Verified, Answer, change, by_username, count_failure,
  record_password_failure, is_locked,
}
use ids_bachelor_thesis.Accounts.Login.{
  Credentials, Factor, too_long, rehash, clear_code, clear_failures, sign_in, after_factor,
  after_password, login_account, login, issue_code, check_credentials, check_totp,
  start_login_email_otp, second_factor, after_check, check_account,
}
use ids_bachelor_thesis.Accounts.Calls.{Public, public_step}

-- What a route without a session does to a row.
pub data PublicEdit : ℕ → (Account → Account) → Type 0 where
  failed : (now : ℕ) → PublicEdit now (count_failure now)
  cleared : (now : ℕ) → PublicEdit now clear_failures
  code_used : (now : ℕ) → PublicEdit now clear_code
  rehashed :
      (p : Crypto) (now : ℕ) (salt password : String) → PublicEdit now (rehash p salt password)
  issued : (now : ℕ) (code : String) → PublicEdit now (issue_code now code)

module _ (p : Crypto) (now : ℕ) (C : Accounts → Type 0)
    (closed : (db : Accounts) (id : ℕ) (f : Account → Account)
      → PublicEdit now f
      → C db
      → C (change db id f)) where
  record_password_failure-keeps :
      (id : ℕ) (db : Accounts) → C db → C (record_password_failure now id db)
  unfolding record_password_failure
  record_password_failure-keeps id db h = closed db id (count_failure now) (PublicEdit.failed now) h

  sign_in-keeps : (id : ℕ) (db : Accounts) → C db → C (sign_in p id db).0
  unfolding sign_in
  sign_in-keeps id db h = closed db id clear_failures (PublicEdit.cleared now) h

  after_factor-keeps :
      (id : ℕ) (db : Accounts) (f : Factor) → C db → C (after_factor p now id db f).0
  unfolding after_factor
  after_factor-keeps id db Factor.passed h = sign_in-keeps id db h
  after_factor-keeps id db Factor.passed_email h =
      sign_in-keeps id (change db id clear_code)
        (closed db id clear_code (PublicEdit.code_used now) h)
  after_factor-keeps id db Factor.failed_otp h = record_password_failure-keeps id db h
  after_factor-keeps id db Factor.crashed h = h

  after_password-keeps :
      (salt : String) (r : Credentials) (id : ℕ) (u : Account) (db : Accounts) (v : Verified)
      → C db
      → C (after_password p now salt r id u db v).0
  unfolding after_password
  after_password-keeps salt r id u db Verified.matches h =
      after_factor-keeps id (change db id (rehash p salt r.password)) (second_factor p now r u)
        (closed db id (rehash p salt r.password) (PublicEdit.rehashed p now salt r.password) h)
  after_password-keeps salt r id u db Verified.mismatch h = record_password_failure-keeps id db h
  after_password-keeps salt r id u db Verified.broken h = h

  if-keeps : (b : Bool) (db db' : Accounts) → C db → C db' → C (if b then db else db')
  if-keeps true db db' h h' = h
  if-keeps false db db' h h' = h'

  login_account-keeps :
      (salt : String) (r : Credentials) (db : Accounts) (found : Option (ℕ × Account))
      → C db
      → C (login_account p now salt r db found).0
  unfolding login_account
  login_account-keeps salt r db none h = h
  login_account-keeps salt r db (some (id, u)) h = elim (Bool-cases (is_locked now u)) [
    | inl locked ↦ rw locked h
    | inr open_ ↦
        rw open_ (after_password-keeps salt r id u db (p.verify u.password_hash r.password) h)
  ]

  login-keeps :
      (salt : String) (r : Credentials) (db : Accounts) → C db → C (login p now salt r db).0
  unfolding login
  login-keeps salt r db h = elim (Bool-cases (too_long r.username r.password)) [
    | inl long ↦ rw long h
    | inr fine ↦ rw fine (login_account-keeps salt r db (by_username db r.username) h)
  ]

  check_account-keeps :
      (r : Credentials) (db : Accounts) (next : ℕ → Account → Accounts × Answer)
      (found : Option (ℕ × Account))
      → C db
      → ((id : ℕ) (u : Account) → C (next id u).0)
      → C (check_account p now r db next found).0
  check_account-keeps r db next none h n = h
  check_account-keeps r db next (some (id, u)) h n = elim (Bool-cases (is_locked now u)) [
    | inl locked ↦ rw locked h
    | inr open_ ↦ rw open_ (after_check-keeps (p.verify u.password_hash r.password))
  ]
    where
      after_check-keeps : (v : Verified) → C (after_check p now id u db next v).0
      after_check-keeps Verified.matches = n id u
      after_check-keeps Verified.mismatch = record_password_failure-keeps id db h
      after_check-keeps Verified.broken = h

  check_credentials-keeps :
      (r : Credentials) (db : Accounts) (next : ℕ → Account → Accounts × Answer)
      → C db
      → ((id : ℕ) (u : Account) → C (next id u).0)
      → C (check_credentials p now r db next).0
  unfolding check_credentials
  check_credentials-keeps r db next h n = elim (Bool-cases (r.username == "" || r.password == "")) [
    | inl missing ↦ rw missing h
    | inr given ↦ rw given (elim (Bool-cases (too_long r.username r.password)) [
      | inl long ↦ rw long h
      | inr fine ↦ rw fine (check_account-keeps r db next (by_username db r.username) h n)
    ])
  ]

  -- A predicate that each edit keeps is kept by the public routes.
  pub public_step-keeps : (c : Public) (db : Accounts) → C db → C (public_step p now c db)
  unfolding check_totp start_login_email_otp
  public_step-keeps (Public.log_in salt r) db h = login-keeps salt r db h
  public_step-keeps (Public.ask_totp r) db h = check_credentials-keeps r db _ h (λ id u. h)
  public_step-keeps (Public.ask_email_code code sent r) db h =
      check_credentials-keeps r db _ h (λ id u.
        elim (Bool-cases (not (is_some u.email) || not u.email_otp_enabled)) [
          | inl off ↦ rw off h
          | inr on ↦ rw on (closed db id (issue_code now code) (PublicEdit.issued now code) h)
        ])
