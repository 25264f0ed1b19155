-- ===== src/Accounts/SignIn.antt =====
-- What a sign-in proves, and what it leaves behind.
use ids_bachelor_thesis.Prelude.{
  ℕ, ◌≤◌, ◌≡◌, ◌≢◌, refl, sym, ap, ◌∙◌, true, false, ◌⊎◌, String, number_test, text_test, Option,
  none, some, arith, inl, inr, Option-cases, Bool-cases,
}
use ids_bachelor_thesis.Dict.{get}
use ids_bachelor_thesis.Accounts.Defs.{
  Account, Accounts, Crypto, Session, Verified, change, is_locked, by_username,
}
use ids_bachelor_thesis.Accounts.Rows.{get-change}
use ids_bachelor_thesis.Accounts.Login.{
  Credentials, Factor, too_long, check_totp_code, check_email_code, second_factor, rehash,
  clear_code, clear_failures, sign_in, after_factor, after_password, login_account, login,
  session_for,
}

module _ (p : Crypto) (now : ℕ) where
  -- The code of the authenticator fits the secret.
  abbrev pub TotpProved : Credentials → Account → Type 0
  TotpProved r u =
      (secret : String) × (u.totp_secret ≡ some secret)
      × (p.totp_verify secret r.otp now ≡ some true)

  -- The code is the one that was sent, and has not expired.
  abbrev pub EmailProved : Credentials → Account → Type 0
  EmailProved r u =
      (expires : ℕ) × (u.email_otp_code ≡ some r.otp)
      × (u.email_otp_code_expires ≡ some expires)
      × (now ≤ expires)

  abbrev pub FactorProved : Credentials → Account → Type 0
  FactorProved r u =
      ((u.totp_enabled ≡ false) × (u.email_otp_enabled ≡ false))
      ⊎ (((u.totp_enabled ≡ true) × TotpProved r u)
          ⊎ ((u.email_otp_enabled ≡ true) × EmailProved r u))

  totp_proved :
      (otp : String) (o : Option String)
      → check_totp_code p now otp o ≡ Factor.passed
      → (secret : String) × (o ≡ some secret) × (p.totp_verify secret otp now ≡ some true)
  unfolding check_totp_code
  totp_proved otp none h = absurd (ground arith)
  totp_proved otp (some secret) h = (secret, refl, ground arith)

  email_proved :
      (otp : String) (o : Option String) (t : Option ℕ)
      → check_email_code p now otp o t ≡ Factor.passed_email
      → (expires : ℕ) × (o ≡ some otp) × (t ≡ some expires) × (now ≤ expires)
  unfolding check_email_code
  email_proved otp none t h = absurd (ground arith)
  email_proved otp (some code) none h = absurd (ground arith)
  email_proved otp (some code) (some expires) h =
      (expires, ground (arith, text_test.test_iff otp code), refl, ground arith)

  totp_not_email :
      (otp : String) (o : Option String) → check_totp_code p now otp o ≢ Factor.passed_email
  unfolding check_totp_code
  totp_not_email otp none h = ground arith
  totp_not_email otp (some secret) h = ground arith

  email_not_totp :
      (otp : String) (o : Option String) (t : Option ℕ)
      → check_email_code p now otp o t ≢ Factor.passed
  unfolding check_email_code
  email_not_totp otp none t h = ground arith
  email_not_totp otp (some code) none h = ground arith
  email_not_totp otp (some code) (some expires) h = ground arith

  factor_cases :
      (r : Credentials) (u : Account)
      → second_factor p now r u ≡ Factor.passed
      → ((u.totp_enabled ≡ false) × (u.email_otp_enabled ≡ false))
        ⊎ ((u.totp_enabled ≡ true) × (check_totp_code p now r.otp u.totp_secret ≡ Factor.passed))
  unfolding second_factor
  factor_cases r u h =
      ground (arith, email_not_totp r.otp u.email_otp_code u.email_otp_code_expires)

  email_cases :
      (r : Credentials) (u : Account)
      → second_factor p now r u ≡ Factor.passed_email
      → (u.email_otp_enabled ≡ true)
        × (check_email_code p now r.otp u.email_otp_code u.email_otp_code_expires
            ≡ Factor.passed_email)
  unfolding second_factor
  email_cases r u h = ground (arith, totp_not_email r.otp u.totp_secret)

  factor_proved :
      (r : Credentials) (u : Account)
      → (second_factor p now r u ≡ Factor.passed) ⊎ (second_factor p now r u ≡ Factor.passed_email)
      → FactorProved r u
  factor_proved r u (inl h) = elim (factor_cases r u h) [
    | inl off ↦ inl off
    | inr (on, code) ↦ inr (inl (on, totp_proved r.otp u.totp_secret code))
  ]
  factor_proved r u (inr h) =
      let (on, code) = email_cases r u h in
      inr (inr (on, email_proved r.otp u.email_otp_code u.email_otp_code_expires code))

  -- The session is for the user `id`, whose failures are forgotten.
  pub record IsSession (id : ℕ) (s : Session) (db : Accounts) : Type 0 where
    pub of_user : s.user_id ≡ some id
    pub row : Account
    pub stored : get db id ≡ some row
    pub forgotten : row.failed_attempts ≡ 0
    pub unlocked : row.locked_until ≡ none
    pub bound : s.pwd_fp ≡ p.fingerprint row.password_hash

  session_for-IsSession :
      (id : ℕ) (db : Accounts) (u : Account) (s : Session)
      → get db id ≡ some u
      → u.failed_attempts ≡ 0
      → u.locked_until ≡ none
      → session_for p id (some u) ≡ some s
      → IsSession id s db
  session_for-IsSession id db u s at f l h = record {
    of_user = ground arith;
    row = u;
    stored = at;
    forgotten = f;
    unlocked = l;
    bound = ground arith;
  }

  sign_in-IsSession :
      (id : ℕ) (db : Accounts) (s : Session)
      → (sign_in p id db).2 ≡ some s
      → IsSession id s (sign_in p id db).0
  unfolding sign_in
  sign_in-IsSession id db s h = elim (Option-cases (get db id)) [
    | inl out ↦
        let e : get (change db id clear_failures) id ≡ none =
          ground (arith, get-change db id clear_failures id, number_test.test_iff id id) in
        absurd (ground (arith, e))
    | inr (u, at) ↦
        let e : get (change db id clear_failures) id ≡ some (clear_failures u) =
          ground (arith, get-change db id clear_failures id, number_test.test_iff id id) in
        session_for-IsSession id (change db id clear_failures) (clear_failures u) s e refl refl
          (ap (session_for p id) (sym e) ∙ h)
  ]

  after_factor-IsSession :
      (id : ℕ) (db : Accounts) (f : Factor) (s : Session)
      → (after_factor p now id db f).2 ≡ some s
      → ((f ≡ Factor.passed) ⊎ (f ≡ Factor.passed_email))
        × IsSession id s (after_factor p now id db f).0
  unfolding after_factor
  after_factor-IsSession id db Factor.passed s h = (inl refl, sign_in-IsSession id db s h)
  after_factor-IsSession id db Factor.passed_email s h =
      (inr refl, sign_in-IsSession id (change db id clear_code) s h)
  after_factor-IsSession id db Factor.failed_otp s h = absurd (ground arith)
  after_factor-IsSession id db Factor.crashed s h = absurd (ground arith)

  pub record IsSignIn (r : Credentials) (db : Accounts) (s : Session) (db' : Accounts)
      : Type 0 where
    pub id : ℕ
    pub user : Account
    pub named : by_username db r.username ≡ some (id, user)
    pub not_locked : is_locked now user ≡ false
    pub password : p.verify user.password_hash r.password ≡ Verified.matches
    pub factor : FactorProved r user
    pub session : IsSession id s db'

  after_password-IsSignIn :
      (salt : String) (r : Credentials) (db : Accounts) (id : ℕ) (u : Account) (s : Session)
      (v : Verified)
      → by_username db r.username ≡ some (id, u)
      → is_locked now u ≡ false
      → p.verify u.password_hash r.password ≡ v
      → (after_password p now salt r id u db v).2 ≡ some s
      → IsSignIn r db s (after_password p now salt r id u db v).0
  unfolding after_password
  after_password-IsSignIn salt r db id u s Verified.mismatch e o v h = absurd (ground arith)
  after_password-IsSignIn salt r db id u s Verified.broken e o v h = absurd (ground arith)
  after_password-IsSignIn salt r db id u s Verified.matches e o v h =
      let (proved, session) =
        after_factor-IsSession id (change db id (rehash p salt r.password))
          (second_factor p now r u) s h in
      record {
        id = id;
        user = u;
        named = e;
        not_locked = o;
        password = v;
        factor = factor_proved r u proved;
        session = session;
      }

  login_account-IsSignIn :
      (salt : String) (r : Credentials) (db : Accounts) (found : Option (ℕ × Account)) (s : Session)
      → by_username db r.username ≡ found
      → (login_account p now salt r db found).2 ≡ some s
      → IsSignIn r db s (login_account p now salt r db found).0
  unfolding login_account
  login_account-IsSignIn salt r db none s e h = absurd (ground arith)
  login_account-IsSignIn salt r db (some (id, u)) s e h = elim (Bool-cases (is_locked now u)) [
    | inl locked ↦ absurd (ground arith)
    | inr open_ ↦ rw open_ (
        after_password-IsSignIn salt r db id u s (p.verify u.password_hash r.password) e open_ refl
          (ground arith))
  ]

  -- When login answers with a session, the name and the password have an allowed length, the name
  -- is that of an account that is not locked at that time, the password verifies against its hash,
  -- and a second factor is proved or none is enabled: a code that the authenticator accepts, or the
  -- code that was sent and has not expired. The session is for that account and is bound to the
  -- hash it has then, and its failures and its lock are cleared.
  pub login-IsSignIn :
      (salt : String) (r : Credentials) (db : Accounts) (s : Session)
      → (login p now salt r db).2 ≡ some s
      → (too_long r.username r.password ≡ false) × IsSignIn r db s (login p now salt r db).0
  unfolding login
  login-IsSignIn salt r db s h = elim (Bool-cases (too_long r.username r.password)) [
    | inl long ↦ absurd (ground arith)
    | inr fine ↦ (
      fine,
      rw fine (login_account-IsSignIn salt r db (by_username db r.username) s refl (ground arith)),
    )
  ]
