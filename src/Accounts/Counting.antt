-- ===== src/Accounts/Counting.antt =====
-- Each wrong guess is counted, and no other call changes the count or the lock.
use ids_bachelor_thesis.Prelude.{
  ℕ, ◌≡◌, refl, ap, sym, ◌∙◌, Bool, true, false, not, ◌&&◌, ◌||◌, String, number_test, text_test,
  ◌==◌, Option, none, some, arith, inl, inr, Bool-cases,
}
use ids_bachelor_thesis.Dict.{get, is_some}
use ids_bachelor_thesis.Accounts.Defs.{
  Account, Accounts, Crypto, Verified, Answer, change, by_username, is_locked,
  record_password_failure,
}
use ids_bachelor_thesis.Accounts.Rows.{get-change, get-by_username}
use ids_bachelor_thesis.Accounts.Login.{
  Credentials, Factor, too_long, second_factor, rehash, clear_code, clear_failures, issue_code,
  sign_in, after_factor, after_password, login_account, login, after_check, check_account,
  check_credentials, check_totp, start_login_email_otp,
}
use ids_bachelor_thesis.Accounts.Calls.{Public, public_step}
use ids_bachelor_thesis.Accounts.Guesses.{
  RowStep, is_failed_otp, wrong_login, wrong_check, about, is_guess, is_for, signs_in, After,
  unchanged, kept, failed,
}

module _ (p : Crypto) (now : ℕ) (id : ℕ) (u : Account) where
  no_guess :
      (b : Bool) (db : Accounts) → After p now id u db false → After p now id u db (b && false)
  no_guess true db h = h
  no_guess false db h = h

  guess : (b : Bool) (db : Accounts) → After p now id u db b → After p now id u db (b && true)
  guess true db h = h
  guess false db h = h

  shut :
      (b c : Bool) (db : Accounts)
      → After p now id u db false
      → After p now id u db ((b && false) && c)
  shut true c db h = h
  shut false c db h = h

  unlocked :
      (b c : Bool) (db : Accounts)
      → After p now id u db (b && c)
      → After p now id u db ((b && true) && c)
  unlocked true c db h = h
  unlocked false c db h = h

  sign_in-After :
      (j : ℕ) (db : Accounts)
      → is_for p now id (sign_in p j db).2 ≡ false
      → After p now id u db false
      → After p now id u (sign_in p j db).0 false
  unfolding sign_in
  sign_in-After j db out (u', at, RowStep.same c l) = elim (Bool-cases (j == id)) [
    | inl this ↦ absurd (
        ground (
          arith,
          get-change db j clear_failures j,
          number_test.test_iff j id,
          number_test.test_iff j j,
          at,
        ))
    | inr other ↦ (u', ground (arith, get-change db j clear_failures id, at), RowStep.same c l)
  ]

  after_factor-After :
      (j : ℕ) (db : Accounts) (f : Factor)
      → is_for p now id (after_factor p now j db f).2 ≡ false
      → ((j == id) ≡ true → is_locked now u ≡ false)
      → After p now id u db false
      → After p now id u (after_factor p now j db f).0 ((j == id) && is_failed_otp f)
  unfolding after_factor
  after_factor-After j db Factor.passed out free h =
      no_guess (j == id) (sign_in p j db).0 (sign_in-After j db out h)
  after_factor-After j db Factor.passed_email out free h =
      no_guess (j == id) (sign_in p j (change db j clear_code)).0 (
        sign_in-After j (change db j clear_code) out
          (kept p now id u db j clear_code (λ w. refl) (λ w. refl) h))
  after_factor-After j db Factor.failed_otp out free h =
      guess (j == id) (record_password_failure now j db) (failed p now id u db j free h)
  after_factor-After j db Factor.crashed out free h = no_guess (j == id) db h

  after_password-After :
      (salt : String) (r : Credentials) (j : ℕ) (w : Account) (db : Accounts) (v : Verified)
      → is_for p now id (after_password p now salt r j w db v).2 ≡ false
      → ((j == id) ≡ true → is_locked now u ≡ false)
      → After p now id u db false
      → After p now id u
          (after_password p now salt r j w db v).0
          ((j == id) && wrong_login p now id r w v)
  unfolding after_password rehash
  after_password-After salt r j w db Verified.matches out free h =
      after_factor-After j (change db j (rehash p salt r.password)) (second_factor p now r w) out
        free
        (kept p now id u db j (rehash p salt r.password) (λ x. ground arith) (λ x. ground arith) h)
  after_password-After salt r j w db Verified.mismatch out free h =
      guess (j == id) (record_password_failure now j db) (failed p now id u db j free h)
  after_password-After salt r j w db Verified.broken out free h = no_guess (j == id) db h

  -- The row that was read for the name is that of the account, if the ids agree.
  free_of :
      (db : Accounts) (name : String) (j : ℕ) (w : Account)
      → by_username db name ≡ some (j, w)
      → get db id ≡ some u
      → is_locked now w ≡ false
      → (j == id) ≡ true
      → is_locked now u ≡ false
  free_of db name j w e at open_ this =
      let same : some w ≡ some u =
        ground (arith, get-by_username db name j w e, at, number_test.test_iff j id) in
      ap is_locked_some (sym same) ∙ open_
    where
      is_locked_some : Option Account → Bool
      is_locked_some none = false
      is_locked_some (some x) = is_locked now x

  login_account-After :
      (salt : String) (r : Credentials) (db : Accounts) (found : Option (ℕ × Account))
      → by_username db r.username ≡ found
      → get db id ≡ some u
      → is_for p now id (login_account p now salt r db found).2 ≡ false
      → After p now id u (login_account p now salt r db found).0 (
          about p now id
            (λ w. wrong_login p now id r w (p.verify w.password_hash r.password))
            found)
  unfolding login_account
  login_account-After salt r db none e at out = unchanged p now id u db at
  login_account-After salt r db (some (j, w)) e at out = elim (Bool-cases (is_locked now w)) [
    | inl locked ↦ rw locked (
        shut (j == id) (wrong_login p now id r w (p.verify w.password_hash r.password)) db
          (unchanged p now id u db at))
    | inr open_ ↦
        let v = p.verify w.password_hash r.password in
        rw open_ (
          unlocked (j == id) (wrong_login p now id r w v) (after_password p now salt r j w db v).0 (
            after_password-After salt r j w db v (ground (arith, out))
              (free_of db r.username j w e at open_) (unchanged p now id u db at)))
  ]

  login-After :
      (salt : String) (r : Credentials) (db : Accounts)
      → get db id ≡ some u
      → signs_in p now id (Public.log_in salt r) db ≡ false
      → After p now id u (login p now salt r db).0 (is_guess p now id (Public.log_in salt r) db)
  unfolding login is_guess signs_in
  login-After salt r db at out = elim (Bool-cases (too_long r.username r.password)) [
    | inl long ↦ rw long (unchanged p now id u db at)
    | inr fine ↦
        rw fine
          (login_account-After salt r db (by_username db r.username) refl at (ground (arith, out)))
  ]

  check_account-After :
      (r : Credentials) (db : Accounts) (next : ℕ → Account → Accounts × Answer)
      (found : Option (ℕ × Account))
      → by_username db r.username ≡ found
      → get db id ≡ some u
      → ((j : ℕ) (w : Account) → After p now id u (next j w).0 false)
      → After p now id u
          (check_account p now r db next found).0
          (about p now id (λ w. wrong_check p now id (p.verify w.password_hash r.password)) found)
  check_account-After r db next none e at n = unchanged p now id u db at
  check_account-After r db next (some (j, w)) e at n = elim (Bool-cases (is_locked now w)) [
    | inl locked ↦ rw locked (
        shut (j == id) (wrong_check p now id (p.verify w.password_hash r.password)) db
          (unchanged p now id u db at))
    | inr open_ ↦
        let v = p.verify w.password_hash r.password in
        rw open_ (
          unlocked (j == id) (wrong_check p now id v) (after_check p now j w db next v).0
            (checked j w (free_of db r.username j w e at open_) v))
  ]
    where
      checked :
          (j : ℕ) (w : Account)
          → ((j == id) ≡ true → is_locked now u ≡ false)
          → (v : Verified)
          → After p now id u
              (after_check p now j w db next v).0
              ((j == id) && wrong_check p now id v)
      checked j w free Verified.matches = no_guess (j == id) (next j w).0 (n j w)
      checked j w free Verified.mismatch =
          guess (j == id) (record_password_failure now j db)
            (failed p now id u db j free (unchanged p now id u db at))
      checked j w free Verified.broken = no_guess (j == id) db (unchanged p now id u db at)

  check_credentials-After :
      (r : Credentials) (db : Accounts) (next : ℕ → Account → Accounts × Answer)
      → get db id ≡ some u
      → ((j : ℕ) (w : Account) → After p now id u (next j w).0 false)
      → After p now id u (check_credentials p now r db next).0 (
          (not (r.username == "" || r.password == "") && not (too_long r.username r.password))
          && about p now id
              (λ w. wrong_check p now id (p.verify w.password_hash r.password))
              (by_username db r.username))
  unfolding check_credentials
  check_credentials-After r db next at n =
      elim (Bool-cases (r.username == "" || r.password == "")) [
        | inl missing ↦ rw missing (unchanged p now id u db at)
        | inr given ↦ rw given (elim (Bool-cases (too_long r.username r.password)) [
          | inl long ↦ rw long (unchanged p now id u db at)
          | inr fine ↦ rw fine (check_account-After r db next (by_username db r.username) refl at n)
        ])
      ]

  -- A call that signs nobody in as `id` counts one failure on its row if it is a wrong guess, at a
  -- time when the account is not locked, and changes neither the count nor the lock if it is none.
  pub public_step-After :
      (c : Public) (db : Accounts)
      → get db id ≡ some u
      → signs_in p now id c db ≡ false
      → After p now id u (public_step p now c db) (is_guess p now id c db)
  unfolding check_totp start_login_email_otp is_guess issue_code
  public_step-After (Public.log_in salt r) db at out = login-After salt r db at out
  public_step-After (Public.ask_totp r) db at out =
      check_credentials-After r db _ at (λ j w. unchanged p now id u db at)
  public_step-After (Public.ask_email_code code sent r) db at out =
      check_credentials-After r db _ at (λ j w.
        elim (Bool-cases (not (is_some w.email) || not w.email_otp_enabled)) [
          | inl off ↦ rw off (unchanged p now id u db at)
          | inr on ↦ rw on (
              kept p now id u db j (issue_code now code) (λ x. refl) (λ x. refl)
                (unchanged p now id u db at))
        ])
