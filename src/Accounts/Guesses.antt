-- ===== src/Accounts/Guesses.antt =====
-- Wrong guesses on an account, and what each does to its row.
use ids_bachelor_thesis.Prelude.{
  ℕ, ◌+◌, ◌≡◌, refl, ◌∙◌, Bool, true, false, not, ◌&&◌, ◌||◌, number_test, text_test, ◌==◌, Option,
  none, some, arith, leb, if◌then◌else◌, inl, inr, Bool-cases,
}
use ids_bachelor_thesis.Dict.{get}
use ids_bachelor_thesis.Accounts.Defs.{
  Account, Accounts, Crypto, Session, Verified, minutes, change, by_username, is_locked,
  count_failure, record_password_failure,
}
use ids_bachelor_thesis.Accounts.Rows.{get-change}
use ids_bachelor_thesis.Accounts.Login.{Credentials, Factor, too_long, second_factor, login}
use ids_bachelor_thesis.Accounts.Calls.{Public}

-- The row after a call: a wrong guess is counted, and locks from the fifth on; nothing else of the
-- count and the lock changes.
pub data RowStep (now : ℕ) (u u' : Account) : Bool → Type 0 where
  counted :
      is_locked now u ≡ false
      → u'.failed_attempts ≡ u.failed_attempts + 1
      → u'.locked_until
        ≡ (if leb 5 (u.failed_attempts + 1) then some (now + minutes 15) else u.locked_until)
      → RowStep now u u' true
  same :
      u'.failed_attempts ≡ u.failed_attempts
      → u'.locked_until ≡ u.locked_until
      → RowStep now u u' false

abbrev pub is_failed_otp : Factor → Bool
is_failed_otp Factor.failed_otp = true
is_failed_otp Factor.passed = false
is_failed_otp Factor.passed_email = false
is_failed_otp Factor.crashed = false

module _ (p : Crypto) (now : ℕ) (id : ℕ) where
  -- The password is compared and differs, or it is right and the code is not.
  abbrev pub wrong_login : Credentials → Account → Verified → Bool
  wrong_login r u Verified.matches = is_failed_otp (second_factor p now r u)
  wrong_login r u Verified.mismatch = true
  wrong_login r u Verified.broken = false

  abbrev pub wrong_check : Verified → Bool
  wrong_check Verified.matches = false
  wrong_check Verified.mismatch = true
  wrong_check Verified.broken = false

  abbrev pub about : (Account → Bool) → Option (ℕ × Account) → Bool
  about wrong none = false
  about wrong (some (j, u)) = (j == id && not (is_locked now u)) && wrong u

  -- whether the call is a wrong guess on the account `id`
  unfoldable pub is_guess : Public → Accounts → Bool
  unfolding by_username too_long
  is_guess (Public.log_in salt r) db =
      not (too_long r.username r.password)
      && about (λ u. wrong_login r u (p.verify u.password_hash r.password))
          (by_username db r.username)
  is_guess (Public.ask_totp r) db =
      (not (r.username == "" || r.password == "") && not (too_long r.username r.password))
      && about (λ u. wrong_check (p.verify u.password_hash r.password)) (by_username db r.username)
  is_guess (Public.ask_email_code code sent r) db =
      (not (r.username == "" || r.password == "") && not (too_long r.username r.password))
      && about (λ u. wrong_check (p.verify u.password_hash r.password)) (by_username db r.username)

  abbrev pub is_for : Option Session → Bool
  is_for none = false
  is_for (some s) = elim s.user_id [ none ↦ false | some j ↦ j == id ]

  -- whether the call signs a browser in as `id`
  unfoldable pub signs_in : Public → Accounts → Bool
  unfolding login
  signs_in (Public.log_in salt r) db = is_for (login p now salt r db).2
  signs_in (Public.ask_totp r) db = false
  signs_in (Public.ask_email_code code sent r) db = false

  -- The row of `id` in the table after a call.
  abbrev pub After : Account → Accounts → Bool → Type 0
  After u db wrong = (u' : Account) × (get db id ≡ some u') × RowStep now u u' wrong

  pub unchanged : (u : Account) (db : Accounts) → get db id ≡ some u → After u db false
  unchanged u db at = (u, at, RowStep.same refl refl)

  -- A change that keeps the count and the lock, of any row.
  pub kept :
      (u : Account) (db : Accounts) (j : ℕ) (f : Account → Account)
      → ((w : Account) → (f w).failed_attempts ≡ w.failed_attempts)
      → ((w : Account) → (f w).locked_until ≡ w.locked_until)
      → After u db false
      → After u (change db j f) false
  kept u db j f count lock (u', at, RowStep.same c l) = elim (Bool-cases (j == id)) [
    | inl this ↦
        (f u', ground (arith, get-change db j f id, at), RowStep.same (count u' ∙ c) (lock u' ∙ l))
    | inr other ↦ (u', ground (arith, get-change db j f id, at), RowStep.same c l)
  ]

  -- A failure of `j`, whose row in the table that was read is not locked.
  pub failed :
      (u : Account) (db : Accounts) (j : ℕ)
      → ((j == id) ≡ true → is_locked now u ≡ false)
      → After u db false
      → After u (record_password_failure now j db) (j == id)
  unfolding record_password_failure count_failure
  failed u db j free (u', at, RowStep.same c l) = elim (Bool-cases (j == id)) [
    | inl this ↦ rw this (
      count_failure now u',
      ground (arith, get-change db j (count_failure now) id, at),
      RowStep.counted (free this) (ground arith) (ground arith),
    )
    | inr other ↦
        rw other (u', ground (arith, get-change db j (count_failure now) id, at), RowStep.same c l)
  ]
