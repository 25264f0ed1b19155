-- ===== src/Accounts/Tests.antt =====
-- The theorems on accounts at a small table with an administrator and an analyst.
use ids_bachelor_thesis.Prelude.{
  ℕ, ◌≤◌, ◌*◌, ◌+◌, ◌-◌, List, ◌≡◌, ◌≢◌, refl, true, false, text_test, number_test, ◌==◌, none,
  some, [], ◌∷◌, if◌then◌else◌, arith,
}
use ids_bachelor_thesis.Dict.{get, insert}
use ids_bachelor_thesis.Accounts.Defs.{
  Account, Accounts, Crypto, Syntax, Session, Verified, Answer, load_user, minutes,
}
use ids_bachelor_thesis.Accounts.Login.{Credentials, login, too_long, check_totp}
use ids_bachelor_thesis.Accounts.Settings.{change_password, disable_totp}
use ids_bachelor_thesis.Accounts.Admin.{new_account, is_admin}
use ids_bachelor_thesis.Accounts.Calls.{Public, Setting, Administration, Call, run, step}
use ids_bachelor_thesis.Accounts.Roles.{HasAdmin, run-HasAdmin}
use ids_bachelor_thesis.Accounts.Factors.{Dropped, factor_at, step-Dropped}
use ids_bachelor_thesis.Accounts.SignIn.{IsSignIn, login-IsSignIn}
use ids_bachelor_thesis.Accounts.Guesses.{signs_in}
use ids_bachelor_thesis.Accounts.Lockout.{NobodySignsIn, guesses, guesses-bound}
use ids_bachelor_thesis.Accounts.Passwords.{IsChange, change_password-ends}

-- A hash is the password, and the only code of an authenticator is 123456.
abbrev toy : Crypto
toy = record {
  verify = λ h password. if h == password then Verified.matches else Verified.mismatch;
  needs_rehash = λ h. false;
  hash = λ salt password. password;
  totp_verify = λ secret otp now. some (otp == "123456");
  fingerprint = λ h. h;
}

abbrev any_text : Syntax
any_text = record { is_username = λ s. true; is_email = λ s. true }

abbrev amina : Account
amina = new_account "amina" "first password" "admin" none

abbrev karim : Account
karim = record (new_account "karim" "other password" "soc" none) {
  totp_secret = some "secret";
  totp_enabled = true;
}

abbrev table : Accounts
table = (1, amina) ∷ (2, karim) ∷ []

abbrev session_of : ℕ → Account → Session
session_of id u = record { user_id = some id; pwd_fp = u.password_hash; totp_setup_secret = none }

abbrev karim_logs_in : Credentials
karim_logs_in = record {
  username = "karim";
  password = "other password";
  otp = "123456";
  otp_method = "totp";
}

login_lem : (login toy 10 "" karim_logs_in table).2 ≡ some (session_of 2 karim)
unfolding login get insert
login_lem = refl

login-IsSignIn_example :
    (too_long "karim" "other password" ≡ false)
    × IsSignIn toy 10 karim_logs_in table
        (session_of 2 karim)
        (login toy 10 "" karim_logs_in table).0
login-IsSignIn_example = login-IsSignIn toy 10 "" karim_logs_in table (session_of 2 karim) login_lem

table-HasAdmin : HasAdmin table
unfolding get is_admin
table-HasAdmin = (1, refl)

run-HasAdmin_example : HasAdmin (
    run toy any_text
      ((10, Call.public (Public.log_in "" karim_logs_in))
        ∷ (11, Call.administration (session_of 1 amina) (Administration.set_user_role 2 "admin"))
        ∷ (12, Call.administration (session_of 2 karim) (Administration.delete_user 1))
        ∷ [])
      table)
run-HasAdmin_example =
    run-HasAdmin toy any_text
      ((10, Call.public (Public.log_in "" karim_logs_in))
        ∷ (11, Call.administration (session_of 1 amina) (Administration.set_user_role 2 "admin"))
        ∷ (12, Call.administration (session_of 2 karim) (Administration.delete_user 1))
        ∷ [])
      table table-HasAdmin

abbrev drop : Call
drop = Call.setting (session_of 2 karim) (Setting.drop_totp "other password" "123456")

drop_before : factor_at table 2 ≡ true
unfolding get
drop_before = refl

drop_after : factor_at (step toy any_text 10 drop table) 2 ≡ false
unfolding get disable_totp insert
drop_after = refl

step-Dropped_example : Dropped toy 10 table 2 drop
step-Dropped_example = step-Dropped toy any_text 10 table 2 drop_before drop drop_after

amina_loads : load_user toy 10 (session_of 1 amina) table ≡ some (1, amina)
unfolding load_user get
amina_loads = refl

amina_changes :
    (change_password toy 10 "" "first password" "a longer password" "" (session_of 1 amina) table).2
    ≡ Answer.done
unfolding change_password get
amina_changes = refl

other_hash : toy.fingerprint amina.password_hash ≢ toy.fingerprint "a longer password"
other_hash h = ground (arith, h, text_test.test_iff amina.password_hash "a longer password")

change_password-ends_example :
    IsChange toy 10 "" "first password" "a longer password" "" 1 amina table
      (change_password toy 10 "" "first password" "a longer password" "" (session_of 1 amina) table)
    × (load_user toy 99
          (session_of 1 amina)
          (change_password toy 10 "" "first password" "a longer password" ""
            (session_of 1 amina)
            table).0
        ≡ none)
change_password-ends_example =
    change_password-ends toy 10 99 "" "first password" "a longer password" "" (session_of 1 amina)
      (session_of 1 amina) table 1 amina amina_loads amina_loads other_hash amina_changes

abbrev wrong : Credentials
wrong = record { username = "amina"; password = "guess"; otp = ""; otp_method = "" }

abbrev attack : List (ℕ × Public)
attack = (10, Public.log_in "" wrong) ∷ (11, Public.ask_totp wrong) ∷ []

nobody : NobodySignsIn toy 1 attack table
unfolding signs_in login get insert check_totp
nobody = (refl, (refl, tt))

amina_row : get table 1 ≡ some amina
unfolding get
amina_row = refl

guesses-bound_example : guesses toy 1 attack table * minutes 15 ≤ (20 - 0) + 5 * minutes 15
guesses-bound_example =
    guesses-bound toy 1 0 20 attack table amina (omega arith, (omega arith, omega arith)) amina_row
      nobody
