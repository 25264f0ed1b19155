-- ===== src/Accounts/Calls.antt =====
-- The routes of uni-srver.py that change a row of the accounts, as one step of the server: login,
-- check_totp, start_login_email_otp, the routes of the settings page with update_profile, totp_qr, and
-- those of administration. The other routes leave the rows as they are.
use ids_bachelor_thesis.Prelude.{ℕ, Bool, String, Option, List, [], ◌∷◌}
use ids_bachelor_thesis.Accounts.Defs.{Accounts, Crypto, Syntax, Session}
use ids_bachelor_thesis.Accounts.Profile.{Profile, Upload, update_profile, totp_qr}
use ids_bachelor_thesis.Accounts.Login.{Credentials, login, check_totp, start_login_email_otp}
use ids_bachelor_thesis.Accounts.Settings.{
  enable_totp, verify_new_totp, disable_totp, change_password, start_email_otp,
  start_email_otp_disable, verify_email_otp, disable_email_otp,
}
use ids_bachelor_thesis.Accounts.Admin.{
  Duration, admin_create_user, admin_delete_user, admin_reset_password, admin_set_role,
  admin_reset_mfa, admin_set_lock,
}

-- A route of the settings page, or one of administration, comes with the session of its caller.
pub data Public : Type 0 where
  log_in : (salt : String) → Credentials → Public
  ask_totp : Credentials → Public
  ask_email_code : (code : String) → (sent : Bool) → Credentials → Public

pub data Setting : Type 0 where
  begin_totp : (secret : String) → Setting
  confirm_totp : (otp : String) → Setting
  drop_totp : (password otp : String) → Setting
  new_password : (salt current new otp : String) → Setting
  begin_email begin_email_disable : (code : String) → (sent : Bool) → Setting
  confirm_email : (otp : String) → Setting
  drop_email : (password otp : String) → Setting
  profile : Profile → Upload → Setting
  show_qr : (qr_shown : Bool) → Setting

pub data Administration : Type 0 where
  create_user : (id : ℕ) → (salt username password role : String) → Option String → Administration
  delete_user : ℕ → Administration
  set_user_password : ℕ → (salt new : String) → Administration
  set_user_role : ℕ → (role : String) → Administration
  reset_user_mfa : ℕ → Administration
  set_user_lock : ℕ → Bool → Duration → Administration

pub data Call : Type 0 where
  public : Public → Call
  setting : Session → Setting → Call
  administration : Session → Administration → Call

module _ (p : Crypto) where
  abbrev pub public_step : ℕ → Public → Accounts → Accounts
  public_step now (log_in salt r) db = (login p now salt r db).0
  public_step now (ask_totp r) db = (check_totp p now r db).0
  public_step now (ask_email_code code sent r) db = (start_login_email_otp p now code sent r db).0

module _ (p : Crypto) (y : Syntax) where
  abbrev pub setting_step : ℕ → Session → Setting → Accounts → Accounts
  setting_step now s (begin_totp secret) db = (enable_totp p now secret s db).0
  setting_step now s (confirm_totp otp) db = (verify_new_totp p now otp s db).0
  setting_step now s (drop_totp password otp) db = (disable_totp p now password otp s db).0
  setting_step now s (new_password salt current new otp) db =
      (change_password p now salt current new otp s db).0
  setting_step now s (begin_email code sent) db = (start_email_otp p now code sent s db).0
  setting_step now s (begin_email_disable code sent) db =
      (start_email_otp_disable p now code sent s db).0
  setting_step now s (confirm_email otp) db = (verify_email_otp p now otp s db).0
  setting_step now s (drop_email password otp) db = (disable_email_otp p now password otp s db).0
  setting_step now s (profile r upload) db = (update_profile p y now r upload s db).0
  setting_step now s (show_qr qr_shown) db = (totp_qr p now qr_shown s db).0

  abbrev pub administration_step : ℕ → Session → Administration → Accounts → Accounts
  administration_step now s (create_user id salt name password role email) db =
      (admin_create_user p now s y id salt name password role email db).0
  administration_step now s (delete_user id) db = (admin_delete_user p now s id db).0
  administration_step now s (set_user_password id salt new) db =
      (admin_reset_password p now s id salt new db).0
  administration_step now s (set_user_role id role) db = (admin_set_role p now s id role db).0
  administration_step now s (reset_user_mfa id) db = (admin_reset_mfa p now s id db).0
  administration_step now s (set_user_lock id locked duration) db =
      (admin_set_lock p now s id locked duration db).0

  abbrev pub step : ℕ → Call → Accounts → Accounts
  step now (public c) db = public_step p now c db
  step now (setting s c) db = setting_step now s c db
  step now (administration s c) db = administration_step now s c db

  -- Each call has its time.
  unfoldable pub run : List (ℕ × Call) → Accounts → Accounts
  run [] db = db
  run ((now, c) ∷ calls) db = run calls (step now c db)
