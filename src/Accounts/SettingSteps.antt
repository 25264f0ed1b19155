-- ===== src/Accounts/SettingSteps.antt =====
-- Every route of the settings page leaves the table as it is or edits the row of its user, with
-- what it has checked before.
use ids_bachelor_thesis.Prelude.{ℕ, refl, true, not, ◌||◌, number_test, text_test, ◌==◌, ltb}
use ids_bachelor_thesis.Dict.{is_some}
use ids_bachelor_thesis.Accounts.Defs.{
  Accounts, Crypto, Syntax, bad_email, Session, load_user, max_password_len, text_len,
}
use ids_bachelor_thesis.Accounts.Login.{issue_code}
use ids_bachelor_thesis.Accounts.Settings.{
  totp_allows, enable_totp, verify_new_totp, disable_totp, change_password, start_email_otp,
  start_email_otp_disable, verify_email_otp, disable_email_otp,
}
use ids_bachelor_thesis.Accounts.Profile.{is_taken, update_profile, totp_qr}
use ids_bachelor_thesis.Accounts.Calls.{Setting, setting_step}
use ids_bachelor_thesis.Accounts.SettingEdits.{
  SettingEdit, SettingResult, if-Result, for_user-Result, check-Result, edit, verify_pending-Result,
  drop_totp-Result, replace_password-Result, use_code-Result, confirm_email-Result,
  confirm_profile-Result, show_row-Result,
}

module _ (p : Crypto) (y : Syntax) (now : ℕ) (s : Session) (db : Accounts) where
  pub setting_step-Result : (c : Setting) → SettingResult p now s db c (setting_step p y now s c db)
  unfolding enable_totp verify_new_totp disable_totp change_password start_email_otp
      start_email_otp_disable verify_email_otp disable_email_otp update_profile totp_qr
  setting_step-Result (Setting.begin_totp secret) =
      let c : Setting = Setting.begin_totp secret in
      for_user-Result p now s db c _ (load_user p now s db) refl (λ id u e.
        if-Result p now s db c u.totp_enabled _ _ SettingResult.left_alone
          (λ off. SettingResult.left_alone))
  setting_step-Result (Setting.confirm_totp otp) =
      let c : Setting = Setting.confirm_totp otp in
      for_user-Result p now s db c _ (load_user p now s db) refl (λ id u e.
        if-Result p now s db c (otp == "") _ _ SettingResult.left_alone
          (λ given. verify_pending-Result p now s db c id u e otp s.totp_setup_secret))
  setting_step-Result (Setting.drop_totp password otp) =
      let c : Setting = Setting.drop_totp password otp in
      for_user-Result p now s db c _ (load_user p now s db) refl (λ id u e.
        if-Result p now s db c
          (password == "" || otp == "" || ltb max_password_len (text_len password)) _ _
          SettingResult.left_alone
          (λ given. if-Result p now s db c (not u.totp_enabled) _ _ SettingResult.left_alone (λ on.
            drop_totp-Result p now s db c id u e password otp refl
              (p.verify u.password_hash password) refl)))
  setting_step-Result (Setting.new_password salt current new otp) =
      let c : Setting = Setting.new_password salt current new otp in
      for_user-Result p now s db c _ (load_user p now s db) refl (λ id u e.
        if-Result p now s db c
          (current == "" || new == "" || ltb max_password_len (text_len current)) _ _
          SettingResult.left_alone
          (λ given.
            if-Result p now s db c (ltb (text_len new) 12 || ltb max_password_len (text_len new)) _
              _ SettingResult.left_alone
              (λ fits.
                if-Result p now s db c (current == new) _ _ SettingResult.left_alone (λ differs.
                  check-Result p now s db c (totp_allows p now otp u) _ _ _ SettingResult.left_alone
                    SettingResult.left_alone
                    (λ ok.
                      replace_password-Result p now s db c id u e salt current new otp refl
                        (p.verify u.password_hash current) refl)))))
  setting_step-Result (Setting.begin_email code sent) =
      let c : Setting = Setting.begin_email code sent in
      for_user-Result p now s db c _ (load_user p now s db) refl (λ id u e.
        if-Result p now s db c (not (is_some u.email)) _ _ SettingResult.left_alone
          (λ has. edit p now s db c id u e (issue_code now code) (SettingEdit.issued code)))
  setting_step-Result (Setting.begin_email_disable code sent) =
      let c : Setting = Setting.begin_email_disable code sent in
      for_user-Result p now s db c _ (load_user p now s db) refl (λ id u e.
        if-Result p now s db c (not (is_some u.email) || not u.email_otp_enabled) _ _
          SettingResult.left_alone
          (λ on. edit p now s db c id u e (issue_code now code) (SettingEdit.issued code)))
  setting_step-Result (Setting.confirm_email otp) =
      let c : Setting = Setting.confirm_email otp in
      for_user-Result p now s db c _ (load_user p now s db) refl (λ id u e.
        if-Result p now s db c (otp == "") _ _ SettingResult.left_alone
          (λ given. use_code-Result p now s db c id u e otp true (λ ok. SettingEdit.email_set)))
  setting_step-Result (Setting.drop_email password otp) =
      let c : Setting = Setting.drop_email password otp in
      for_user-Result p now s db c _ (load_user p now s db) refl (λ id u e.
        if-Result p now s db c
          (password == "" || otp == "" || ltb max_password_len (text_len password)) _ _
          SettingResult.left_alone
          (λ given.
            if-Result p now s db c (not u.email_otp_enabled) _ _ SettingResult.left_alone (λ on.
              confirm_email-Result p now s db c id u e password otp refl
                (p.verify u.password_hash password) refl)))
  setting_step-Result (Setting.profile r upload) =
      let c : Setting = Setting.profile r upload in
      for_user-Result p now s db c _ (load_user p now s db) refl (λ id u e.
        if-Result p now s db c (r.username == "" || not (y.is_username r.username)) _ _
          SettingResult.left_alone
          (λ named.
            if-Result p now s db c (bad_email y r.email) _ _ SettingResult.left_alone (λ fits.
              if-Result p now s db c (is_taken db id r.username) _ _ SettingResult.left_alone
                (λ free.
                  if-Result p now s db c
                    (r.confirm_password == "" || ltb max_password_len (text_len r.confirm_password))
                    _ _ SettingResult.left_alone
                    (λ given.
                      confirm_profile-Result p now s db c id u e r upload refl
                        (p.verify u.password_hash r.confirm_password) refl)))))
  setting_step-Result (Setting.show_qr qr_shown) =
      let c : Setting = Setting.show_qr qr_shown in
      for_user-Result p now s db c _ (load_user p now s db) refl
        (λ id u e. show_row-Result p now s db c id u e qr_shown s.totp_setup_secret)
