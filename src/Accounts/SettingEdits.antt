-- ===== src/Accounts/SettingEdits.antt =====
-- The parts of the routes of the settings page: each leaves the table as it is or edits the row of
-- its user, with what it has checked before.
use ids_bachelor_thesis.Prelude.{
  ℕ, ◌≡◌, refl, Bool, true, false, not, ◌||◌, String, number_test, text_test, Option, none, some,
  if◌then◌else◌,
}
use ids_bachelor_thesis.Dict.{is_some}
use ids_bachelor_thesis.Accounts.Defs.{
  Account, Accounts, Crypto, Session, Verified, Answer, change, load_user,
}
use ids_bachelor_thesis.Accounts.Login.{issue_code}
use ids_bachelor_thesis.Accounts.Settings.{
  verify_pending, drop_totp, replace_password, use_code, confirm_email, for_user, set_totp,
  clear_totp, set_password, set_email_otp, code_fits, totp_of,
}
use ids_bachelor_thesis.Accounts.Profile.{
  Profile, Upload, set_profile, confirm_profile, show_qr, show_row,
}
use ids_bachelor_thesis.Accounts.Calls.{Setting}

-- What a route of the settings page does to the row of its user, and what it has checked before.
pub data SettingEdit (p : Crypto) (now : ℕ) (u : Account) (c : Setting)
    : (Account → Account) → Type 0 where
  totp_set : (secret : String) → SettingEdit p now u c (set_totp secret)
  totp_dropped :
      (password otp : String)
      → c ≡ Setting.drop_totp password otp
      → p.verify u.password_hash password ≡ Verified.matches
      → totp_of p now otp u.totp_secret ≡ some true
      → SettingEdit p now u c clear_totp
  password_set :
      (salt current new otp : String)
      → c ≡ Setting.new_password salt current new otp
      → p.verify u.password_hash current ≡ Verified.matches
      → SettingEdit p now u c (set_password p salt new)
  issued : (code : String) → SettingEdit p now u c (issue_code now code)
  email_set : SettingEdit p now u c (set_email_otp true)
  email_dropped :
      (password otp : String)
      → c ≡ Setting.drop_email password otp
      → p.verify u.password_hash password ≡ Verified.matches
      → code_fits now otp u.email_otp_code u.email_otp_code_expires ≡ some true
      → SettingEdit p now u c (set_email_otp false)
  profile_set :
      (r : Profile) (upload : Upload)
      → c ≡ Setting.profile r upload
      → p.verify u.password_hash r.confirm_password ≡ Verified.matches
      → SettingEdit p now u c (set_profile r)
  qr_seen : SettingEdit p now u c show_qr

-- The route left the table alone, or edited the row of the user that its session names.
pub data SettingResult (p : Crypto) (now : ℕ) (s : Session) (db : Accounts) (c : Setting)
    : Accounts → Type 0 where
  left_alone : SettingResult p now s db c db
  edited :
      (id : ℕ) (u : Account) (f : Account → Account)
      → load_user p now s db ≡ some (id, u)
      → SettingEdit p now u c f
      → SettingResult p now s db c (change db id f)

module _ (p : Crypto) (now : ℕ) (s : Session) (db : Accounts) (c : Setting) where
  abbrev Result : Accounts × Session × Answer → Type 0
  Result r = SettingResult p now s db c r.0

  abbrev left : Result (db, s, Answer.done)
  left = SettingResult.left_alone

  pub if-Result :
      (b : Bool) (x y : Accounts × Session × Answer)
      → Result x
      → (b ≡ false → Result y)
      → Result (if b then x else y)
  if-Result true x y h h' = h
  if-Result false x y h h' = h' refl

  pub for_user-Result :
      (route : ℕ → Account → Accounts × Session × Answer) (found : Option (ℕ × Account))
      → load_user p now s db ≡ found
      → ((id : ℕ) (u : Account) → load_user p now s db ≡ some (id, u) → Result (route id u))
      → Result (for_user s db route found)
  for_user-Result route none e h = left
  for_user-Result route (some (id, u)) e h = h id u e

  -- The three ways that a check can come out.
  pub check-Result :
      (o : Option Bool) (x y z : Accounts × Session × Answer)
      → Result x
      → Result y
      → (o ≡ some true → Result z)
      → Result (elim o [ none ↦ x | some false ↦ y | some true ↦ z ])
  check-Result none x y z h h' h'' = h
  check-Result (some false) x y z h h' h'' = h'
  check-Result (some true) x y z h h' h'' = h'' refl

  module _ (id : ℕ) (u : Account) (at : load_user p now s db ≡ some (id, u)) where
    pub edit :
        (f : Account → Account)
        → SettingEdit p now u c f
        → SettingResult p now s db c (change db id f)
    edit f e = SettingResult.edited id u f at e

    pub verify_pending-Result :
        (otp : String) (o : Option String) → Result (verify_pending p now id otp s db o)
    verify_pending-Result otp none = left
    verify_pending-Result otp (some secret) =
        check-Result (p.totp_verify secret otp now) _ _ _ left left
          (λ ok. edit (set_totp secret) (SettingEdit.totp_set secret))

    pub drop_totp-Result :
        (password otp : String)
        → c ≡ Setting.drop_totp password otp
        → (v : Verified) → p.verify u.password_hash password ≡ v
        → Result (drop_totp p now otp s db id u v)
    drop_totp-Result password otp is Verified.mismatch e = left
    drop_totp-Result password otp is Verified.broken e = left
    drop_totp-Result password otp is Verified.matches e =
        check-Result (totp_of p now otp u.totp_secret) _ _ _ left left
          (λ ok. edit clear_totp (SettingEdit.totp_dropped password otp is e ok))

    pub replace_password-Result :
        (salt current new otp : String)
        → c ≡ Setting.new_password salt current new otp
        → (v : Verified) → p.verify u.password_hash current ≡ v
        → Result (replace_password p salt new s db id v)
    replace_password-Result salt current new otp is Verified.mismatch e = left
    replace_password-Result salt current new otp is Verified.broken e = left
    replace_password-Result salt current new otp is Verified.matches e =
        edit (set_password p salt new) (SettingEdit.password_set salt current new otp is e)

    pub use_code-Result :
        (otp : String) (enabled : Bool)
        → (code_fits now otp u.email_otp_code u.email_otp_code_expires ≡ some true
            → SettingEdit p now u c (set_email_otp enabled))
        → Result (use_code p now otp enabled s db id u)
    use_code-Result otp enabled h =
        check-Result (code_fits now otp u.email_otp_code u.email_otp_code_expires) _ _ _ left left
          (λ ok. edit (set_email_otp enabled) (h ok))

    pub confirm_email-Result :
        (password otp : String)
        → c ≡ Setting.drop_email password otp
        → (v : Verified) → p.verify u.password_hash password ≡ v
        → Result (confirm_email p now otp s db id u v)
    confirm_email-Result password otp is Verified.mismatch e = left
    confirm_email-Result password otp is Verified.broken e = left
    confirm_email-Result password otp is Verified.matches e =
        use_code-Result otp false (λ ok. SettingEdit.email_dropped password otp is e ok)

    pub confirm_profile-Result :
        (r : Profile) (upload : Upload)
        → c ≡ Setting.profile r upload
        → (v : Verified) → p.verify u.password_hash r.confirm_password ≡ v
        → Result (confirm_profile s db id u r upload v)
    confirm_profile-Result r upload is Verified.mismatch e = left
    confirm_profile-Result r upload is Verified.broken e = left
    confirm_profile-Result r Upload.turned_down is Verified.matches e = left
    confirm_profile-Result r Upload.not_stored is Verified.matches e = left
    confirm_profile-Result r Upload.passed is Verified.matches e =
        edit (set_profile r) (SettingEdit.profile_set r Upload.passed is e)

    pub show_row-Result :
        (qr_shown : Bool) (secret : Option String) → Result (show_row s db id u qr_shown secret)
    show_row-Result qr_shown (some secret) = left
    show_row-Result qr_shown none =
        if-Result (not (is_some u.totp_secret) || u.totp_qr_shown) _ _ left
          (λ fresh. edit show_qr SettingEdit.qr_seen)
