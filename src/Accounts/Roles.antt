-- ===== src/Accounts/Roles.antt =====
-- There is always an administrator.
use ids_bachelor_thesis.Prelude.{
  ℕ, ◌≡◌, refl, Bool, true, String, number_test, text_test, ◌==◌, some, List, [], ◌∷◌, arith, inl,
  inr, Option-cases,
}
use ids_bachelor_thesis.Dict.{get, holds}
use ids_bachelor_thesis.Dict.Laws.{get-insert, get-pop}
use ids_bachelor_thesis.Text.{is_lower_of}
use ids_bachelor_thesis.Accounts.Defs.{
  Account, Accounts, Crypto, Syntax, Session, change, count_failure, load_user,
}
use ids_bachelor_thesis.Accounts.Rows.{get-change}
use ids_bachelor_thesis.Accounts.Login.{issue_code, rehash}
use ids_bachelor_thesis.Accounts.Admin.{is_admin, new_account}
use ids_bachelor_thesis.Accounts.Calls.{Setting, Administration, Call, step, run}
use ids_bachelor_thesis.Accounts.Edits.{PublicEdit, public_step-keeps}
use ids_bachelor_thesis.Accounts.SettingEdits.{SettingEdit, SettingResult}
use ids_bachelor_thesis.Accounts.SettingSteps.{setting_step-Result}
use ids_bachelor_thesis.Accounts.AdminEdits.{
  AdminEdit, AdminChange, AdminResult, administration_step-Result,
}

-- The row is there, and its role is admin.
abbrev pub admin_at : Accounts → ℕ → Bool
admin_at db id = holds is_admin (get db id)

abbrev pub HasAdmin : Accounts → Type 0
HasAdmin db = (id : ℕ) × (admin_at db id ≡ true)

-- `f` does not touch the role.
abbrev KeepsRole : (Account → Account) → Type 0
KeepsRole f = (u : Account) → (f u).role ≡ u.role

admin_at-change :
    (db : Accounts) (id j : ℕ) (f : Account → Account)
    → KeepsRole f
    → admin_at db j ≡ true
    → admin_at (change db id f) j ≡ true
unfolding is_admin
admin_at-change db id j f keeps h = elim (Option-cases (get db j)) [
  | inl out ↦ ground (arith, get-change db id f j)
  | inr (u, at) ↦ ground (arith, get-change db id f j, keeps u)
]

is_admin-role :
    (role : String) (u : Account)
    → role == "admin" ≡ true
    → is_admin (record u { role = role }) ≡ true
unfolding is_admin is_lower_of
is_admin-role role u e = rw ((text_test.test_iff role "admin").0 e) refl

public-KeepsRole : (now : ℕ) (f : Account → Account) → PublicEdit now f → KeepsRole f
unfolding count_failure rehash issue_code
public-KeepsRole now f (PublicEdit.failed _) u = ground arith
public-KeepsRole now f (PublicEdit.cleared _) u = refl
public-KeepsRole now f (PublicEdit.code_used _) u = refl
public-KeepsRole now f (PublicEdit.rehashed p _ salt password) u = ground arith
public-KeepsRole now f (PublicEdit.issued _ code) u = refl

module _ (p : Crypto) (y : Syntax) where
  setting-KeepsRole :
      (now : ℕ) (w : Account) (c : Setting) (f : Account → Account)
      → SettingEdit p now w c f
      → KeepsRole f
  unfolding issue_code
  setting-KeepsRole now w c f (SettingEdit.totp_set secret) u = refl
  setting-KeepsRole now w c f (SettingEdit.totp_dropped password otp e a b) u = refl
  setting-KeepsRole now w c f (SettingEdit.password_set salt current new otp e a) u = refl
  setting-KeepsRole now w c f (SettingEdit.issued code) u = refl
  setting-KeepsRole now w c f SettingEdit.email_set u = refl
  setting-KeepsRole now w c f (SettingEdit.profile_set r upload e a) u = refl
  setting-KeepsRole now w c f SettingEdit.qr_seen u = refl
  setting-KeepsRole now w c f (SettingEdit.email_dropped password otp e a b) u = refl

  load_user-at :
      (now : ℕ) (s : Session) (db : Accounts) (me : ℕ) (u : Account)
      → load_user p now s db ≡ some (me, u)
      → get db me ≡ some u
  unfolding load_user
  load_user-at now s db me u h = ground arith

  -- The administrator who acts stays one.
  edit_keeps_actor :
      (now me id : ℕ) (db : Accounts) (c : Administration) (f : Account → Account)
      → AdminEdit p now me c id f
      → admin_at db me ≡ true
      → admin_at (change db id f) me ≡ true
  edit_keeps_actor now me id db c f (AdminEdit.password_reset i salt new) h =
      admin_at-change db id me f (λ u. refl) h
  edit_keeps_actor now me id db c f (AdminEdit.role_set i role ok) h =
      elim (Option-cases (get db me)) [
        | inl out ↦ absurd (ground arith)
        | inr (u, at) ↦ ground (
          arith,
          get-change db i f me,
          number_test.test_iff i me,
          number_test.test_iff me i,
          is_admin-role role u,
        )
      ]
  edit_keeps_actor now me id db c f (AdminEdit.mfa_reset i e other) h =
      admin_at-change db id me f (λ u. refl) h
  edit_keeps_actor now me id db c f (AdminEdit.locked i hours other) h =
      admin_at-change db id me f (λ u. refl) h
  edit_keeps_actor now me id db c f (AdminEdit.unlocked i) h =
      admin_at-change db id me f (λ u. refl) h

  change_keeps_actor :
      (now me : ℕ) (c : Administration) (db db' : Accounts)
      → AdminChange p now me db c db'
      → admin_at db me ≡ true
      → admin_at db' me ≡ true
  change_keeps_actor now me c db db' AdminChange.unchanged h = h
  change_keeps_actor now me c db db' (AdminChange.created id salt name password role email free) h =
      ground (
        arith,
        number_test.test_iff id me,
        get-insert db id (new_account name (p.hash salt password) role email) me,
      )
  change_keeps_actor now me c db db' (AdminChange.deleted id e other) h =
      ground (arith, get-pop db id me, number_test.test_iff me id, number_test.test_iff id me)
  change_keeps_actor now me c db db' (AdminChange.edited id f e) h =
      edit_keeps_actor now me id db c f e h

  step-HasAdmin : (now : ℕ) (c : Call) (db : Accounts) → HasAdmin db → HasAdmin (step p y now c db)
  step-HasAdmin now (Call.public c) db (id, h) = (
    id,
    public_step-keeps p now (λ db. admin_at db id ≡ true)
        (λ db j f e was. admin_at-change db j id f (public-KeepsRole now f e) was) c db h,
  )
  step-HasAdmin now (Call.setting s c) db (id, h) = (id, after (setting_step-Result p y now s db c))
    where
      after : {db' : Accounts} → SettingResult p now s db c db' → admin_at db' id ≡ true
      after SettingResult.left_alone = h
      after (SettingResult.edited j u f at e) =
          admin_at-change db j id f (setting-KeepsRole now u c f e) h
  step-HasAdmin now (Call.administration s c) db (id, h) =
      after (administration_step-Result p y now s db c)
    where
      after : {db' : Accounts} → AdminResult p now s db c db' → HasAdmin db'
      after AdminResult.left_alone = (id, h)
      after (AdminResult.by_admin me u db' at is change) = (
        me,
        change_keeps_actor now me c db db' change (ground (arith, load_user-at now s db me u at)),
      )

  -- If the table has an administrator, it has one after any calls, by whomever and whenever, of login,
  -- check_totp, start_login_email_otp, totp_qr, the routes of the settings page that change the
  -- factors, the password or the profile, and the routes of administration that create, delete, edit,
  -- lock or unlock a user.
  pub run-HasAdmin :
      (calls : List (ℕ × Call)) (db : Accounts) → HasAdmin db → HasAdmin (run p y calls db)
  unfolding run
  run-HasAdmin [] db h = h
  run-HasAdmin ((now, c) ∷ calls) db h =
      run-HasAdmin calls (step p y now c db) (step-HasAdmin now c db h)
