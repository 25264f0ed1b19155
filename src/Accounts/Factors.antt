-- ===== src/Accounts/Factors.antt =====
-- Who can leave an account without a second factor.
use ids_bachelor_thesis.Prelude.{
  ℕ, ◌≡◌, ◌⊎◌, ◌∙◌, ap, refl, Bool, true, false, ◌||◌, String, number_test, text_test, ◌==◌, some,
  arith, inl, inr, Option-cases, Bool-cases, subst, sym,
}
use ids_bachelor_thesis.Dict.{get, holds}
use ids_bachelor_thesis.Dict.Laws.{get-insert, get-pop}
use ids_bachelor_thesis.Accounts.Defs.{
  Account, Accounts, Crypto, Syntax, Session, Verified, change, count_failure, load_user,
}
use ids_bachelor_thesis.Accounts.Rows.{get-change}
use ids_bachelor_thesis.Accounts.Login.{rehash, issue_code}
use ids_bachelor_thesis.Accounts.Settings.{totp_of, code_fits}
use ids_bachelor_thesis.Accounts.Admin.{is_admin, new_account}
use ids_bachelor_thesis.Accounts.Calls.{Setting, Administration, Call, step}
use ids_bachelor_thesis.Accounts.Edits.{PublicEdit, public_step-keeps}
use ids_bachelor_thesis.Accounts.SettingEdits.{SettingEdit, SettingResult}
use ids_bachelor_thesis.Accounts.SettingSteps.{setting_step-Result}
use ids_bachelor_thesis.Accounts.AdminEdits.{
  AdminEdit, AdminChange, AdminResult, administration_step-Result,
}

abbrev pub has_factor : Account → Bool
has_factor u = u.totp_enabled || u.email_otp_enabled

abbrev pub factor_at : Accounts → ℕ → Bool
factor_at db id = holds has_factor (get db id)

-- The call deletes the account `id` or resets its factors.
abbrev pub IsDrop : Administration → ℕ → Type 0
IsDrop c id = (c ≡ Administration.delete_user id) ⊎ (c ≡ Administration.reset_user_mfa id)

-- What it takes to drop the last factor of the account `id`.
pub data Dropped (p : Crypto) (now : ℕ) (db : Accounts) (id : ℕ) : Call → Type 0 where
  by_totp :
      (s : Session) (u : Account) (password otp : String)
      → load_user p now s db ≡ some (id, u)
      → p.verify u.password_hash password ≡ Verified.matches
      → totp_of p now otp u.totp_secret ≡ some true
      → Dropped p now db id (Call.setting s (Setting.drop_totp password otp))
  by_email :
      (s : Session) (u : Account) (password otp : String)
      → load_user p now s db ≡ some (id, u)
      → p.verify u.password_hash password ≡ Verified.matches
      → code_fits now otp u.email_otp_code u.email_otp_code_expires ≡ some true
      → Dropped p now db id (Call.setting s (Setting.drop_email password otp))
  by_admin :
      (s : Session) (c : Administration) (me : ℕ) (u : Account)
      → load_user p now s db ≡ some (me, u)
      → is_admin u ≡ true
      → (me == id) ≡ false
      → IsDrop c id
      → Dropped p now db id (Call.administration s c)

abbrev KeepsFactor : (Account → Account) → Type 0
KeepsFactor f = (u : Account) → has_factor u ≡ true → has_factor (f u) ≡ true

factor_at-change :
    (db : Accounts) (id j : ℕ) (f : Account → Account)
    → KeepsFactor f
    → factor_at db j ≡ true
    → factor_at (change db id f) j ≡ true
factor_at-change db id j f keeps h = elim (Option-cases (get db j)) [
  | inl out ↦ ground (arith, get-change db id f j)
  | inr (u, at) ↦ ground (arith, get-change db id f j, keeps u)
]

-- An edit of another row does not matter.
factor_at-change_other :
    (db : Accounts) (id j : ℕ) (f : Account → Account)
    → (id == j) ≡ false
    → factor_at (change db id f) j ≡ factor_at db j
factor_at-change_other db id j f other = ground (arith, get-change db id f j)

public-KeepsFactor : (now : ℕ) (f : Account → Account) → PublicEdit now f → KeepsFactor f
unfolding count_failure rehash issue_code
public-KeepsFactor now f (PublicEdit.failed _) u h = ground arith
public-KeepsFactor now f (PublicEdit.cleared _) u h = h
public-KeepsFactor now f (PublicEdit.code_used _) u h = h
public-KeepsFactor now f (PublicEdit.rehashed p _ salt password) u h = ground arith
public-KeepsFactor now f (PublicEdit.issued _ code) u h = h

module _ (p : Crypto) (y : Syntax) (now : ℕ) (db : Accounts) (id : ℕ)
    (had : factor_at db id ≡ true) where
  module _ (s : Session) (c : Setting) where
    abbrev Conclusion : Accounts → Type 0
    Conclusion db' = factor_at db' id ≡ false → Dropped p now db id (Call.setting s c)

    kept : (j : ℕ) (f : Account → Account) → KeepsFactor f → Conclusion (change db j f)
    kept j f keeps gone = absurd (ground (arith, factor_at-change db j id f keeps had))

    here :
        (j : ℕ) (u : Account) (f : Account → Account)
        → load_user p now s db ≡ some (j, u)
        → (load_user p now s db ≡ some (id, u) → Dropped p now db id (Call.setting s c))
        → Conclusion (change db j f)
    here j u f at h gone = elim (Bool-cases (j == id)) [
      | inl same ↦
          let e : j ≡ id = ground (arith, number_test.test_iff j id) in
          h (subst (λ k. load_user p now s db ≡ some (k, u)) e at)
      | inr other ↦ absurd (ground (arith, factor_at-change_other db j id f other))
    ]

    as_call :
        {d : Setting}
        → c ≡ d
        → Dropped p now db id (Call.setting s d)
        → Dropped p now db id (Call.setting s c)
    as_call e = subst (λ d. Dropped p now db id (Call.setting s d)) (sym e)

    setting-Dropped : (db' : Accounts) → SettingResult p now s db c db' → Conclusion db'
    unfolding issue_code
    setting-Dropped db' SettingResult.left_alone gone = absurd (ground arith)
    setting-Dropped db' (SettingResult.edited j u f at (SettingEdit.totp_set secret)) gone =
        kept j f (λ u h. refl) gone
    setting-Dropped db'
          (SettingResult.edited j u f at (SettingEdit.totp_dropped password otp is match ok)) gone =
        here j u f at (λ e. as_call is (Dropped.by_totp s u password otp e match ok)) gone
    setting-Dropped db'
          (SettingResult.edited j u f at (SettingEdit.password_set salt current new otp is match))
          gone =
        kept j f (λ u h. h) gone
    setting-Dropped db' (SettingResult.edited j u f at (SettingEdit.issued code)) gone =
        kept j f (λ u h. h) gone
    setting-Dropped db' (SettingResult.edited j u f at SettingEdit.email_set) gone =
        kept j f (λ u h. ground arith) gone
    setting-Dropped db'
          (SettingResult.edited j u f at (SettingEdit.email_dropped password otp is match ok))
          gone =
        here j u f at (λ e. as_call is (Dropped.by_email s u password otp e match ok)) gone
    setting-Dropped db' (SettingResult.edited j u f at (SettingEdit.profile_set r upload is match))
          gone =
        kept j f (λ u h. h) gone
    setting-Dropped db' (SettingResult.edited j u f at SettingEdit.qr_seen) gone =
        kept j f (λ u h. h) gone

  AdminEdit-other :
      (me j : ℕ) (c : Administration) (f : Account → Account)
      → AdminEdit p now me c j f
      → factor_at (change db j f) id ≡ false
      → ((me == id) ≡ false) × IsDrop c id
  AdminEdit-other me j c f (AdminEdit.password_reset _ salt new) gone =
      absurd (ground (arith, factor_at-change db j id f (λ u h. h) had))
  AdminEdit-other me j c f (AdminEdit.role_set _ role ok) gone =
      absurd (ground (arith, factor_at-change db j id f (λ u h. h) had))
  AdminEdit-other me j c f (AdminEdit.mfa_reset _ is other) gone = elim (Bool-cases (j == id)) [
    | inl same ↦
        let e : j ≡ id = (number_test.test_iff j id).0 same in
        (subst (λ k. (me == k) ≡ false) e other, inr (is ∙ ap Administration.reset_user_mfa e))
    | inr out ↦ absurd (ground (arith, factor_at-change_other db j id f out))
  ]
  AdminEdit-other me j c f (AdminEdit.locked _ hours other) gone =
      absurd (ground (arith, factor_at-change db j id f (λ u h. h) had))
  AdminEdit-other me j c f (AdminEdit.unlocked _) gone =
      absurd (ground (arith, factor_at-change db j id f (λ u h. h) had))

  -- Another administrator's deletion or reset, or none that matters.
  AdminChange-other :
      (me : ℕ) (c : Administration) (db' : Accounts)
      → AdminChange p now me db c db'
      → factor_at db' id ≡ false
      → ((me == id) ≡ false) × IsDrop c id
  AdminChange-other me c db' AdminChange.unchanged gone = absurd (ground arith)
  AdminChange-other me c db' (AdminChange.created j salt name password role email free) gone =
      absurd (
        ground (
          arith,
          number_test.test_iff j id,
          get-insert db j (new_account name (p.hash salt password) role email) id,
        ))
  AdminChange-other me c db' (AdminChange.deleted j is other) gone = elim (Bool-cases (j == id)) [
    | inl same ↦
        let e : j ≡ id = (number_test.test_iff j id).0 same in
        (subst (λ k. (me == k) ≡ false) e other, inl (is ∙ ap Administration.delete_user e))
    | inr out ↦ absurd (ground (arith, get-pop db j id))
  ]
  AdminChange-other me c db' (AdminChange.edited j f e) gone = AdminEdit-other me j c f e gone

  -- A call that leaves an account with a second factor without one is `disable_totp` or
  -- `disable_email_otp` by its own user, signed in, and the password and the code that the call
  -- submits are right, or it is a call by an administrator who is somebody else, which deletes this
  -- account or resets its factors.
  pub step-Dropped : (c : Call) → factor_at (step p y now c db) id ≡ false → Dropped p now db id c
  step-Dropped (Call.public c) gone =
      let kept =
        public_step-keeps p now (λ d. factor_at d id ≡ true)
          (λ d j f e was. factor_at-change d j id f (public-KeepsFactor now f e) was) c db had in
      absurd (ground arith)
  step-Dropped (Call.setting s c) gone =
      setting-Dropped s c _ (setting_step-Result p y now s db c) gone
  step-Dropped (Call.administration s c) gone =
      by_result (administration_step-Result p y now s db c) gone
    where
      by_result :
          {db' : Accounts}
          → AdminResult p now s db c db'
          → factor_at db' id ≡ false
          → Dropped p now db id (Call.administration s c)
      by_result AdminResult.left_alone gone = absurd (ground arith)
      by_result (AdminResult.by_admin me u db' at is change) gone =
          let (other, drops) = AdminChange-other me c db' change gone in
          Dropped.by_admin s c me u at is other drops
