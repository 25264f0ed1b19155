-- ===== src/Accounts/AdminEdits.antt =====
-- Every route of administration leaves the table as it is, or adds, drops or edits one row on
-- behalf of an administrator.
use ids_bachelor_thesis.Prelude.{
  ℕ, ◌≡◌, refl, Bool, true, false, not, ◌&&◌, ◌||◌, String, number_test, text_test, ◌==◌, Option,
  none, some, arith, if◌then◌else◌, inl, inr, Bool-cases, leb,
}
use ids_bachelor_thesis.Dict.{get, insert, pop, is_some}
use ids_bachelor_thesis.Accounts.Defs.{
  Account, Accounts, Crypto, Syntax, bad_email, Session, Answer, change, load_user, by_username,
}
use ids_bachelor_thesis.Accounts.Login.{clear_failures}
use ids_bachelor_thesis.Accounts.Admin.{
  is_admin, is_role, bad_password, new_account, for_admin, change_user, reset_password, reset_mfa,
  lock_for, lock_user, duration_of, admin_create_user, admin_delete_user, admin_reset_password,
  admin_set_role, admin_reset_mfa, admin_set_lock,
}
use ids_bachelor_thesis.Accounts.Calls.{Administration, administration_step}

-- What the administrator `me` may do to the row of `id`.
pub data AdminEdit (p : Crypto) (now me : ℕ) (c : Administration)
    : ℕ → (Account → Account) → Type 0 where
  password_reset :
      (id : ℕ) (salt new : String) → AdminEdit p now me c id (reset_password p salt new)
  role_set :
      (id : ℕ) (role : String)
      → (me == id && not (role == "admin")) ≡ false
      → AdminEdit p now me c id (λ u. record u { role = role })
  mfa_reset :
      (id : ℕ)
      → c ≡ Administration.reset_user_mfa id
      → (me == id) ≡ false
      → AdminEdit p now me c id reset_mfa
  locked : (id h : ℕ) → (me == id) ≡ false → AdminEdit p now me c id (lock_for now h)
  unlocked : (id : ℕ) → AdminEdit p now me c id clear_failures

pub data AdminChange (p : Crypto) (now me : ℕ) (db : Accounts) (c : Administration)
    : Accounts → Type 0 where
  unchanged : AdminChange p now me db c db
  created :
      (id : ℕ) (salt name password role : String) (email : Option String)
      → is_some (get db id) ≡ false
      → AdminChange p now me db c
          (insert db id (new_account name (p.hash salt password) role email))
  deleted :
      (id : ℕ)
      → c ≡ Administration.delete_user id
      → (me == id) ≡ false
      → AdminChange p now me db c (pop db id)
  edited :
      (id : ℕ) (f : Account → Account)
      → AdminEdit p now me c id f
      → AdminChange p now me db c (change db id f)

-- Without an administrator behind the session nothing changes.
pub data AdminResult (p : Crypto) (now : ℕ) (s : Session) (db : Accounts) (c : Administration)
    : Accounts → Type 0 where
  left_alone : AdminResult p now s db c db
  by_admin :
      (me : ℕ) (u : Account) (db' : Accounts)
      → load_user p now s db ≡ some (me, u)
      → is_admin u ≡ true
      → AdminChange p now me db c db'
      → AdminResult p now s db c db'

module _ (p : Crypto) (y : Syntax) (now : ℕ) (s : Session) (db : Accounts)
    (c : Administration) where
  for_admin-Result :
      (route : ℕ → Accounts × Answer) (found : Option (ℕ × Account))
      → load_user p now s db ≡ found
      → ((me : ℕ) → AdminChange p now me db c (route me).0)
      → AdminResult p now s db c (for_admin p db route found).0
  for_admin-Result route none e h = AdminResult.left_alone
  for_admin-Result route (some (me, u)) e h = elim (Bool-cases (is_admin u)) [
    | inl is ↦ rw is (AdminResult.by_admin me u (route me).0 e is (h me))
    | inr is_not ↦ rw is_not AdminResult.left_alone
  ]

  module _ (me : ℕ) where
    abbrev Change : Accounts × Answer → Type 0
    Change r = AdminChange p now me db c r.0

    if-Change :
        (b : Bool) (x y : Accounts × Answer)
        → (b ≡ true → Change x)
        → (b ≡ false → Change y)
        → Change (if b then x else y)
    if-Change true x y h h' = h refl
    if-Change false x y h h' = h' refl

    refuse :
        (b : Bool) (a : Answer) (x : Accounts × Answer)
        → (b ≡ false → Change x)
        → Change (if b then (db, a) else x)
    refuse b a x h = if-Change b (db, a) x (λ e. AdminChange.unchanged) h

    change_user-Change :
        (id : ℕ) (f : Account → Account) → AdminEdit p now me c id f → Change (change_user db id f)
    change_user-Change id f e =
        if-Change (is_some (get db id)) _ _ (λ there. AdminChange.edited id f e)
          (λ out. AdminChange.unchanged)

    lock_user-Change : (id : ℕ) (o : Option ℕ) → (me == id) ≡ false → Change (lock_user now id db o)
    lock_user-Change id none e = AdminChange.unchanged
    lock_user-Change id (some h) e =
        if-Change (leb 50_000 h && leb h 8_760_000_000) _ _
          (λ fits. change_user-Change id (lock_for now h) (AdminEdit.locked id h e))
          (λ out. AdminChange.unchanged)

module _ (p : Crypto) (y : Syntax) (now : ℕ) (s : Session) (db : Accounts) where
  pub administration_step-Result :
      (c : Administration) → AdminResult p now s db c (administration_step p y now s c db)
  unfolding admin_create_user admin_delete_user admin_reset_password admin_set_role admin_reset_mfa
      admin_set_lock
  administration_step-Result (Administration.create_user id salt name password role email) =
      for_admin-Result p y now s db (Administration.create_user id salt name password role email) _
        (load_user p now s db) refl
        (λ me.
          refuse p y now s db (Administration.create_user id salt name password role email) me
            (not (is_role role)) _ _
            (λ e1.
              refuse p y now s db (Administration.create_user id salt name password role email) me
                (not (y.is_username name) || bad_password password) _ _
                (λ e2.
                  refuse p y now s db (Administration.create_user id salt name password role email)
                    me (bad_email y email) _ _
                    (λ e3.
                      refuse p y now s db
                        (Administration.create_user id salt name password role email) me
                        (is_some (by_username db name)) _ _
                        (λ e4.
                          refuse p y now s db
                            (Administration.create_user id salt name password role email) me
                            (is_some (get db id)) _ _
                            (λ e5. AdminChange.created id salt name password role email e5))))))
  administration_step-Result (Administration.delete_user id) =
      for_admin-Result p y now s db (Administration.delete_user id) _ (load_user p now s db) refl
        (λ me. refuse p y now s db (Administration.delete_user id) me (me == id) _ _ (λ other.
          refuse p y now s db (Administration.delete_user id) me (not (is_some (get db id))) _ _
            (λ there. AdminChange.deleted id refl other)))
  administration_step-Result (Administration.set_user_password id salt new) =
      for_admin-Result p y now s db (Administration.set_user_password id salt new) _
        (load_user p now s db) refl
        (λ me.
          refuse p y now s db (Administration.set_user_password id salt new) me (bad_password new) _
            _
            (λ fits.
              change_user-Change p y now s db (Administration.set_user_password id salt new) me id
                (reset_password p salt new) (AdminEdit.password_reset id salt new)))
  administration_step-Result (Administration.set_user_role id role) =
      for_admin-Result p y now s db (Administration.set_user_role id role) _ (load_user p now s db)
        refl
        (λ me.
          refuse p y now s db (Administration.set_user_role id role) me (not (is_role role)) _ _
            (λ e1.
              refuse p y now s db (Administration.set_user_role id role) me
                (me == id && not (role == "admin")) _ _
                (λ e2.
                  change_user-Change p y now s db (Administration.set_user_role id role) me id _
                    (AdminEdit.role_set id role e2))))
  administration_step-Result (Administration.reset_user_mfa id) =
      for_admin-Result p y now s db (Administration.reset_user_mfa id) _ (load_user p now s db) refl
        (λ me. refuse p y now s db (Administration.reset_user_mfa id) me (me == id) _ _ (λ other.
          change_user-Change p y now s db (Administration.reset_user_mfa id) me id reset_mfa
            (AdminEdit.mfa_reset id refl other)))
  administration_step-Result (Administration.set_user_lock id lock duration) =
      for_admin-Result p y now s db (Administration.set_user_lock id lock duration) _
        (load_user p now s db) refl
        (λ me.
          refuse p y now s db (Administration.set_user_lock id lock duration) me (me == id && lock)
            _ _
            (λ e.
              if-Change p y now s db (Administration.set_user_lock id lock duration) me lock _ _
                (λ on.
                  lock_user-Change p y now s db (Administration.set_user_lock id lock duration) me
                    id (duration_of duration) (ground arith))
                (λ off.
                  change_user-Change p y now s db (Administration.set_user_lock id lock duration) me
                    id clear_failures (AdminEdit.unlocked id))))
