-- ===== src/Accounts/Passwords.antt =====
-- What a change of the password stands on, and the sessions it ends.
use ids_bachelor_thesis.Prelude.{
  ℕ, ◌≤◌, ◌≡◌, ◌≢◌, refl, sym, ◌∙◌, Bool, true, false, ◌||◌, String, number_test, text_test, ◌==◌,
  Option, none, some, arith, inl, inr, Option-cases, Bool-cases, ltb,
}
use ids_bachelor_thesis.Dict.{get}
use ids_bachelor_thesis.Accounts.Defs.{
  Account, Accounts, Crypto, Session, Verified, Answer, change, load_user, text_len,
  max_password_len, no_session,
}
use ids_bachelor_thesis.Accounts.Rows.{get-change}
use ids_bachelor_thesis.Accounts.Settings.{
  Reply, set_password, totp_allows, replace_password, if_allowed, change_password, for_user,
}

module _ (p : Crypto) where
  load_user-row :
      (now : ℕ) (t : Session) (db : Accounts) (id : ℕ) (u : Account)
      → load_user p now t db ≡ some (id, u)
      → (t.user_id ≡ some id) × (get db id ≡ some u) × (t.pwd_fp ≡ p.fingerprint u.password_hash)
  unfolding load_user
  load_user-row now t db id u h = elim (Option-cases t.user_id) [
    | inl out ↦ absurd (ground arith)
    | inr (i, of_user) ↦ elim (Option-cases (get db i)) [
      | inl gone ↦ absurd (ground arith)
      | inr (w, at) ↦ ground (arith, text_test.test_iff t.pwd_fp (p.fingerprint w.password_hash))
    ]
  ]

  -- A session that was made for another hash is refused.
  load_user-refused :
      (later : ℕ) (t : Session) (db : Accounts) (id : ℕ) (u : Account)
      → t.user_id ≡ some id
      → get db id ≡ some u
      → t.pwd_fp ≢ p.fingerprint u.password_hash
      → load_user p later t db ≡ none
  unfolding load_user
  load_user-refused later t db id u of_user at other =
      ground (arith, text_test.test_iff t.pwd_fp (p.fingerprint u.password_hash))

  -- What a successful change has checked, and what it leaves.
  pub record IsChange (now : ℕ) (salt current new otp : String) (id : ℕ) (u : Account)
      (db : Accounts) (r : Reply) : Type 0 where
    pub length_min : 12 ≤ text_len new
    pub length_max : text_len new ≤ max_password_len
    pub is_new : current ≢ new
    pub factor : totp_allows p now otp u ≡ some true
    pub password : p.verify u.password_hash current ≡ Verified.matches
    pub table : r.0 ≡ change db id (set_password p salt new)
    pub signed_out : r.1 ≡ no_session

  replace_password-IsChange :
      (now : ℕ) (salt current new otp : String) (s : Session) (db : Accounts) (id : ℕ) (u : Account)
      (v : Verified)
      → 12 ≤ text_len new
      → text_len new ≤ max_password_len
      → current ≢ new
      → totp_allows p now otp u ≡ some true
      → p.verify u.password_hash current ≡ v
      → (replace_password p salt new s db id v).2 ≡ Answer.done
      → IsChange now salt current new otp id u db (replace_password p salt new s db id v)
  replace_password-IsChange now salt current new otp s db id u Verified.mismatch a b c d v h =
      absurd (ground arith)
  replace_password-IsChange now salt current new otp s db id u Verified.broken a b c d v h =
      absurd (ground arith)
  replace_password-IsChange now salt current new otp s db id u Verified.matches a b c d v h =
      record {
        length_min = a;
        length_max = b;
        is_new = c;
        factor = d;
        password = v;
        table = refl;
        signed_out = refl;
      }

  allowed-IsChange :
      (now : ℕ) (salt current new otp : String) (s : Session) (db : Accounts) (id : ℕ) (u : Account)
      (a : Option Bool)
      → 12 ≤ text_len new
      → text_len new ≤ max_password_len
      → current ≢ new
      → totp_allows p now otp u ≡ a
      → (if_allowed p salt current new s db id u a).2 ≡ Answer.done
      → IsChange now salt current new otp id u db (if_allowed p salt current new s db id u a)
  allowed-IsChange now salt current new otp s db id u none a b c d h = absurd (ground arith)
  allowed-IsChange now salt current new otp s db id u (some false) a b c d h = absurd (ground arith)
  allowed-IsChange now salt current new otp s db id u (some true) a b c d h =
      replace_password-IsChange now salt current new otp s db id u
        (p.verify u.password_hash current) a b c d refl h

  change_password-IsChange :
      (now : ℕ) (salt current new otp : String) (s : Session) (db : Accounts) (id : ℕ) (u : Account)
      → load_user p now s db ≡ some (id, u)
      → (change_password p now salt current new otp s db).2 ≡ Answer.done
      → IsChange now salt current new otp id u db (change_password p now salt current new otp s db)
  unfolding change_password
  change_password-IsChange now salt current new otp s db id u me h =
      rw (me, for_user)
        (elim (Bool-cases (current == "" || new == "" || ltb max_password_len (text_len current))) [
          | inl missing ↦ absurd (ground arith)
          | inr given ↦
              rw given
                (elim (Bool-cases (ltb (text_len new) 12 || ltb max_password_len (text_len new))) [
                  | inl bad ↦ absurd (ground arith)
                  | inr fits ↦ rw fits (elim (Bool-cases (current == new)) [
                    | inl same ↦ absurd (ground arith)
                    | inr other ↦ rw other (
                        allowed-IsChange now salt current new otp s db id u
                          (totp_allows p now otp u) (ground arith) (ground arith)
                          (λ e. ground (arith, e, text_test.test_iff current new)) refl
                          (ground arith))
                  ])
                ])
        ])

  -- When change_password answers that it is done, the new password has between 12 and 64 characters
  -- and differs from the current one, the current one verified against the hash, and the code fits
  -- when the authenticator is on; the caller is signed out. If the new hash has another fingerprint
  -- than the old one, each session that was accepted for the account before is refused at every
  -- time afterwards.
  pub change_password-ends :
      (now later : ℕ) (salt current new otp : String) (s t : Session) (db : Accounts) (id : ℕ)
      (u : Account)
      → load_user p now s db ≡ some (id, u)
      → load_user p now t db ≡ some (id, u)
      → p.fingerprint u.password_hash ≢ p.fingerprint (p.hash salt new)
      → (change_password p now salt current new otp s db).2 ≡ Answer.done
      → IsChange now salt current new otp id u db (change_password p now salt current new otp s db)
        × (load_user p later t (change_password p now salt current new otp s db).0 ≡ none)
  change_password-ends now later salt current new otp s t db id u me them other h =
      let done = change_password-IsChange now salt current new otp s db id u me h in
      let (of_user, at, bound) = load_user-row now t db id u them in
      (
        done,
        rw done.table (
            load_user-refused later t (change db id (set_password p salt new)) id
              (set_password p salt new u) of_user
              (ground
                (arith, get-change db id (set_password p salt new) id, number_test.test_iff id id))
              (λ e. other (sym bound ∙ e))),
      )
