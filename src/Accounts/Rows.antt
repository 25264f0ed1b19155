-- ===== src/Accounts/Rows.antt =====
-- What a change of one row means for each row.
use ids_bachelor_thesis.Prelude.{
  ℕ, ◌≡◌, inl, inr, Option-cases, number_test, text_test, ◌==◌, Option, none, some, arith,
  if◌then◌else◌, String,
}
use ids_bachelor_thesis.Dict.{get}
use ids_bachelor_thesis.Dict.Laws.{get-insert}
use ids_bachelor_thesis.Accounts.Defs.{Account, Accounts, by_username, change_found, change}

abbrev pub changed : (Account → Account) → Option Account → Option Account
changed f none = none
changed f (some u) = some (f u)

pub get-change :
    (db : Accounts) (id : ℕ) (f : Account → Account) (j : ℕ)
    → get (change db id f) j ≡ (if id == j then changed f (get db j) else get db j)
unfolding change
get-change db id f j = elim (Option-cases (get db id)) [
  | inl none_there ↦ rw (none_there, change_found) (ground (arith, number_test.test_iff id j))
  | inr (u, there) ↦
      rw (there, change_found) (ground (arith, number_test.test_iff id j, get-insert db id (f u) j))
]

pub get-by_username :
    (db : Accounts) (name : String) (id : ℕ) (u : Account)
    → by_username db name ≡ some (id, u)
    → get db id ≡ some u
unfolding by_username
get-by_username db name id u h = ground arith
