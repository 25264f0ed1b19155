-- ===== src/Accounts/Lockout.antt =====
-- How many guesses an account allows in a time.
use ids_bachelor_thesis.Prelude.{
  ℕ, suc, ◌+◌, ◌-◌, ◌*◌, ◌≤◌, ◌<◌, ◌≡◌, ap, Bool, true, false, number_test, Option, none, some,
  List, [], ◌∷◌, arith, if◌then◌else◌, max,
}
use ids_bachelor_thesis.Dict.{get}
use ids_bachelor_thesis.Accounts.Defs.{Account, Accounts, Crypto, minutes, is_locked}
use ids_bachelor_thesis.Accounts.Calls.{Public, public_step}
use ids_bachelor_thesis.Accounts.Guesses.{RowStep, is_guess, signs_in}
use ids_bachelor_thesis.Accounts.Counting.{public_step-After}

abbrev lock_of : Option ℕ → ℕ
lock_of none = 0
lock_of (some t) = t

-- What is left of the time up to `last` for `n` more guesses: below five failures the next ones are
-- free, from then on each is followed by a lock.
record HasRoom (last t n : ℕ) (u : Account) : Type 0 where
  pub locked :
      5 ≤ u.failed_attempts
      → 1 ≤ n
      → max t (lock_of u.locked_until) + n * minutes 15 ≤ last + minutes 15
  pub free :
      u.failed_attempts < 5 → t + (n + u.failed_attempts) * minutes 15 ≤ last + 5 * minutes 15

not_locked : (now : ℕ) (u : Account) → is_locked now u ≡ false → lock_of u.locked_until ≤ now
unfolding is_locked
not_locked now u h = ground arith

guess-HasRoom :
    (last t now n : ℕ) (u u' : Account) (g : Bool)
    → t ≤ now
    → now ≤ last
    → RowStep now u u' g
    → HasRoom last now n u'
    → HasRoom last t (if g then suc n else n) u
guess-HasRoom last t now n u u' false earlier later (RowStep.same c l) room = record {
  locked = λ five some_left. ground (arith, c, ap lock_of l, room.locked);
  free = λ few. ground (arith, c, room.free);
}
guess-HasRoom last t now n u u' true earlier later (RowStep.counted open_ c l) room =
    let lock : 5 ≤ u.failed_attempts + 1 → lock_of u'.locked_until ≡ now + minutes 15 =
      λ five. ground (arith, ap lock_of l) in
    let unlocked = not_locked now u open_ in
    record {
      locked = λ five some_left. ground (arith, c, lock, unlocked, room.locked);
      free = λ few. ground (arith, c, lock, room.free, room.locked);
    }

module _ (p : Crypto) (id : ℕ) where
  -- Each call has its time; the times do not fall, from `t` to `last`.
  abbrev pub IsTimed : ℕ → ℕ → List (ℕ × Public) → Type 0
  IsTimed t last [] = t ≤ last
  IsTimed t last ((now, c) ∷ calls) = (t ≤ now) × IsTimed now last calls

  abbrev pub NobodySignsIn : List (ℕ × Public) → Accounts → Type 0
  NobodySignsIn [] db = Unit
  NobodySignsIn ((now, c) ∷ calls) db =
      (signs_in p now id c db ≡ false) × NobodySignsIn calls (public_step p now c db)

  -- the wrong guesses of a run on the account
  unfoldable pub guesses : List (ℕ × Public) → Accounts → ℕ
  guesses [] db = 0
  guesses ((now, c) ∷ calls) db =
      let rest = guesses calls (public_step p now c db) in
      if is_guess p now id c db then suc rest else rest

  IsTimed-le : (t last : ℕ) (calls : List (ℕ × Public)) → IsTimed t last calls → t ≤ last
  IsTimed-le t last [] h = h
  IsTimed-le t last ((now, c) ∷ calls) h = omega (arith, h.0, IsTimed-le now last calls h.1)

  guesses-HasRoom :
      (t last : ℕ) (calls : List (ℕ × Public)) (db : Accounts) (u : Account)
      → IsTimed t last calls
      → get db id ≡ some u
      → NobodySignsIn calls db
      → HasRoom last t (guesses calls db) u
  unfolding guesses
  guesses-HasRoom t last [] db u timed at nobody = record {
    locked = λ five some_left. absurd (omega arith);
    free = λ few. omega (arith, timed);
  }
  guesses-HasRoom t last ((now, c) ∷ calls) db u (earlier, timed) at (out, nobody) =
      let (u', at', moved) = public_step-After p now id u c db at out in
      guess-HasRoom last t now (guesses calls (public_step p now c db)) u u'
        (is_guess p now id c db) earlier (IsTimed-le now last calls timed) moved
        (guesses-HasRoom now last calls (public_step p now c db) u' timed at' nobody)

  -- In a run of login, check_totp and start_login_email_otp between two times, on a clock that does
  -- not go back and in which nobody is signed in as the account, the wrong guesses on it are at most
  -- five and one more for each fifteen minutes that pass. A wrong guess is a call whose password is
  -- compared with that of the account and differs, or a login with the right one and a wrong code,
  -- through any of the three routes.
  pub guesses-bound :
      (t last : ℕ) (calls : List (ℕ × Public)) (db : Accounts) (u : Account)
      → IsTimed t last calls
      → get db id ≡ some u
      → NobodySignsIn calls db
      → guesses calls db * minutes 15 ≤ (last - t) + 5 * minutes 15
  guesses-bound t last calls db u timed at nobody =
      let room = guesses-HasRoom t last calls db u timed at nobody in
      ground (arith, room.locked, room.free, IsTimed-le t last calls timed)
