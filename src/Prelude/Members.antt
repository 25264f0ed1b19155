-- ===== src/Prelude/Members.antt =====
-- Membership in a list by a test, and lists in which nothing repeats.
use mathlib.Core.Path.{◌≡◌, refl}
use mathlib.Core.Bool.{Bool, true, false, ◌||◌}
use mathlib.Core.List.{List, [], ◌∷◌, ◌++◌}
use native.Mathlib.Omega.{arith}
use ids_bachelor_thesis.Prelude.Tests.{if◌then◌else◌, Bool-cases}
use mathlib.Core.Logic.{◌≢◌, inl, inr}
use ids_bachelor_thesis.Prelude.Equality.{HasEq, ◌==◌}
use ids_bachelor_thesis.Prelude.Lists.{keep}

module _ {ℓ} {A : Type ℓ} ⦃e : HasEq A⦄ where
  -- `a in xs`
  abbrev pub has : A → List A → Bool
  has a [] = false
  has a (x ∷ xs) = x == a || has a xs

  abbrev pub Distinct : List A → Type 0
  Distinct [] = Unit
  Distinct (x ∷ xs) = (has x xs ≡ false) × Distinct xs

  -- `if a in xs: xs.remove(a)`
  abbrev pub remove : A → List A → List A
  remove a [] = []
  remove a (x ∷ xs) = if x == a then xs else x ∷ remove a xs

  pub has-append : (a : A) (xs ys : List A) → has a (xs ++ ys) ≡ (has a xs || has a ys)
  has-append a [] ys = refl
  has-append a (x ∷ xs) ys = ground (arith, has-append a xs ys)

  pub has-keep : (a : A) (p : A → Bool) (xs : List A) → has a xs ≡ false → has a (keep p xs) ≡ false
  has-keep a p [] h = refl
  has-keep a p (x ∷ xs) h = ground (arith, has-keep a p xs)

  pub has-remove : (a b : A) (xs : List A) → has a xs ≡ false → has a (remove b xs) ≡ false
  has-remove a b [] h = refl
  has-remove a b (x ∷ xs) h = ground (arith, has-remove a b xs)

  pub remove-Distinct : (a : A) (xs : List A) → Distinct xs → Distinct (remove a xs)
  remove-Distinct a [] h = tt
  remove-Distinct a (x ∷ xs) h = ground (arith, has-remove x a xs, remove-Distinct a xs)

  pub keep-Distinct : (p : A → Bool) (xs : List A) → Distinct xs → Distinct (keep p xs)
  keep-Distinct p [] h = tt
  keep-Distinct p (x ∷ xs) h = ground (arith, has-keep x p xs, keep-Distinct p xs)

  -- What repeats nothing still repeats nothing with a new item at its end.
  pub append-Distinct :
      (a : A) (xs : List A) → Distinct xs → has a xs ≡ false → Distinct (xs ++ a ∷ [])
  append-Distinct a [] d h = (refl, tt)
  append-Distinct a (x ∷ xs) d h =
      ground (arith, has-append x xs (a ∷ []), append-Distinct a xs, e.test_iff x a, e.test_iff a x)

  pub has_of_remove : (a x : A) (xs : List A) → has a (remove x xs) ≡ true → has a xs ≡ true
  has_of_remove a x xs h = elim (Bool-cases (has a xs)) [
    | inl is_in ↦ is_in
    | inr out ↦ absurd (ground (arith, has-remove a x xs))
  ]

  pub has_of_keep :
      (a : A) (p : A → Bool) (xs : List A) → has a (keep p xs) ≡ true → has a xs ≡ true
  has_of_keep a p xs h = elim (Bool-cases (has a xs)) [
    | inl is_in ↦ is_in
    | inr out ↦ absurd (ground (arith, has-keep a p xs))
  ]

  pub has-keep_p : (a : A) (p : A → Bool) (xs : List A) → has a (keep p xs) ≡ true → p a ≡ true
  has-keep_p a p [] h = absurd (ground arith)
  has-keep_p a p (x ∷ xs) h = elim (Bool-cases (x == a)) [
    | inl same ↦ ground (arith, e.test_iff x a, has-keep_p a p xs)
    | inr other ↦ ground (arith, has-keep_p a p xs)
  ]

  pub equal : (x y : A) → (x == y) ≡ true → x ≡ y
  equal x y h = (e.test_iff x y).0 h

  pub not_equal : (x y : A) → (x == y) ≡ false → x ≢ y
  not_equal x y h same = ground (arith, same, e.test_iff x y)

  pub remove-same : (a x : A) (xs : List A) → x ≡ a → remove a (x ∷ xs) ≡ xs
  remove-same a x xs h = ground (arith, e.test_iff x a)

  pub remove-differs : (a x : A) (xs : List A) → x ≢ a → remove a (x ∷ xs) ≡ x ∷ remove a xs
  remove-differs a x xs h = ground (arith, e.test_iff x a)

  pub has-remove_same : (a : A) (xs : List A) → Distinct xs → has a (remove a xs) ≡ false
  has-remove_same a [] d = refl
  has-remove_same a (x ∷ xs) d = ground (arith, e.test_iff x a, has-remove_same a xs)

  pub has-remove_other : (a b : A) (xs : List A) → a ≢ b → has a (remove b xs) ≡ has a xs
  has-remove_other a b [] h = refl
  has-remove_other a b (x ∷ xs) h =
      ground (arith, e.test_iff x a, e.test_iff x b, has-remove_other a b xs)

  pub test_sym : (x y : A) → (x == y) ≡ (y == x)
  test_sym x y = ground (arith, e.test_iff x y, e.test_iff y x)

  pub test_self : (x : A) → (x == x) ≡ true
  test_self x = ground (arith, e.test_iff x x)
