-- ===== src/Prelude/Equality.antt =====
-- Equality tests as an interface: `==` for every type with an instance.
use Prim.Native.Nat.{ℕ}
use Prim.Native.String.{String}
use mathlib.Core.Path.{◌≡◌, refl}
use mathlib.Core.Logic.{◌↔◌}
use mathlib.Core.Bool.{Bool, true, false, ◌&&◌}
use mathlib.Core.List.{List, [], ◌∷◌}
use native.Mathlib.Omega.{arith}
use text.Mathlib.Text.{◌==◌ as str_eqb}
use text.Mathlib.TextEquality.{eq_iff}
use ids_bachelor_thesis.Prelude.Tests.{nat_eqb, nat_eqb_iff}

-- A decidable test that means equality; keys of dicts and members of sets have one.
pub record HasEq {ℓ} (A : Type ℓ) : Type ℓ where
  pub test : A → A → Bool
  pub test_iff : (x y : A) → (test x y ≡ true) ↔ (x ≡ y)

module _ {ℓ} {A : Type ℓ} ⦃e : HasEq A⦄ where
  infix 50 ◌==◌
  abbrev pub ◌==◌ : A → A → Bool
  x == y = e.test x y

instance abbrev pub text_test : HasEq String
text_test = record { test = str_eqb; test_iff = eq_iff }

instance abbrev pub number_test : HasEq ℕ
number_test = record { test = nat_eqb; test_iff = nat_eqb_iff }

module _ {ℓ} {A : Type ℓ} ⦃e : HasEq A⦄ where
  abbrev pub list_eqb : List A → List A → Bool
  list_eqb [] [] = true
  list_eqb [] (y ∷ ys) = false
  list_eqb (x ∷ xs) [] = false
  list_eqb (x ∷ xs) (y ∷ ys) = e.test x y && list_eqb xs ys

  list_eqb_sound : (xs ys : List A) → list_eqb xs ys ≡ true → xs ≡ ys
  list_eqb_sound [] [] h = refl
  list_eqb_sound [] (y ∷ ys) h = cc h
  list_eqb_sound (x ∷ xs) [] h = cc h
  list_eqb_sound (x ∷ xs) (y ∷ ys) h = ground (arith, e.test_iff x y, list_eqb_sound xs ys)

  list_eqb_refl : (xs : List A) → list_eqb xs xs ≡ true
  list_eqb_refl [] = refl
  list_eqb_refl (x ∷ xs) = ground (arith, e.test_iff x x, list_eqb_refl xs)

  pub list_eqb_iff : (xs ys : List A) → (list_eqb xs ys ≡ true) ↔ (xs ≡ ys)
  list_eqb_iff xs ys = (list_eqb_sound xs ys, λ h. rw h (list_eqb_refl ys))

  instance abbrev pub list_test : HasEq (List A)
  list_test = record { test = list_eqb; test_iff = list_eqb_iff }
