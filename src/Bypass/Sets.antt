-- ===== src/Bypass/Sets.antt =====
-- The sets of needles: what is in them, and that nothing is in them twice.
use ids_bachelor_thesis.Prelude.{
  ℕ, ◌≡◌, refl, ap, ◌∙◌, ◌==◌, number_test, list_test, true, false, not, ◌&&◌, ◌||◌, List, [], ◌∷◌,
  arith, has, equal, test_sym, test_self, Distinct, length, inl, inr, Bool-cases,
}
use ids_bachelor_thesis.Text.{set_of, insert_text, sorted, text_ltb}
use ids_bachelor_thesis.Bypass.Rules.{Rule, needles_of, sni_needles}
use ids_bachelor_thesis.Bypass.Sync.{minus, both}

abbrev Text : Type 0
Text = List ℕ

has-set_of : (a : Text) (xs : List Text) → has a (set_of xs) ≡ has a xs
unfolding set_of
has-set_of a [] = refl
has-set_of a (x ∷ xs) = elim (Bool-cases (has x xs)) [
  | inl is_in ↦ elim (Bool-cases (x == a)) [
    | inl same ↦ ground (arith, has-set_of a xs, ap (λ k. has k xs) (equal x a same))
    | inr differs ↦ ground (arith, has-set_of a xs)
  ]
  | inr out ↦ ground (arith, has-set_of a xs)
]

set_of-Distinct : (xs : List Text) → Distinct (set_of xs)
unfolding set_of
set_of-Distinct [] = tt
set_of-Distinct (x ∷ xs) = ground (arith, has-set_of x xs, set_of-Distinct xs)

pub set_of-same : (xs : List Text) → Distinct xs → set_of xs ≡ xs
unfolding set_of
set_of-same [] d = refl
set_of-same (x ∷ xs) d = ground (arith, set_of-same xs)

has-insert_text : (a x : Text) (ys : List Text) → has a (insert_text x ys) ≡ (x == a || has a ys)
unfolding insert_text
has-insert_text a x [] = refl
has-insert_text a x (y ∷ ys) = ground (arith, has-insert_text a x ys)

insert_text-Distinct :
    (x : Text) (ys : List Text) → has x ys ≡ false → Distinct ys → Distinct (insert_text x ys)
unfolding insert_text
insert_text-Distinct x [] h d = (refl, tt)
insert_text-Distinct x (y ∷ ys) h d = elim (Bool-cases (text_ltb y x)) [
  | inl before ↦ ground (arith, has-insert_text y x ys, test_sym x y, insert_text-Distinct x ys)
  | inr behind ↦ ground arith
]

length-insert_text : (x : Text) (ys : List Text) → length (insert_text x ys) ≡ length (x ∷ ys)
unfolding insert_text
length-insert_text x [] = refl
length-insert_text x (y ∷ ys) = ground (arith, length-insert_text x ys)

pub has-sorted : (a : Text) (xs : List Text) → has a (sorted xs) ≡ has a xs
unfolding sorted
has-sorted a [] = refl
has-sorted a (x ∷ xs) = ground (arith, has-insert_text a x (sorted xs), has-sorted a xs)

pub sorted-Distinct : (xs : List Text) → Distinct xs → Distinct (sorted xs)
unfolding sorted
sorted-Distinct [] d = tt
sorted-Distinct (x ∷ xs) d =
    insert_text-Distinct x (sorted xs) (has-sorted x xs ∙ d.0) (sorted-Distinct xs d.1)

pub length-sorted : (xs : List Text) → length (sorted xs) ≡ length xs
unfolding sorted
length-sorted [] = refl
length-sorted (x ∷ xs) = ground (arith, length-insert_text x (sorted xs), length-sorted xs)

pub has-minus : (a : Text) (xs ys : List Text) → has a (minus xs ys) ≡ (has a xs && not (has a ys))
has-minus a [] ys = refl
has-minus a (x ∷ xs) ys = elim (Bool-cases (x == a)) [
  | inl same ↦ ground (arith, has-minus a xs ys, ap (λ k. has k ys) (equal x a same))
  | inr differs ↦ ground (arith, has-minus a xs ys)
]

-- The needles of the rules are a set without the empty text.
pub sni_needles-set :
    (rules : List Rule)
    → Distinct (sni_needles rules)
      × ((a : Text) → has a (sni_needles rules) ≡ has a (needles_of rules))
unfolding sni_needles
sni_needles-set rules = (
  sorted-Distinct (set_of (needles_of rules)) (set_of-Distinct (needles_of rules)),
  λ a. has-sorted a (set_of (needles_of rules)) ∙ has-set_of a (needles_of rules),
)

pub needles_of-not_empty : (rules : List Rule) → has [] (needles_of rules) ≡ false
unfolding needles_of
needles_of-not_empty [] = refl
needles_of-not_empty (rule ∷ rules) = ground (arith, needles_of-not_empty rules)

pub minus-none :
    (xs ys : List Text) → ((a : Text) → has a xs ≡ true → has a ys ≡ true) → minus xs ys ≡ []
minus-none [] ys h = refl
minus-none (x ∷ xs) ys h =
    let here = h x (ground (arith, test_self x)) in
    rw here (minus-none xs ys (λ a is. h a (ground arith)))

pub both-all :
    (xs ys : List Text) → ((a : Text) → has a xs ≡ true → has a ys ≡ true) → both xs ys ≡ xs
both-all [] ys h = refl
both-all (x ∷ xs) ys h =
    let here = h x (ground (arith, test_self x)) in
    rw here (ap (λ l. x ∷ l) (both-all xs ys (λ a is. h a (ground arith))))
