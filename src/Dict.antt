-- ===== src/Dict.antt =====
-- A Python dict, as the association list of its items in insertion order.
pub mod Laws
use ids_bachelor_thesis.Prelude.{
  ℕ, Bool, true, false, not, Option, none, some, List, [], ◌∷◌, map, HasEq, ◌==◌, length, keep,
  if◌then◌else◌,
}

abbrev pub Dict {ℓ κ} : Type ℓ → Type κ → Type (ℓ ⊔ κ)
Dict K V = List (K × V)

module _ {κ} {V : Type κ} where
  abbrev pub holds : (V → Bool) → Option V → Bool
  holds p none = false
  holds p (some v) = p v

  -- what is left of an entry once those that pass the test are dropped
  abbrev pub unless : (V → Bool) → Option V → Option V
  unless p none = none
  unless p (some v) = if p v then none else some v

  abbrev pub is_some : Option V → Bool
  is_some none = false
  is_some (some v) = true

-- Membership in a list of keys, `k in ks`.
module _ {ℓ} {K : Type ℓ} ⦃e : HasEq K⦄ where
  unfoldable pub contains : List K → K → Bool
  contains [] k = false
  contains (j ∷ ks) k = if j == k then true else contains ks k

module _ {ℓ κ} {K : Type ℓ} {V : Type κ} ⦃e : HasEq K⦄ where
  -- `d.get(k)`
  unfoldable pub get : Dict K V → K → Option V
  get [] k = none
  get ((j, v) ∷ d) k = if j == k then some v else get d k

  -- `d[k] = v`: the place of an old key is kept, a new one comes last
  unfoldable pub insert : Dict K V → K → V → Dict K V
  insert [] k v = (k, v) ∷ []
  insert ((j, w) ∷ d) k v = if j == k then (j, v) ∷ d else (j, w) ∷ insert d k v

  -- `d.pop(k, None)`
  unfoldable pub pop : Dict K V → K → Dict K V
  pop [] k = []
  pop ((j, w) ∷ d) k = let rest = pop d k in if j == k then rest else (j, w) ∷ rest

  -- `for k in ks: d.pop(k, None)`
  unfoldable pub pop_all : Dict K V → List K → Dict K V
  pop_all d [] = d
  pop_all d (k ∷ ks) = pop_all (pop d k) ks

  -- `[k for k, v in d.items() if p(v)]`
  unfoldable pub keys_where : (V → Bool) → Dict K V → List K
  keys_where p d = keep (λ k. holds p (get d k)) (map (λ x. x.0) d)

  -- The keys whose value passes the test are collected first and dropped then.
  unfoldable pub evict : (V → Bool) → Dict K V → Dict K V
  evict p d = pop_all d (keys_where p d)
