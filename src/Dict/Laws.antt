-- ===== src/Dict/Laws.antt =====
-- What `get` and the size become under each update of a dict.
use ids_bachelor_thesis.Prelude.{
  suc, ◌≤◌, ◌≡◌, refl, Bool, ◌&&◌, none, some, List, [], ◌∷◌, map, arith, HasEq, ◌==◌, length, keep,
  if◌then◌else◌,
}
use ids_bachelor_thesis.Dict.{
  Dict, contains, get, insert, pop, pop_all, keys_where, evict, holds, unless, is_some,
}

module _ {ℓ} {K : Type ℓ} ⦃e : HasEq K⦄ where
  contains-keep :
      (q : K → Bool) (ks : List K) (j : K) → contains (keep q ks) j ≡ (q j && contains ks j)
  unfolding contains
  contains-keep q [] j = ground arith
  contains-keep q (k ∷ ks) j = ground (arith, contains-keep q ks j, e.test_iff k j)

module _ {ℓ κ} {K : Type ℓ} {V : Type κ} ⦃e : HasEq K⦄ where
  pub get-insert :
      (d : Dict K V) (k : K) (v : V) (j : K)
      → get (insert d k v) j ≡ (if k == j then some v else get d j)
  unfolding get insert
  get-insert [] k v j = refl
  get-insert ((i, w) ∷ d) k v j =
      ground (arith, e.test_iff k j, e.test_iff i k, e.test_iff i j, get-insert d k v j)

  pub get-pop : (d : Dict K V) (k j : K) → get (pop d k) j ≡ (if k == j then none else get d j)
  unfolding get pop
  get-pop [] k j = ground arith
  get-pop ((i, w) ∷ d) k j =
      ground (arith, e.test_iff k j, e.test_iff i k, e.test_iff i j, get-pop d k j)

  pub get-pop_all :
      (d : Dict K V) (ks : List K) (j : K)
      → get (pop_all d ks) j ≡ (if contains ks j then none else get d j)
  unfolding pop_all contains
  get-pop_all d [] j = refl
  get-pop_all d (k ∷ ks) j = ground (arith, get-pop_all (pop d k) ks j, get-pop d k j)

  pub contains-keys : (d : Dict K V) (j : K) → contains (map (λ x. x.0) d) j ≡ is_some (get d j)
  unfolding contains get
  contains-keys [] j = refl
  contains-keys ((i, w) ∷ d) j = ground (arith, contains-keys d j)

  pub contains-keys_where :
      (p : V → Bool) (d : Dict K V) (j : K) → contains (keys_where p d) j ≡ holds p (get d j)
  unfolding keys_where
  contains-keys_where p d j =
      ground (arith, contains-keep (λ k. holds p (get d k)) (map (λ x. x.0) d) j, contains-keys d j)

  -- Dropping the entries that pass a test leaves what does not pass it.
  pub get-evict : (p : V → Bool) (d : Dict K V) (j : K) → get (evict p d) j ≡ unless p (get d j)
  unfolding evict keys_where
  get-evict p d j = ground (
    arith,
    get-pop_all d (keys_where p d) j,
    contains-keep (λ k. holds p (get d k)) (map (λ x. x.0) d) j,
    contains-keys d j,
  )

  pub length-insert :
      (d : Dict K V) (k : K) (v : V)
      → length (insert d k v) ≡ (if is_some (get d k) then length d else suc (length d))
  unfolding get insert
  length-insert [] k v = refl
  length-insert ((i, w) ∷ d) k v = ground (arith, length-insert d k v)

  pub length-pop : (d : Dict K V) (k : K) → length (pop d k) ≤ length d
  unfolding pop
  length-pop [] k = omega arith
  length-pop ((i, w) ∷ d) k = ground (arith, length-pop d k)

pub ruleset dict_laws = (get-insert, get-pop, get-evict)
