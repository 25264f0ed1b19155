-- ===== src/Deque.antt =====
-- `collections.deque(maxlen=n)` as engine/behavior.py and engine/dns_behavior.py use it, the oldest
-- item first.
use ids_bachelor_thesis.Prelude.{
  ℕ, ◌≤◌, ◌<◌, Bool, Option, none, some, List, [], ◌∷◌, ◌++◌, arith, length, length-append, ltb,
  if◌then◌else◌,
}

module _ {ℓ} {A : Type ℓ} where
  abbrev pop_left : List A → List A
  pop_left [] = []
  pop_left (x ∷ xs) = xs

  -- A full deque drops its first item.
  unfoldable pub append : ℕ → A → List A → List A
  append maxlen a xs = if ltb (length xs) maxlen then xs ++ a ∷ [] else pop_left xs ++ a ∷ []

  -- `while xs and old(xs[0]): xs.popleft()`
  unfoldable pub trim : (A → Bool) → List A → List A
  trim old [] = []
  trim old (x ∷ xs) = if old x then trim old xs else x ∷ xs

  -- `xs[-1]`
  unfoldable pub newest : List A → Option A
  newest [] = none
  newest (x ∷ []) = some x
  newest (x ∷ y ∷ xs) = newest (y ∷ xs)

  pub length-append_bound :
      (maxlen : ℕ) (a : A) (xs : List A)
      → 0 < maxlen
      → length xs ≤ maxlen
      → length (append maxlen a xs) ≤ maxlen
  unfolding append
  length-append_bound maxlen a [] pos h = ground arith
  length-append_bound maxlen a (x ∷ xs) pos h =
      ground (arith, length-append (x ∷ xs) (a ∷ []), length-append xs (a ∷ []))

  pub length-trim : (old : A → Bool) (xs : List A) → length (trim old xs) ≤ length xs
  unfolding trim
  length-trim old [] = omega arith
  length-trim old (x ∷ xs) = ground (arith, length-trim old xs)
