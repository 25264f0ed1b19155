-- ===== src/BoundedQueue.antt =====
-- `queue.Queue(maxsize)` of Python's standard library, as ids/packet_queue.py and
-- ids/websocket_updates.py use it: `put_nowait`, `get` and `qsize`.
use ids_bachelor_thesis.Prelude.{
  ℕ, ◌≤◌, ◌<◌, ◌≡◌, ◌&&◌, Option, none, some, List, [], ◌∷◌, ◌++◌, arith, length, length-append,
  leb, ltb, if◌then◌else◌,
}

pub record Queue {ℓ} (A : Type ℓ) : Type ℓ where
  pub items : List A
  pub maxsize : ℕ

module _ {ℓ} {A : Type ℓ} where
  abbrev pub qsize : Queue A → ℕ
  qsize q = length q.items

  abbrev pub empty : ℕ → Queue A
  empty n = record { items = []; maxsize = n }

  -- `none` is the exception `Full`; a queue with no bound has `maxsize` 0.
  unfoldable pub put_nowait : A → Queue A → Option (Queue A)
  put_nowait a q =
      if ltb 0 q.maxsize && leb q.maxsize (qsize q)
      then none
      else some (record q { items = q.items ++ a ∷ [] })

  abbrev take_first : List A → ℕ → Option (A × Queue A)
  take_first [] n = none
  take_first (a ∷ rest) n = some (a, record { items = rest; maxsize = n })

  -- `none` is the exception `Empty`, after the timeout
  unfoldable pub get : Queue A → Option (A × Queue A)
  get q = take_first q.items q.maxsize

  -- The bound holds of every queue that has one.
  abbrev pub IsBounded : Queue A → Type 0
  IsBounded q = 0 < q.maxsize → qsize q ≤ q.maxsize

  pub put_nowait-IsBounded :
      (a : A) (q q' : Queue A) → IsBounded q → put_nowait a q ≡ some q' → IsBounded q'
  unfolding put_nowait
  put_nowait-IsBounded a q q' h e pos = ground (arith, h, length-append q.items (a ∷ []))

  -- A put that succeeds adds at the end, and keeps the bound.
  pub put_nowait-items :
      (a : A) (q q' : Queue A)
      → put_nowait a q ≡ some q'
      → (q'.items ≡ q.items ++ a ∷ []) × (q'.maxsize ≡ q.maxsize)
  unfolding put_nowait
  put_nowait-items a q q' e = ground arith

  -- A get that succeeds takes the first item.
  pub get-items :
      (q q' : Queue A) (a : A)
      → get q ≡ some (a, q')
      → (q.items ≡ a ∷ q'.items) × (q'.maxsize ≡ q.maxsize)
  unfolding get
  get-items q q' a e = ground arith
