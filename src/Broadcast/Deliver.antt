-- ===== src/Broadcast/Deliver.antt =====
-- A broadcast against a description of it, listener by listener.
use ids_bachelor_thesis.Prelude.{
  ℕ, ◌≡◌, refl, number_test, ltb, leb, length, ◌&&◌, Bool, false, not, List, [], ◌∷◌, ◌++◌, arith,
  remove, has, has-keep, Distinct, keep, if◌then◌else◌, inl, inr, Bool-cases,
}
use ids_bachelor_thesis.BoundedQueue.{Queue, put_nowait}
use ids_bachelor_thesis.Broadcast.Defs.{Broadcaster, put_at, put_all, remove_all, broadcast}

remove_all-other :
    (dead rest : List ℕ) (q : ℕ)
    → has q dead ≡ false
    → remove_all dead (q ∷ rest) ≡ q ∷ remove_all dead rest
unfolding remove_all
remove_all-other [] rest q h = refl
remove_all-other (x ∷ dead) rest q h = ground (arith, remove_all-other dead (remove x rest) q)

remove_all-keep :
    (p : ℕ → Bool) (listeners : List ℕ)
    → Distinct listeners
    → remove_all (keep p listeners) listeners ≡ keep (λ r. not (p r)) listeners
unfolding remove_all
remove_all-keep p [] d = refl
remove_all-keep p (q ∷ rest) d = ground (
  arith,
  remove_all-keep p rest,
  remove_all-other (keep p rest) rest q,
  has-keep q p rest,
  number_test.test_iff q q,
)

abbrev pub is_full : {M : Type 0} → Queue M → Bool
is_full queue = ltb 0 queue.maxsize && leb queue.maxsize (length queue.items)

module _ {M : Type 0} (m : M) where
  abbrev pub delivered : Queue M → Queue M
  delivered queue = if is_full queue then queue else record queue { items = queue.items ++ m ∷ [] }

  keep_full-put_at :
      (q : ℕ) (queue : Queue M) (queues : ℕ → Queue M) (rest : List ℕ)
      → has q rest ≡ false
      → keep (λ r. is_full (put_at q queue queues r)) rest ≡ keep (λ r. is_full (queues r)) rest
  keep_full-put_at q queue queues [] h = refl
  keep_full-put_at q queue queues (r ∷ rest) h = ground (
    arith,
    number_test.test_iff r q,
    number_test.test_iff q r,
    keep_full-put_at q queue queues rest,
  )

  put_all-dead :
      (listeners : List ℕ) (queues : ℕ → Queue M)
      → Distinct listeners
      → (put_all m listeners queues).1 ≡ keep (λ r. is_full (queues r)) listeners
  unfolding put_all put_nowait
  put_all-dead [] queues d = refl
  put_all-dead (q ∷ rest) queues d = elim (Bool-cases (is_full (queues q))) [
    | inl full ↦ ground (arith, put_all-dead rest queues)
    | inr room ↦ ground (
      arith,
      put_all-dead rest (put_at q (delivered (queues q)) queues),
      keep_full-put_at q (delivered (queues q)) queues rest,
    )
  ]

  put_all-queues :
      (listeners : List ℕ) (queues : ℕ → Queue M) (r : ℕ)
      → Distinct listeners
      → (put_all m listeners queues).0 r
        ≡ (if has r listeners then delivered (queues r) else queues r)
  unfolding put_all put_nowait
  put_all-queues [] queues r d = refl
  put_all-queues (q ∷ rest) queues r d = elim (Bool-cases (is_full (queues q))) [
    | inl full ↦ ground (arith, put_all-queues rest queues r, number_test.test_iff q r)
    | inr room ↦ ground (
      arith,
      put_all-queues rest (put_at q (delivered (queues q)) queues) r,
      number_test.test_iff q r,
    )
  ]

  remove_all-listeners :
      (b : Broadcaster M)
      → Distinct b.listeners
      → remove_all (put_all m b.listeners b.queues).1 b.listeners
        ≡ keep (λ r. not (is_full (b.queues r))) b.listeners
  remove_all-listeners b d =
      rw (put_all-dead b.listeners b.queues d)
        (remove_all-keep (λ r. is_full (b.queues r)) b.listeners d)

  -- The broadcast of a message comes to what happens at each listener on its own, where nothing is
  -- a listener twice: a queue with room gets the message at its end, a full one is left as it is,
  -- and the listeners are those with room, in their order. The queues that are no listeners do not
  -- change.
  pub broadcast-reference :
      (b : Broadcaster M)
      → Distinct b.listeners
      → ((broadcast m b).listeners ≡ keep (λ r. not (is_full (b.queues r))) b.listeners)
        × ((r : ℕ)
            → (broadcast m b).queues r
              ≡ (if has r b.listeners then delivered (b.queues r) else b.queues r))
  unfolding broadcast
  broadcast-reference b d = (remove_all-listeners b d, λ r. put_all-queues b.listeners b.queues r d)
