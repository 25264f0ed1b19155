-- ===== src/Broadcast/Tests.antt =====
-- The theorems on live updates at two listeners.
use ids_bachelor_thesis.Prelude.{
  ℕ, ◌≡◌, refl, true, not, List, [], ◌∷◌, ◌++◌, arith, has, keep, if◌then◌else◌, number_test, ◌==◌,
}
use ids_bachelor_thesis.BoundedQueue
use ids_bachelor_thesis.BoundedQueue.{Queue, put_nowait}
use ids_bachelor_thesis.Broadcast.Defs.{
  Broadcaster, Call, subscribe, broadcast, next_chunk, step, run,
}
use ids_bachelor_thesis.Broadcast.Deliver.{is_full, delivered, broadcast-reference}
use ids_bachelor_thesis.Broadcast.Run.{IsBroadcaster, sent, read, run-delivers}

-- The second listener has a queue for one message, which is full.
abbrev two : Broadcaster ℕ
two = record {
  listeners = 0 ∷ 1 ∷ [];
  queues = λ q. if q == 0 then BoundedQueue.empty 100 else record { items = 7 ∷ []; maxsize = 1 };
  created = 2;
}

two-IsBroadcaster : IsBroadcaster two
two-IsBroadcaster = record { distinct = (refl, (refl, tt)); made = λ q h. ground arith }

broadcast-reference_example :
    ((broadcast 5 two).listeners ≡ keep (λ r. not (is_full (two.queues r))) (0 ∷ 1 ∷ []))
    × ((r : ℕ)
        → (broadcast 5 two).queues r
          ≡ (if has r two.listeners then delivered 5 (two.queues r) else two.queues r))
broadcast-reference_example = broadcast-reference 5 two (refl, (refl, tt))

abbrev calls : List (Call ℕ)
calls = Call.send 5 ∷ Call.start ∷ Call.next 0 ∷ Call.send 6 ∷ Call.stop 2 ∷ []

calls_keep : has 0 (run calls two).listeners ≡ true
unfolding run step broadcast next_chunk subscribe put_nowait BoundedQueue.get
calls_keep = refl

run-delivers_example :
    (has 0 two.listeners ≡ true)
    × (read 0 calls two ++ ((run calls two).queues 0).items ≡ (two.queues 0).items ++ sent calls)
run-delivers_example = run-delivers calls two 0 two-IsBroadcaster (omega arith) calls_keep

read_lem : read 0 calls two ≡ 5 ∷ []
unfolding run step broadcast next_chunk subscribe put_nowait read BoundedQueue.get
read_lem = refl
