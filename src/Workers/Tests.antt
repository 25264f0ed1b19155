-- ===== src/Workers/Tests.antt =====
-- One worker that stalls and is replaced.
use ids_bachelor_thesis.Prelude.{
  ◌≡◌, refl, arith, inr, false, text_test, number_test, some, List, [], ◌∷◌,
}
use ids_bachelor_thesis.Dict.{get, insert}
use ids_bachelor_thesis.Workers.Defs.{Workers, Event, run, step, restart_worker, watch}
use ids_bachelor_thesis.Workers.Single.{IsSingle, run-IsSingle}

abbrev one_worker : Workers
one_worker = record {
  heartbeats = ("worker-0", 0) ∷ [];
  restart_counts = [];
  worker_threads = ("worker-0", 0) ∷ [];
  worker_cancels = ("worker-0", 0) ∷ [];
  started = (0, "worker-0") ∷ [];
  is_over = λ t. false;
  is_set = λ c. false;
  made = 1;
}

one_worker-IsSingle : IsSingle one_worker
unfolding get
one_worker-IsSingle t id h = (
  ground arith,
  inr (
    ground (arith, text_test.test_iff "worker-0" id),
    ground (arith, text_test.test_iff "worker-0" id),
  ),
)

abbrev events : List Event
events =
    Event.watches 200_000_000 ("worker-0" ∷ [])
    ∷ Event.beats 200_000_001 "worker-0"
    ∷ Event.ends 0
    ∷ []

run-IsSingle_example : IsSingle (run events one_worker)
run-IsSingle_example = run-IsSingle events one_worker one_worker-IsSingle

replaced_lem : get (run events one_worker).worker_threads "worker-0" ≡ some 1
unfolding run step get insert restart_worker watch
replaced_lem = refl
