-- ===== src/Statistics/Tests.antt =====
-- The route of a sensor at a small instance: one digest, one signature.
use ids_bachelor_thesis.Prelude.{
  pos, ◌≡◌, ◌≢◌, ◌⊎◌, refl, true, false, String, none, some, List, [], ◌∷◌, text_test,
}
use ids_bachelor_thesis.Dict.{Dict, get, evict, pop_all, keys_where}
use ids_bachelor_thesis.Text.{codes, to_lower, is_ascii}
use ids_bachelor_thesis.Auth.Nonces.{new_tracker, check_and_record}
use ids_bachelor_thesis.Auth.Verify.{
  Primitives, Request, timestamp_header, nonce_header, signature_header, verify_request, distance,
}
use ids_bachelor_thesis.BoundedQueue
use ids_bachelor_thesis.Statistics.Defs.{Store, Count, Incoming, no_stats, label_of, dangerous}
use ids_bachelor_thesis.Statistics.Counters.{Event, run, IsCounted, run-IsCounted}
use ids_bachelor_thesis.Statistics.Update.{Server, Answer, ids_sensor_update}
use ids_bachelor_thesis.Statistics.Accepted.{IsSigned, IsLetIn, ids_sensor_update-gate}

abbrev toy : Primitives
toy = record {
  sha256_hex = λ body. "digest";
  hmac_hex = λ secret message. "signature";
  int_of = λ s. some (pos 5);
  str_of = λ n. "5";
}

abbrev toy_secret : String
toy_secret = "secret"

abbrev update : Request
update = record { method = "POST"; path = "/ids/update"; body = codes "{}" }

abbrev headers : Dict String String
headers = (timestamp_header, "5") ∷ (nonce_header, "abc") ∷ (signature_header, "signature") ∷ []

abbrev sent : Incoming
sent = record {
  total = Count.number 7;
  safe = Count.number 6;
  suspicious = Count.absent;
  dangerous = Count.number 1;
  unique_attackers = some (codes "10.0.0.9" ∷ codes "10.0.0.9" ∷ []);
  dangerous_ips = none;
  dangerous_urls = none;
}

abbrev store : Store
store = record { live = no_stats; mirror = no_stats; last_persist = 0; row = none }

abbrev server : Server
server = record {
  tracker = new_tracker 120;
  audited = [];
  store = store;
  dashboards = record { listeners = 0 ∷ []; queues = λ q. BoundedQueue.empty 100; created = 1 };
}

received_lem :
    (ids_sensor_update toy
      (λ body. sent)
      60
      toy_secret
      "127.0.0.1"
      update
      headers
      5_000_000
      5_000_001
      true
      true
      server).1
    ≡ Answer.received
unfolding ids_sensor_update verify_request get distance is_ascii check_and_record evict pop_all
    keys_where
received_lem = refl

-- The row cannot be read after the counters have changed.
unshown_lem :
    (ids_sensor_update toy
      (λ body. sent)
      60
      toy_secret
      "127.0.0.1"
      update
      headers
      5_000_000
      5_000_001
      true
      false
      server).1
    ≡ Answer.failed
unfolding ids_sensor_update verify_request get distance is_ascii check_and_record evict pop_all
    keys_where
unshown_lem = refl

ids_sensor_update-gate_example :
    let after =
      ids_sensor_update toy
        (λ body. sent)
        60
        toy_secret
        "127.0.0.1"
        update
        headers
        5_000_000
        5_000_001
        true
        false
        server in
    ((after.1 ≢ Answer.received)
      × (after.0.store ≡ store)
      × (after.0.dashboards ≡ server.dashboards))
    ⊎ ((toy_secret ≢ "")
        × IsSigned toy 60 toy_secret update headers
        × IsLetIn true false sent server after)
ids_sensor_update-gate_example =
    ids_sensor_update-gate toy 60 toy_secret update headers (λ body. sent) "127.0.0.1" 5_000_000
      5_000_001 true false server

label_lem : label_of (codes "Dangerous") ≡ dangerous
unfolding to_lower
label_lem = refl

abbrev events : List Event
events = Event.captured 1 true ∷ Event.analysed 2 true dangerous (some (codes "10.0.0.9")) none ∷ []

run_lem : IsCounted 2_000_000 events store (run 2_000_000 events store)
run_lem = run-IsCounted 2_000_000 events store refl
