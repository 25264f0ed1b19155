-- ===== src/Statistics/Update.antt =====
-- `ids_sensor_update` of uni-srver.py: a signed request, the counters, and the broadcast to the
-- dashboards.
use ids_bachelor_thesis.Prelude.{
  ℕ, ◌==◌, text_test, Bool, true, false, ◌&&◌, ◌||◌, String, none, Option, some, List, [], ◌∷◌,
  if◌then◌else◌,
}
use ids_bachelor_thesis.Dict.{Dict}
use ids_bachelor_thesis.Auth.Nonces.{NonceTracker}
use ids_bachelor_thesis.Auth.Verify.{
  Primitives, Request, Reason, Outcome, missing_signing_headers, invalid_timestamp,
  timestamp_out_of_window, bad_signature, replayed_nonce, accepted, rejected, raised,
  verify_request,
}
use ids_bachelor_thesis.Broadcast.Defs.{Broadcaster, broadcast}
use ids_bachelor_thesis.Statistics.Defs.{
  Store, Incoming, Payload, apply_telemetry_stats, sync_stats_from_persistence,
  load_statistics_for_api,
}

pub record Server : Type 0 where
  pub tracker : NonceTracker
  -- `_SENSOR_AUTH_AUDITED`
  pub audited : List (String × String)
  pub store : Store
  pub dashboards : Broadcaster Payload

pub data Answer : Type 0 where
  received : Answer
  refused : (status : ℕ) → (code : String) → Answer
  failed : Answer

abbrev pub code_of : Reason → String
code_of missing_signing_headers = "missing_signing_headers"
code_of invalid_timestamp = "invalid_timestamp"
code_of timestamp_out_of_window = "timestamp_out_of_window"
code_of bad_signature = "bad_signature"
code_of replayed_nonce = "replayed_nonce"

abbrev pub is_audited : String → String → List (String × String) → Bool
is_audited ip code [] = false
is_audited ip code ((i, c) ∷ keys) = (i == ip && c == code) || is_audited ip code keys

-- The second part says if a row of the audit log is written.
unfoldable pub audit_once : String → String → List (String × String) → List (String × String) × Bool
audit_once ip code keys =
    if is_audited ip code keys then (keys, false) else ((ip, code) ∷ keys, true)

unfoldable pub deny : String → ℕ → String → Server → Server × Answer
unfolding audit_once
deny ip status code s =
    (record s { audited = (audit_once ip code s.audited).0 }, Answer.refused status code)

abbrev pub show : Store → Server → Option Payload → Server × Answer
show store s none = (record s { store = store }, Answer.failed)
show store s (some payload) =
    (record s { store = store; dashboards = broadcast payload s.dashboards }, Answer.received)

-- A write that fails is caught; a read that fails leaves the route, with the counters changed.
unfoldable pub take_in : (ok readable : Bool) → Incoming → Server → Server × Answer
unfolding apply_telemetry_stats sync_stats_from_persistence load_statistics_for_api broadcast
take_in ok readable incoming s =
    let (store, payload) =
      load_statistics_for_api readable
        (sync_stats_from_persistence (apply_telemetry_stats ok incoming s.store)) in
    show store s payload

abbrev pub after_verify :
    String → (ok readable : Bool) → Incoming → Server → NonceTracker × Outcome → Server × Answer
after_verify ip ok readable incoming s (t, accepted) =
    take_in ok readable incoming (record s { tracker = t })
after_verify ip ok readable incoming s (t, rejected reason) =
    deny ip 401 (code_of reason) (record s { tracker = t })
after_verify ip ok readable incoming s (t, raised) = (record s { tracker = t }, Answer.failed)

-- `stats_of` is the member "stats" of the JSON body; `ok` says if the write to the database works,
-- and `readable` if the read after it does.
unfoldable pub ids_sensor_update :
    (p : Primitives) (stats_of : List ℕ → Incoming) (max_skew : ℕ) (secret ip : String)
    (r : Request) (headers : Dict String String) (clock later : ℕ) (ok readable : Bool)
    → Server
    → Server × Answer
unfolding deny take_in verify_request
ids_sensor_update p stats_of max_skew secret ip r headers clock later ok readable s =
    if secret == ""
    then deny ip 503 "token_not_configured" s
    else after_verify ip ok readable (stats_of r.body) s
        (verify_request p max_skew secret r headers none clock later s.tracker)
