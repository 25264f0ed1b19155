-- ===== src/Enrichment/Tests.antt =====
-- Services whose lookups always answer, or always raise; the state counts the lookups.
use ids_bachelor_thesis.Prelude.{
  ℕ, ◌+◌, ◌≡◌, refl, inl, inr, text_test, true, false, none, some, [], ◌∷◌, ◌==◌, arith,
}
use ids_bachelor_thesis.Dict.{is_some}
use ids_bachelor_thesis.Analysis.Signals.{is_behavior, percent}
use ids_bachelor_thesis.Analysis.Risk
use ids_bachelor_thesis.Analysis.Risk.{Enrichment, missing}
use ids_bachelor_thesis.Analysis.Classify.{dangerous}
use ids_bachelor_thesis.Analysis.Packet.{Packet, Intel, analyze_packet}
use ids_bachelor_thesis.Enrichment.Defs.{
  Services, Config, Request, Lookup, answer, failed, listed, only, enrich, blocked, check_blocklist,
}
use ids_bachelor_thesis.Enrichment.Blocklist.{Starts, nothing_given, listed_address_is_dangerous}
use ids_bachelor_thesis.Enrichment.Pressure.{Answers, services_left_alone, failed_url_raises}

abbrev services : Lookup → Services ℕ
services found = record {
  is_private_ip = λ ip. ip == "10.0.0.1";
  is_listed = λ ip. ip == "203.0.113.9";
  get_ti_cache = λ w k kind. none;
  set_ti_cache = λ w k kind e. w;
  lookup = λ w k kind. (w + 1, found);
  zeek_available = false;
  zeek_lookup = λ w ip. (w, none);
}

abbrev clean : Enrichment
clean = record { score = missing; verdict = "safe" }

abbrev config : Config
config = record { min_score = percent 25; full_enrich = percent 45 }

abbrev request : Request
request = record {
  src_ip = some "203.0.113.9";
  url = some "http://[";
  ai_score = 0;
  behavior = none;
  queue_pressure = percent 10;
  skip_heavy = false;
  model_trusted = true;
}

abbrev pressed : Request
pressed = record request { queue_pressure = percent 90 }

abbrev risks : Risk.Config
risks = record {
  suspicious_threshold = percent 52;
  dangerous_threshold = percent 78;
  max_score_boost = percent 18;
  max_attack_boost = percent 35;
}

abbrev packet : Packet
packet = record {
  prediction = none;
  meta = record {
    payload_entropy = 0;
    is_tls = false;
    is_https = false;
    unusual_port = none;
    flow_packets_per_s = 0;
    dst_port = some 80;
  };
  behavior = none;
  content_reasons = [];
  dns_reasons = [];
}

abbrev entry : Intel
entry = only (some listed) ("reputation_ip_malicious" ∷ [])

listed_address_is_dangerous_example :
    (entry.ti_ip ≡ some listed)
    × Starts entry.ti_reasons
    × ((analyze_packet risks true packet nothing_given (λ _. entry)).classification ≡ dangerous)
unfolding enrich blocked check_blocklist
listed_address_is_dangerous_example =
    listed_address_is_dangerous (services failed) config "203.0.113.9" pressed refl refl refl 0
      entry refl risks true packet (omega arith)

services_left_alone_example : Answers (services failed) config 5 pressed
services_left_alone_example =
    services_left_alone (services failed) config 5 pressed (inr (inl (omega arith)))

pressed_lem : (enrich (services failed) config 5 pressed).1 ≡ some entry
unfolding enrich blocked check_blocklist
pressed_lem = refl

answered_lem : is_some (enrich (services (answer clean)) config 5 request).1 ≡ true
unfolding enrich blocked check_blocklist is_behavior
answered_lem = refl

failed_url_raises_example : (enrich (services failed) config 5 request).1 ≡ none
unfolding blocked check_blocklist
failed_url_raises_example =
    failed_url_raises (services failed) config "http://[" (λ w. refl) (λ w. refl) 5 request
      "203.0.113.9" refl refl refl refl
