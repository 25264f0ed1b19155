-- ===== src/Analysis/Tests.antt =====
-- A packet of an address on a blocklist, at the default thresholds.
use ids_bachelor_thesis.Prelude.{
  ℕ, ◌+◌, ◌*◌, ◌≤◌, ◌≡◌, ◌≢◌, refl, inl, inr, text_test, number_test, true, false, none, some, [],
  ◌∷◌, arith,
}
use ids_bachelor_thesis.Dict.{contains}
use ids_bachelor_thesis.Text.{is_lower_of, starts_with}
use ids_bachelor_thesis.Analysis.Signals.{
  Meta, min, one, any, percent, heuristic_signals, is_attack_reason,
}
use ids_bachelor_thesis.Analysis.Risk.{
  Config, Enrichment, missing, at, capped_adjusted_score, scale, cap_of, risk_one, risk_percent,
}
use ids_bachelor_thesis.Analysis.Classify.{safe, suspicious, dangerous, classify_from_risk}
use ids_bachelor_thesis.Analysis.Packet.{Packet, Intel, ml_of, analyze_packet, conclude}
use ids_bachelor_thesis.Analysis.RiskBounds.{capped_adjusted_score-bounds}
use ids_bachelor_thesis.Analysis.Verdicts.{
  IsSound, analyze_packet-IsSound, malicious_is_dangerous, suspicious_is_not_safe,
}
use ids_bachelor_thesis.Analysis.Severity.{severity, classify_from_risk_mono}

abbrev config : Config
config = record {
  suspicious_threshold = percent 52;
  dangerous_threshold = percent 78;
  max_score_boost = percent 18;
  max_attack_boost = percent 35;
}

abbrev meta : Meta
meta = record {
  payload_entropy = 3_000_000;
  is_tls = false;
  is_https = false;
  unusual_port = some "4444";
  flow_packets_per_s = 20_000_000;
  dst_port = some 4444;
}

abbrev packet : Packet
packet = record {
  prediction = some (record {
    rf_attack = false;
    iso_anomaly = false;
    ml_score = 120_000;
    ml_label = safe;
    ai_reasons = [];
    anomaly_strength = 50_000;
  });
  meta = meta;
  behavior = none;
  content_reasons = [];
  dns_reasons = [];
}

abbrev listed : Enrichment
listed = record { score = missing; verdict = "Malicious" }

abbrev doubtful : Enrichment
doubtful = record { score = at (percent 60); verdict = "" }

abbrev nothing : Intel
nothing = record { ti_ip = none; ti_url = none; zeek = none; ti_reasons = [] }

abbrev listed_answer : ℕ → Intel
listed_answer _ = record nothing {
  ti_ip = some listed;
  ti_reasons = "reputation_ip_malicious" ∷ [];
}

abbrev doubtful_given : Intel
doubtful_given = record nothing { ti_url = some doubtful }

quiet_port : heuristic_signals meta ≡ (percent 6, "unusual_port_4444" ∷ [])
unfolding heuristic_signals
quiet_port = refl

http_reason : is_attack_reason "HTTP_sqli" ≡ true
unfolding is_attack_reason contains any starts_with
http_reason = refl

analyze_packet-IsSound_example :
    IsSound config (ml_of true packet) (analyze_packet config true packet nothing listed_answer)
analyze_packet-IsSound_example = analyze_packet-IsSound config true packet nothing listed_answer

malicious_is_dangerous_example :
    (analyze_packet config true packet nothing listed_answer).classification ≡ dangerous
unfolding analyze_packet conclude is_lower_of
malicious_is_dangerous_example =
    malicious_is_dangerous config true packet nothing listed_answer listed (inl refl) (inl refl)
      (omega arith)

suspicious_is_not_safe_example :
    (analyze_packet config true packet doubtful_given listed_answer).classification ≢ safe
unfolding analyze_packet conclude
suspicious_is_not_safe_example =
    suspicious_is_not_safe config true packet doubtful_given listed_answer doubtful (inr refl)
      (inr (omega arith)) (omega arith)

classify_from_risk_mono_example :
    severity (classify_from_risk config (risk_percent 43) suspicious [] none false false)
    ≤ severity (classify_from_risk config (risk_percent 80) suspicious [] none false false)
classify_from_risk_mono_example =
    classify_from_risk_mono config suspicious [] none false false (risk_percent 43)
      (risk_percent 80) (omega arith) (omega arith)

capped_adjusted_score-bounds_example :
    let ml = min one (percent 70) in
    let adjusted = capped_adjusted_score config (percent 70) (some "flood") [] (percent 6) true in
    (scale * ml ≤ adjusted) × (adjusted ≤ risk_one) × (adjusted ≤ scale * (ml + cap_of config true))
capped_adjusted_score-bounds_example =
    capped_adjusted_score-bounds config (percent 70) (some "flood") [] (percent 6) true
