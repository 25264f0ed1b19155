-- ===== src/Analysis/Classify.antt =====
-- `_classify_from_risk`: safe, suspicious or dangerous.
use ids_bachelor_thesis.Prelude.{ℕ, ◌*◌, Bool, ◌&&◌, String, List, text_test, leb, if◌then◌else◌}
use ids_bachelor_thesis.Dict.{contains}
use ids_bachelor_thesis.Analysis.Signals.{Behavior, any, has_prefix, is_behavior}
use ids_bachelor_thesis.Analysis.Risk.{Config, scale, risk_percent}

pub data Classification : Type 0 where
  safe suspicious dangerous : Classification

unfoldable pub dangerous_from : ℕ → ℕ → Classification
dangerous_from limit fused_risk =
    if leb (risk_percent limit) fused_risk then dangerous else suspicious

unfoldable pub has_reason : String → List String → Bool
unfolding has_prefix
has_reason prefix = any (has_prefix prefix)

-- what is left: other signs of an attack, and the label of the model
unfoldable pub by_label : ℕ → Classification → Bool → Classification
by_label fused_risk ml_label attack_signals =
    if attack_signals && leb (risk_percent 50) fused_risk then suspicious else elim ml_label [
      | dangerous ↦ if leb (risk_percent 55) fused_risk then dangerous else safe
      | suspicious ↦ if leb (risk_percent 42) fused_risk then suspicious else safe
      | safe ↦ safe
    ]

-- the floors of obvious attacks
unfoldable pub by_heuristics :
    ℕ → Classification → List String → Behavior → Bool → Bool → Classification
unfolding dangerous_from has_reason
by_heuristics fused_risk ml_label reasons behavior rf_attack attack_signals =
    if is_behavior behavior "flood"
    then dangerous_from 55 fused_risk
    else if is_behavior behavior "port_scan"
    then dangerous_from 65 fused_risk
    else if rf_attack && leb (risk_percent 48) fused_risk
    then dangerous_from 62 fused_risk
    else if contains reasons "ml_attack" && leb (risk_percent 45) fused_risk
    then dangerous_from 60 fused_risk
    else if attack_signals && has_reason "http_" reasons
    then dangerous_from 58 fused_risk
    else by_label fused_risk ml_label attack_signals

-- below both thresholds: the floors of threat intelligence come first
unfoldable pub classify_below :
    ℕ → Classification → List String → Behavior → Bool → Bool → Classification
unfolding dangerous_from has_reason by_heuristics
classify_below fused_risk ml_label reasons behavior rf_attack attack_signals =
    if has_reason "reputation_ip_malicious" reasons
    then dangerous_from 72 fused_risk
    else if has_reason "reputation_url_malicious" reasons
    then dangerous_from 70 fused_risk
    else if has_reason "reputation_ip_suspicious" reasons
    then suspicious
    else by_heuristics fused_risk ml_label reasons behavior rf_attack attack_signals

unfoldable pub classify_from_risk :
    Config → ℕ → Classification → List String → Behavior → Bool → Bool → Classification
unfolding classify_below
classify_from_risk c fused_risk ml_label reasons behavior rf_attack attack_signals =
    if leb (scale * c.dangerous_threshold) fused_risk
    then dangerous
    else if leb (scale * c.suspicious_threshold) fused_risk
    then suspicious
    else classify_below fused_risk ml_label reasons behavior rf_attack attack_signals
