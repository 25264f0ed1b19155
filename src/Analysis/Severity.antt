-- ===== src/Analysis/Severity.antt =====
-- How the classification depends on the risk.
use ids_bachelor_thesis.Prelude.{
  ℕ, ◌*◌, ◌≤◌, ◌<◌, ◌≡◌, ◌≢◌, Bool, List, String, arith, leb, if◌then◌else◌,
}
use ids_bachelor_thesis.Analysis.Signals.{Behavior, percent}
use ids_bachelor_thesis.Analysis.Risk.{Config, scale, risk_percent}
use ids_bachelor_thesis.Analysis.Classify.{
  Classification, safe, suspicious, dangerous, dangerous_from, by_label, by_heuristics,
  classify_below, classify_from_risk,
}

abbrev pub severity : Classification → ℕ
severity safe = 0
severity suspicious = 1
severity dangerous = 2

thresholds_mono :
    (d s r r' : ℕ) (x x' : Classification)
    → r ≤ r'
    → (r < s → x ≢ dangerous)
    → (r < s → severity x ≤ severity x')
    → severity (if leb d r then dangerous else if leb s r then suspicious else x)
      ≤ severity (if leb d r' then dangerous else if leb s r' then suspicious else x')
thresholds_mono d s r r' x x' le low h = ground arith

module _ (c : Config) where
  module _ (label : Classification) (reasons : List String) (b : Behavior) (rf attack : Bool) where
    by_label_low : (risk : ℕ) → risk < risk_percent 55 → by_label risk label attack ≢ dangerous
    unfolding by_label
    by_label_low risk low h = ground arith

    by_label_safe :
        (risk risk' : ℕ)
        → risk ≤ risk'
        → by_label risk' label attack ≡ safe
        → by_label risk label attack ≡ safe
    unfolding by_label
    by_label_safe risk risk' le e = ground arith

    by_heuristics_low :
        (risk : ℕ)
        → risk < risk_percent 55
        → by_heuristics risk label reasons b rf attack ≢ dangerous
    unfolding by_heuristics dangerous_from
    by_heuristics_low risk low h = ground (arith, by_label_low risk)

    by_heuristics_safe :
        (risk risk' : ℕ)
        → risk ≤ risk'
        → by_heuristics risk' label reasons b rf attack ≡ safe
        → by_heuristics risk label reasons b rf attack ≡ safe
    unfolding by_heuristics dangerous_from
    by_heuristics_safe risk risk' le e = ground (arith, by_label_safe risk risk' le)

    classify_below_low :
        (risk : ℕ)
        → risk < risk_percent 55
        → classify_below risk label reasons b rf attack ≢ dangerous
    unfolding classify_below dangerous_from
    classify_below_low risk low h = ground (arith, by_heuristics_low risk)

    classify_below_safe :
        (risk risk' : ℕ)
        → risk ≤ risk'
        → classify_below risk' label reasons b rf attack ≡ safe
        → classify_below risk label reasons b rf attack ≡ safe
    unfolding classify_below dangerous_from
    classify_below_safe risk risk' le e = ground (arith, by_heuristics_safe risk risk' le)

    classify_below_mono :
        (risk risk' : ℕ)
        → risk ≤ risk'
        → risk < risk_percent 55
        → severity (classify_below risk label reasons b rf attack)
          ≤ severity (classify_below risk' label reasons b rf attack)
    classify_below_mono risk risk' le low =
        ground (arith, classify_below_low risk low, classify_below_safe risk risk' le)

    -- Under a suspicious threshold of at most 0.55, a packet with the same reasons and a higher risk
    -- is classified at least as severely.
    pub classify_from_risk_mono :
        (risk risk' : ℕ)
        → c.suspicious_threshold ≤ percent 55
        → risk ≤ risk'
        → severity (classify_from_risk c risk label reasons b rf attack)
          ≤ severity (classify_from_risk c risk' label reasons b rf attack)
    unfolding classify_from_risk
    classify_from_risk_mono risk risk' low le =
        thresholds_mono (scale * c.dangerous_threshold) (scale * c.suspicious_threshold) risk risk'
          (classify_below risk label reasons b rf attack)
          (classify_below risk' label reasons b rf attack) le
          (λ under. classify_below_low risk (omega arith))
          (λ under. classify_below_mono risk risk' le (omega arith))

    pub classify_dangerous :
        (risk : ℕ)
        → scale * c.dangerous_threshold ≤ risk
        → classify_from_risk c risk label reasons b rf attack ≡ dangerous
    unfolding classify_from_risk
    classify_dangerous risk h = ground arith

    pub classify_not_safe :
        (risk : ℕ)
        → scale * c.suspicious_threshold ≤ risk
        → classify_from_risk c risk label reasons b rf attack ≢ safe
    unfolding classify_from_risk
    classify_not_safe risk h e = ground arith

    pub classify_by_risk :
        (risk : ℕ)
        → c.suspicious_threshold ≤ percent 55
        → classify_from_risk c risk label reasons b rf attack ≡ dangerous
        → scale * c.dangerous_threshold ≤ risk
    unfolding classify_from_risk
    classify_by_risk risk low e = ground (arith, classify_below_low risk)
