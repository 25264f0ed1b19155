-- ===== src/Analysis/Verdicts.antt =====
-- What the result of `analyze_packet` promises.
use ids_bachelor_thesis.Prelude.{
  ℕ, ◌*◌, ◌≤◌, ◌≡◌, ◌⊎◌, ◌≢◌, inl, inr, Bool, true, ◌||◌, Option, some, List, String, arith,
  Bool-cases,
}
use ids_bachelor_thesis.Dict.{is_some}
use ids_bachelor_thesis.Text.{is_lower_of}
use ids_bachelor_thesis.Analysis.Signals.{min, one, percent}
use ids_bachelor_thesis.Analysis.Risk.{
  Config, Enrichment, number_of, scale, risk_one, risk_percent, ti_floor_risk, floor_of, final_risk,
}
use ids_bachelor_thesis.Analysis.Classify.{Classification, safe, dangerous}
use ids_bachelor_thesis.Analysis.Packet.{
  Packet, Intel, Analysis, ml_of, conclude, adjusted_of, analyze_packet,
}
use ids_bachelor_thesis.Analysis.RiskBounds.{final_risk-bounds}
use ids_bachelor_thesis.Analysis.Severity.{classify_dangerous, classify_not_safe, classify_by_risk}

-- What is known of the result, however the enrichment came about.
pub record IsSound (c : Config) (ml : ℕ) (a : Analysis) : Type 0 where
  pub at_most_one : a.risk_score ≤ risk_one
  pub at_least_ml : scale * min one ml ≤ a.risk_score
  pub at_least_floor : ti_floor_risk a.ti_ip a.ti_url ≤ a.risk_score
  pub is_dangerous : scale * c.dangerous_threshold ≤ a.risk_score → a.classification ≡ dangerous
  pub not_safe : scale * c.suspicious_threshold ≤ a.risk_score → a.classification ≢ safe
  pub only_by_risk :
      c.suspicious_threshold ≤ percent 55
      → a.classification ≡ dangerous
      → scale * c.dangerous_threshold ≤ a.risk_score

floor_of-malicious :
    (e : Enrichment)
    → (is_lower_of e.verdict "malicious" ≡ true) ⊎ (percent 90 ≤ number_of e.score)
    → risk_percent 88 ≤ floor_of (some e)
unfolding floor_of
floor_of-malicious e h = ground arith

floor_of-suspicious :
    (e : Enrichment)
    → (is_lower_of e.verdict "suspicious" ≡ true) ⊎ (percent 50 ≤ number_of e.score)
    → risk_percent 58 ≤ floor_of (some e)
unfolding floor_of
floor_of-suspicious e h = ground arith

ti_floor_risk-carried :
    (e : Enrichment) (ip url : Option Enrichment)
    → (ip ≡ some e) ⊎ (url ≡ some e)
    → floor_of (some e) ≤ ti_floor_risk ip url
unfolding ti_floor_risk
ti_floor_risk-carried e ip url (inl h) = rw h (omega arith)
ti_floor_risk-carried e ip url (inr h) = rw h (omega arith)

module _ (c : Config) where
  conclude-IsSound :
      (packet : Packet) (label : Classification) (ml adjusted : ℕ) (rf : Bool)
      → (reasons : List String) (attack : Bool) (intel : Intel)
      → IsSound c ml (conclude c packet label ml adjusted rf reasons attack intel)
  unfolding conclude
  conclude-IsSound packet label ml adjusted rf reasons attack intel =
      let risk = final_risk c ml adjusted intel.ti_ip intel.ti_url intel.zeek attack in
      let (one_most, ml_least, floor, own) =
        final_risk-bounds c ml adjusted intel.ti_ip intel.ti_url intel.zeek attack in
      record {
        at_most_one = one_most;
        at_least_ml = ml_least;
        at_least_floor = floor;
        is_dangerous = classify_dangerous c label reasons packet.behavior rf attack risk;
        not_safe = classify_not_safe c label reasons packet.behavior rf attack risk;
        only_by_risk = classify_by_risk c label reasons packet.behavior rf attack risk;
      }

  -- Whatever the packet, the model and the answers of the threat intelligence: the risk is at most
  -- 1, at least the model's score and at least the floor of the threat intelligence; from the
  -- dangerous threshold on the packet is dangerous, from the suspicious one on it is not safe; and
  -- if the suspicious threshold is at most 0.55, it is dangerous only from the dangerous threshold
  -- on.
  pub analyze_packet-IsSound :
      (trusted : Bool) (packet : Packet) (given : Intel) (enrich : ℕ → Intel)
      → IsSound c (ml_of trusted packet) (analyze_packet c trusted packet given enrich)
  unfolding analyze_packet
  analyze_packet-IsSound trusted packet given enrich =
      elim (Bool-cases (is_some given.ti_ip || is_some given.ti_url || is_some given.zeek)) [
        | inl some_given ↦ rw some_given (conclude-IsSound packet _ _ _ _ _ _ given)
        | inr none_given ↦
            rw none_given
              (conclude-IsSound packet _ _ _ _ _ _ (enrich (adjusted_of c trusted packet)))
      ]

  module _ (trusted : Bool) (packet : Packet) (given : Intel) (enrich : ℕ → Intel) where
    abbrev result : Analysis
    result = analyze_packet c trusted packet given enrich

    -- Where the result carries an answer about the address with the verdict "malicious" or a score of
    -- 0.9 or more, and the dangerous threshold is at most 0.88, the packet is dangerous, whatever
    -- the model and the behaviour say.
    pub malicious_is_dangerous :
        (e : Enrichment)
        → (result.ti_ip ≡ some e) ⊎ (result.ti_url ≡ some e)
        → (is_lower_of e.verdict "malicious" ≡ true) ⊎ (percent 90 ≤ number_of e.score)
        → c.dangerous_threshold ≤ percent 88
        → result.classification ≡ dangerous
    malicious_is_dangerous e carried confirmed low =
        let s = analyze_packet-IsSound trusted packet given enrich in
        let f = floor_of-malicious e confirmed in
        let t = ti_floor_risk-carried e result.ti_ip result.ti_url carried in
        let r = s.at_least_floor in s.is_dangerous (omega arith)

    -- Where the result carries an answer with the verdict "suspicious" or a score of 0.5 or more,
    -- and the suspicious threshold is at most 0.58, the packet is not safe.
    pub suspicious_is_not_safe :
        (e : Enrichment)
        → (result.ti_ip ≡ some e) ⊎ (result.ti_url ≡ some e)
        → (is_lower_of e.verdict "suspicious" ≡ true) ⊎ (percent 50 ≤ number_of e.score)
        → c.suspicious_threshold ≤ percent 58
        → result.classification ≢ safe
    suspicious_is_not_safe e carried confirmed low =
        let s = analyze_packet-IsSound trusted packet given enrich in
        let f = floor_of-suspicious e confirmed in
        let t = ti_floor_risk-carried e result.ti_ip result.ti_url carried in
        let r = s.at_least_floor in s.not_safe (omega arith)
