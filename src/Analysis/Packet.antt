-- ===== src/Analysis/Packet.antt =====
-- `analyze_packet`. What the model, the scan of the payload, the detector of engine/behavior.py and
-- ids/threat_intel.py answer is given; the explanation, which repeats the figures, is left out.
use ids_bachelor_thesis.Prelude.{
  ℕ, ◌*◌, Bool, false, not, ◌&&◌, ◌||◌, String, Option, none, some, List, [], ◌∷◌, ◌++◌, text_test,
  leb, if◌then◌else◌,
}
use ids_bachelor_thesis.Dict.{contains, is_some}
use ids_bachelor_thesis.Analysis.Signals.{Behavior, Meta, has_attack_signals, heuristic_signals}
use ids_bachelor_thesis.Analysis.Risk.{Config, Enrichment, Zeek, capped_adjusted_score, final_risk}
use ids_bachelor_thesis.Analysis.Classify.{Classification, safe, classify_from_risk}

-- What `predict` returns; the score and the strength are in millionths.
pub record Prediction : Type 0 where
  pub rf_attack : Bool
  pub iso_anomaly : Bool
  pub ml_score : ℕ
  pub ml_label : Classification
  pub ai_reasons : List String
  pub anomaly_strength : ℕ

pub record Packet : Type 0 where
  -- none where the packet has no features
  pub prediction : Option Prediction
  pub meta : Meta
  pub behavior : Behavior
  -- the answer of `_content_attack_reasons`
  pub content_reasons : List String
  pub dns_reasons : List String

-- The answer of `enrich`
pub record Intel : Type 0 where
  pub ti_ip : Option Enrichment
  pub ti_url : Option Enrichment
  pub zeek : Option Zeek
  pub ti_reasons : List String

pub record Analysis : Type 0 where
  pub classification : Classification
  pub reasons : List String
  pub risk_score : ℕ
  pub ai_score : ℕ
  pub ti_ip : Option Enrichment
  pub ti_url : Option Enrichment

-- `for r in new: if r not in reasons: reasons.append(r)`
unfoldable pub add_reasons : List String → List String → List String
add_reasons reasons [] = reasons
add_reasons reasons (r ∷ new) =
    add_reasons (if contains reasons r then reasons else reasons ++ r ∷ []) new

unfoldable pub no_features : Prediction
no_features = record {
  rf_attack = false;
  iso_anomaly = false;
  ml_score = 0;
  ml_label = safe;
  ai_reasons = "ml_skipped_no_features" ∷ [];
  anomaly_strength = 0;
}

abbrev pub prediction_of : Option Prediction → Prediction
prediction_of none = no_features
prediction_of (some p) = p

abbrev when : Bool → String → List String
when test r = if test then r ∷ [] else []

abbrev named : Behavior → List String
named none = []
named (some b) = b ∷ []

-- An untrusted model is flagged, and its score lowered, only if it was asked.
unfoldable pub is_untrusted : Bool → Option Prediction → Bool
is_untrusted trusted none = false
is_untrusted trusted (some p) = not trusted

unfoldable pub local_reasons : Bool → Packet → List String
unfolding heuristic_signals add_reasons no_features is_untrusted
local_reasons trusted packet =
    let p = prediction_of packet.prediction in
    add_reasons
      (p.ai_reasons
        ++ (heuristic_signals packet.meta).1
        ++ packet.content_reasons
        ++ named packet.behavior)
      packet.dns_reasons
    ++ when p.rf_attack "ml_attack"
    ++ when (p.iso_anomaly && leb 400_000 p.anomaly_strength) "anomaly"
    ++ when (is_untrusted trusted packet.prediction) "ml_model_untrusted"

-- The score of the model, in the units of a boost: times 0.92 if it is not trusted
unfoldable pub ml_of : Bool → Packet → ℕ
unfolding no_features is_untrusted
ml_of trusted packet =
    (prediction_of packet.prediction).ml_score
    * (if is_untrusted trusted packet.prediction then 5520 else 6000)

module _ (c : Config) where
  -- What the answers of the threat intelligence lead to.
  unfoldable pub conclude :
      Packet → Classification → ℕ → ℕ → Bool → List String → Bool → Intel → Analysis
  conclude packet label ml adjusted rf_attack reasons attack_signals intel =
      let fused_risk =
        final_risk c ml adjusted intel.ti_ip intel.ti_url intel.zeek attack_signals in
      record {
        classification =
            classify_from_risk c fused_risk label reasons packet.behavior rf_attack attack_signals;
        reasons = reasons;
        risk_score = fused_risk;
        ai_score = ml;
        ti_ip = intel.ti_ip;
        ti_url = intel.ti_url;
      }

  -- What `enrich` is asked with.
  unfoldable pub adjusted_of : Bool → Packet → ℕ
  unfolding local_reasons ml_of no_features
  adjusted_of trusted packet =
      let rf_attack = (prediction_of packet.prediction).rf_attack in
      let reasons = local_reasons trusted packet in
      capped_adjusted_score c (ml_of trusted packet) packet.behavior packet.dns_reasons
        (heuristic_signals packet.meta).0 (has_attack_signals reasons packet.behavior rf_attack)

  -- The caller's enrichments are used if there is one; otherwise `enrich` is asked, and its reasons
  -- may change whether there are signs of an attack.
  unfoldable pub analyze_packet : Bool → Packet → Intel → (ℕ → Intel) → Analysis
  unfolding conclude local_reasons ml_of no_features adjusted_of
  analyze_packet trusted packet given enrich =
      let p = prediction_of packet.prediction in
      let reasons = local_reasons trusted packet in
      let ml = ml_of trusted packet in
      let adjusted = adjusted_of trusted packet in
      let attack_signals = has_attack_signals reasons packet.behavior p.rf_attack in
      let intel = enrich adjusted in
      let all_reasons = add_reasons reasons intel.ti_reasons in
      if is_some given.ti_ip || is_some given.ti_url || is_some given.zeek
      then conclude packet p.ml_label ml adjusted p.rf_attack reasons attack_signals given
      else conclude packet p.ml_label ml adjusted p.rf_attack all_reasons
          (has_attack_signals all_reasons packet.behavior p.rf_attack) intel
