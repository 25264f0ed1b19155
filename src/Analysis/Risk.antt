-- ===== src/Analysis/Risk.antt =====
-- The fused risk. A score is a natural number of units of which `one` make 1; a sum of products
-- of two scores has the unit 1 / `risk_one`, where each division of the code is exact.
use ids_bachelor_thesis.Prelude.{
  ℕ, ◌+◌, ◌-◌, ◌*◌, Bool, false, ◌||◌, String, Option, none, some, List, ◌==◌, number_test,
  text_test, length, ltb, leb, max, if◌then◌else◌,
}
use ids_bachelor_thesis.Dict.{contains}
use ids_bachelor_thesis.Text.{is_lower_of}
use ids_bachelor_thesis.Analysis.Signals.{Behavior, min, one, percent}

-- `score` of an enrichment: missing, no number, below 0, or a number.
pub data Score : Type 0 where
  missing no_number below_zero : Score
  at : ℕ → Score

-- An answer of threat intelligence that is not empty; no verdict is the empty text.
pub record Enrichment : Type 0 where
  pub score : Score
  pub verdict : String

pub record Zeek : Type 0 where
  pub logs_available : Bool
  pub answer : Enrichment

-- The thresholds and the largest boosts, read from the environment.
pub record Config : Type 0 where
  pub suspicious_threshold : ℕ
  pub dangerous_threshold : ℕ
  pub max_score_boost : ℕ
  pub max_attack_boost : ℕ

unfoldable pub risk_from_verdict : String → ℕ
unfolding is_lower_of
risk_from_verdict v =
    if is_lower_of v "malicious"
    then percent 85
    else if is_lower_of v "suspicious"
    then percent 45
    else if is_lower_of v "safe"
    then 0
    else percent 8

unfoldable pub source_score : Option Enrichment → ℕ
unfolding risk_from_verdict
source_score none = 0
source_score (some e) = elim e.score [
  | missing ↦ risk_from_verdict e.verdict
  | no_number ↦ risk_from_verdict e.verdict
  | below_zero ↦ 0
  | at s ↦ min one s
]

-- `_BEHAVIOR_BOOST`, with 0.10 for what it does not name
unfoldable pub behavior_boost : Behavior → ℕ
behavior_boost none = 0
behavior_boost (some b) =
    if b == "port_scan"
    then percent 20
    else if b == "flood"
    then percent 28
    else if b == "dns_tunnel"
    then percent 14
    else if b == "dns_tunnel_suspected"
    then percent 16
    else percent 10

unfoldable pub dns_boost : List String → ℕ
dns_boost reasons =
    if contains reasons "dns_tunnel_suspected"
    then percent 16
    else min (percent 12) (percent 3 * length reasons)

abbrev pub cap_of : Config → Bool → ℕ
cap_of c attack_signals = if attack_signals then c.max_attack_boost else c.max_score_boost

-- units of a fused risk: 550000 * one * one make 1
abbrev pub scale : ℕ
scale = 550_000 * one

abbrev pub risk_one : ℕ
risk_one = scale * one

-- hundredths of a risk
abbrev pub risk_percent : ℕ → ℕ
risk_percent n = scale * percent n

abbrev pub number_of : Score → ℕ
number_of missing = 0
number_of no_number = 0
number_of below_zero = 0
number_of (at s) = s

-- The least risk that one confirmed indicator leads to.
unfoldable pub floor_of : Option Enrichment → ℕ
unfolding is_lower_of
floor_of none = 0
floor_of (some e) =
    if is_lower_of e.verdict "malicious" || leb (percent 90) (number_of e.score)
    then risk_percent 88
    else if is_lower_of e.verdict "suspicious" || leb (percent 50) (number_of e.score)
    then risk_percent 58
    else 0

unfoldable pub ti_floor_risk : Option Enrichment → Option Enrichment → ℕ
unfolding floor_of
ti_floor_risk ti_ip ti_url = max (floor_of ti_ip) (floor_of ti_url)

-- `ti * min(1, max(gate, ml / 0.55)) * ti_weight`
unfoldable pub ti_lift : ℕ → ℕ → Bool → ℕ
ti_lift ml ti attack_signals =
    let weight =
      if leb (percent 85) ti
      then if attack_signals then 45 else 32
      else if attack_signals
      then 28
      else 16 in
    let gate = if attack_signals then 50 else 30 in
    ti * min (5500 * one) (max (55 * gate * one) (10_000 * ml)) * weight

abbrev pub has_logs : Option Zeek → Bool
has_logs none = false
has_logs (some z) = z.logs_available

unfoldable pub zeek_lift : Option Zeek → ℕ
unfolding source_score
zeek_lift none = 0
zeek_lift (some z) = if z.logs_available then 5500 * one * 12 * source_score (some z.answer) else 0

module _ (c : Config) where
  -- `ml + extra * (1 - ml * 0.45)`, at most `ml + cap` and 1
  unfoldable pub capped_adjusted_score : ℕ → Behavior → List String → ℕ → Bool → ℕ
  unfolding behavior_boost dns_boost
  capped_adjusted_score ml_score behavior dns_reasons heuristic_boost attack_signals =
      let ml = min one ml_score in
      let cap = cap_of c attack_signals in
      let extra = min cap (heuristic_boost + behavior_boost behavior + dns_boost dns_reasons) in
      if extra == 0
      then scale * ml
      else min risk_one
          (min (scale * ml + 5500 * extra * (100 * one - 45 * ml)) (scale * (ml + cap)))

  unfoldable pub final_risk :
      (ml_score adjusted_score : ℕ)
      → (ti_ip ti_url : Option Enrichment) → Option Zeek
      → (attack_signals : Bool) → ℕ
  unfolding source_score ti_floor_risk ti_lift zeek_lift
  final_risk ml_score adjusted_score ti_ip ti_url zeek attack_signals =
      let ml = min one ml_score in
      let ti = max (source_score ti_ip) (source_score ti_url) in
      let fused = max (scale * ml) adjusted_score in
      let with_ti =
        if ltb 0 ti then min risk_one (fused + ti_lift ml ti attack_signals) else fused in
      let with_zeek = if has_logs zeek then min risk_one (with_ti + zeek_lift zeek) else with_ti in
      let floored = max with_zeek (ti_floor_risk ti_ip ti_url) in
      let max_lift = cap_of c attack_signals in
      min risk_one
        (max floored (scale * ml + 5500 * one * max_lift * (if attack_signals then 50 else 30)))
