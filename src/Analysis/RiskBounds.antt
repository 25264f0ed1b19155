-- ===== src/Analysis/RiskBounds.antt =====
-- The range of the risk, and what raises it.
use ids_bachelor_thesis.Prelude.{
  ℕ, ◌+◌, ◌-◌, ◌*◌, ◌≤◌, Bool, true, false, Option, none, some, List, String, arith, max, ltb,
  if◌then◌else◌, Bool-cases, inl, inr, number_test, ◌==◌,
}
use ids_bachelor_thesis.Analysis.Signals.{Behavior, min, one}
use ids_bachelor_thesis.Analysis.Risk.{
  Config, Enrichment, Zeek, scale, risk_one, cap_of, has_logs, capped_adjusted_score, ti_lift,
  zeek_lift, ti_floor_risk, floor_of, final_risk, source_score, behavior_boost, dns_boost,
}

min_keeps : (x y lo : ℕ) → lo ≤ x → lo ≤ y → lo ≤ min x y
unfolding min
min_keeps x y lo h h' = ground arith

min_left : (x y : ℕ) → min x y ≤ x
unfolding min
min_left x y = ground arith

min_right : (x y : ℕ) → min x y ≤ y
unfolding min
min_right x y = ground arith

-- A step of the fused risk that adds a lift and stops at 1 keeps what was below both.
lift_keeps :
    (lo x y : ℕ) (b : Bool) → lo ≤ x → lo ≤ risk_one → lo ≤ (if b then min risk_one (x + y) else x)
lift_keeps lo x y true h h' = min_keeps risk_one (x + y) lo h' (omega arith)
lift_keeps lo x y false h h' = h

max_left : (x y lo : ℕ) → lo ≤ x → lo ≤ max x y
max_left x y lo h = ground arith

max_right : (x y lo : ℕ) → lo ≤ y → lo ≤ max x y
max_right x y lo h = ground arith

scaled_one : (ml : ℕ) → scale * min one ml ≤ risk_one
scaled_one ml = let h = min_left one ml in omega arith

floor_of-bound : (e : Option Enrichment) → floor_of e ≤ risk_one
unfolding floor_of
floor_of-bound none = omega arith
floor_of-bound (some e) = ground arith

pub ti_floor_risk-bound : (e e' : Option Enrichment) → ti_floor_risk e e' ≤ risk_one
unfolding ti_floor_risk
ti_floor_risk-bound e e' = let h = floor_of-bound e in let h' = floor_of-bound e' in ground arith

module _ (c : Config) where
  -- The fused risk is at most 1, and at least the score of the model, and at least the floor
  -- that the threat intelligence sets, and at least the adjusted score, as far as that is below 1.
  pub final_risk-bounds :
      (ml adjusted : ℕ) (ti_ip ti_url : Option Enrichment) (zeek : Option Zeek) (attack : Bool)
      → let risk = final_risk c ml adjusted ti_ip ti_url zeek attack in
        (risk ≤ risk_one)
        × (scale * min one ml ≤ risk)
        × (ti_floor_risk ti_ip ti_url ≤ risk)
        × (min risk_one adjusted ≤ risk)
  unfolding final_risk
  final_risk-bounds ml adjusted ti_ip ti_url zeek attack =
      let m = scale * min one ml in
      let fused = max m adjusted in
      let ti = max (source_score ti_ip) (source_score ti_url) in
      let with_ti =
        if ltb 0 ti then min risk_one (fused + ti_lift (min one ml) ti attack) else fused in
      let with_zeek = if has_logs zeek then min risk_one (with_ti + zeek_lift zeek) else with_ti in
      let lift = m + 5500 * one * cap_of c attack * (if attack then 50 else 30) in
      let floor = ti_floor_risk ti_ip ti_url in
      (
        min_left risk_one (max (max with_zeek floor) lift),
        min_keeps risk_one (max (max with_zeek floor) lift) m (scaled_one ml)
            (max_right (max with_zeek floor) lift m (omega arith)),
        min_keeps risk_one (max (max with_zeek floor) lift) floor (ti_floor_risk-bound ti_ip ti_url)
            (max_left (max with_zeek floor) lift floor
              (max_right with_zeek floor floor (omega arith))),
        min_keeps risk_one (max (max with_zeek floor) lift) (min risk_one adjusted)
            (min_left risk_one adjusted)
            (max_left (max with_zeek floor) lift (min risk_one adjusted) (
              max_left with_zeek floor (min risk_one adjusted) (
                lift_keeps (min risk_one adjusted) with_ti (zeek_lift zeek) (has_logs zeek)
                  (lift_keeps (min risk_one adjusted) fused (ti_lift (min one ml) ti attack)
                    (ltb 0 ti)
                    (max_right m adjusted (min risk_one adjusted) (min_right risk_one adjusted))
                    (min_left risk_one adjusted))
                  (min_left risk_one adjusted)))),
      )

  -- The adjusted score is at least the model's score, at most 1, and at most the model's score
  -- and the largest boost together.
  pub capped_adjusted_score-bounds :
      (ml_score : ℕ) (b : Behavior) (dns : List String) (boost : ℕ) (attack : Bool)
      → let ml = min one ml_score in
        let adjusted = capped_adjusted_score c ml_score b dns boost attack in
        (scale * ml ≤ adjusted)
        × (adjusted ≤ risk_one)
        × (adjusted ≤ scale * (ml + cap_of c attack))
  unfolding capped_adjusted_score
  capped_adjusted_score-bounds ml_score b dns boost attack =
      let ml = min one ml_score in
      let extra = min (cap_of c attack) (boost + behavior_boost b + dns_boost dns) in
      let raised = scale * ml + 5500 * extra * (100 * one - 45 * ml) in
      let capped = min raised (scale * (ml + cap_of c attack)) in
      elim (Bool-cases (extra == 0)) [
        | inl none_left ↦ rw none_left (omega arith, scaled_one ml_score, omega arith)
        | inr lifted ↦ rw lifted (
          min_keeps risk_one capped (scale * ml) (scaled_one ml_score) (
              min_keeps raised (scale * (ml + cap_of c attack)) (scale * ml) (omega arith)
                (omega arith)),
          min_left risk_one capped,
          (let h = min_right risk_one capped in
              let h' = min_right raised (scale * (ml + cap_of c attack)) in omega arith),
        )
      ]
