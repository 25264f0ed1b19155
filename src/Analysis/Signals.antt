-- ===== src/Analysis/Signals.antt =====
-- The reasons of a packet that count as signs of an attack, and the heuristic signals.
use ids_bachelor_thesis.Prelude.{
  ℕ, ◌+◌, ◌-◌, ◌*◌, Bool, false, not, ◌&&◌, ◌||◌, String, Option, none, some, List, [], ◌∷◌, ◌++◌,
  map, ◌==◌, number_test, text_test, ltb, if◌then◌else◌,
}
use ids_bachelor_thesis.Dict.{contains}
use ids_bachelor_thesis.Text.{codes, to_lower, starts_with, concat}

-- What `detect` of engine/behavior.py and the other detectors may name.
abbrev pub Behavior : Type 0
Behavior = Option String

unfoldable pub min : ℕ → ℕ → ℕ
min a b = if ltb b a then b else a

unfoldable pub any {ℓ} : {A : Type ℓ} → (A → Bool) → List A → Bool
any p [] = false
any p (x ∷ xs) = p x || any p xs

-- `str(r).startswith(prefix)`
unfoldable pub has_prefix : String → String → Bool
has_prefix prefix r = starts_with (codes r) (codes prefix)

-- `behavior == name`
unfoldable pub is_behavior : Behavior → String → Bool
is_behavior none name = false
is_behavior (some b) name = b == name

abbrev pub attack_reasons : List String
attack_reasons =
    "ml_attack" ∷ "anomaly" ∷ "strong_anomaly_detected" ∷ "high_rf_attack_probability"
    ∷ "dns_tunnel_suspected" ∷ []

abbrev pub attack_reason_prefixes : List String
attack_reason_prefixes =
    "http_" ∷ "payload_" ∷ "ml_attack" ∷ "strong_anomaly" ∷ "high_rf_attack" ∷ "combined_ml" ∷ []

unfoldable pub is_attack_reason : String → Bool
unfolding to_lower
is_attack_reason r =
    contains attack_reasons r
    || any (λ p. starts_with (map to_lower (codes r)) (codes p)) attack_reason_prefixes

unfoldable pub has_attack_signals : List String → Behavior → Bool → Bool
has_attack_signals reasons behavior rf_attack =
    is_behavior behavior "port_scan"
    || is_behavior behavior "flood"
    || rf_attack
    || any is_attack_reason reasons

-- What the heuristics read of a packet; numbers are in millionths, those that are missing are 0.
pub record Meta : Type 0 where
  pub payload_entropy : ℕ
  pub is_tls : Bool
  pub is_https : Bool
  pub unusual_port : Option String
  pub flow_packets_per_s : ℕ
  pub dst_port : Option ℕ

-- A boost is counted in units of which 6 * 10^9 make 1, so that a division by 6000 is exact.
abbrev pub one : ℕ
one = 6_000_000_000

-- hundredths, in these units
abbrev pub percent : ℕ → ℕ
percent n = n * 60_000_000

abbrev Signals : Type 0
Signals = ℕ × List String

entropy_signal : Meta → Signals
entropy_signal m =
    if ltb 7_200_000 m.payload_entropy && not (m.is_tls || m.is_https)
    then (min (percent 10) ((m.payload_entropy - 7_000_000) * 360), "high_payload_entropy" ∷ [])
    else (0, [])

port_signal : Option String → Signals
port_signal none = (0, [])
port_signal (some p) = (percent 6, concat "unusual_port_" p ∷ [])

burst_signal : ℕ → Signals
burst_signal pps =
    if ltb 500_000_000 pps then (min (percent 12) pps, "traffic_burst" ∷ []) else (0, [])

is_https_port : Option ℕ → Bool
is_https_port none = false
is_https_port (some p) = p == 443 || p == 8443

https_signal : Meta → Signals
https_signal m =
    if m.is_https && not (is_https_port m.dst_port)
    then (percent 4, "https_port_mismatch" ∷ [])
    else (0, [])

unfoldable pub heuristic_signals : Meta → Signals
unfolding entropy_signal port_signal burst_signal https_signal is_https_port concat
heuristic_signals m =
    let (b1, r1) = entropy_signal m in
    let (b2, r2) = port_signal m.unusual_port in
    let (b3, r3) = burst_signal m.flow_packets_per_s in
    let (b4, r4) = https_signal m in (b1 + b2 + b3 + b4, r1 ++ r2 ++ r3 ++ r4)
