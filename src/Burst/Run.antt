-- ===== src/Burst/Run.antt =====
-- Calls one after the other, and the alerts that they send.
use ids_bachelor_thesis.Prelude.{
  ℕ, ◌+◌, ◌≤◌, ◌≡◌, ◌⊎◌, inl, inr, Option-cases, Option, none, some, List, [], ◌∷◌, String,
  text_test, ◌==◌, if◌then◌else◌,
}
use ids_bachelor_thesis.Burst.Defs.{
  Config, Event, Burst, Alert, Kind, nonempty, burst_eligible, record_event,
  maybe_alert_dangerous_burst,
}

pub record Call : Type 0 where
  pub now : ℕ
  pub event : Event

abbrev pub with_alert : Option Alert → List Alert → List Alert
with_alert none alerts = alerts
with_alert (some a) alerts = a ∷ alerts

-- The state after the calls, and the alerts in order.
unfoldable pub run : Config → List Call → Burst → Burst × List Alert
run c [] b = (b, [])
run c (x ∷ xs) b =
    let (b', sent) = maybe_alert_dangerous_burst c x.now x.event b in
    let (b'', alerts) = run c xs b' in (b'', with_alert sent alerts)

-- The clock does not go back.
abbrev pub InOrder : ℕ → List Call → Type 0
InOrder from [] = Unit
InOrder from (x ∷ xs) = (from ≤ x.now) × InOrder x.now xs

-- Each alert comes at least `gap` after the one before it, the first after `last`.
abbrev pub Spaced : ℕ → ℕ → List Alert → Type 0
Spaced gap last [] = Unit
Spaced gap last (a ∷ rest) = (last + gap ≤ a.at) × Spaced gap a.at rest

-- The alerts about one source.
abbrev pub about : String → List Alert → List Alert
about ip [] = []
about ip (a ∷ rest) = if a.src_ip == ip then a ∷ about ip rest else about ip rest

-- A call changes nothing, or records an event about a source.
pub call_cases :
    (c : Config) (now : ℕ) (e : Event) (b : Burst)
    → (maybe_alert_dangerous_burst c now e b ≡ (b, none))
      ⊎ ((src : String) × (kind : Kind) × (maybe_alert_dangerous_burst c now e b
            ≡ record_event c now src kind e b))
unfolding maybe_alert_dangerous_burst
call_cases c now e b = elim (Option-cases (nonempty e.src_ip)) [
  | inl nobody ↦ inl (rw (nobody, maybe_alert_dangerous_burst))
  | inr (src, es) ↦ elim (Option-cases (burst_eligible c e.classification e.risk_score)) [
    | inl harmless ↦ inl (rw (es, maybe_alert_dangerous_burst, harmless))
    | inr (kind, ek) ↦ inr (src, kind, rw (es, maybe_alert_dangerous_burst, ek))
  ]
]
