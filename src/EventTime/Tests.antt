-- ===== src/EventTime/Tests.antt =====
-- An instant of November 2023.
use ids_bachelor_thesis.Prelude.{ℕ, ◌*◌, ◌≡◌, refl, arith}
use ids_bachelor_thesis.EventTime.Defs.{
  Value, absent, unusable, number, seconds, resolve_event_epoch_seconds,
}
use ids_bachelor_thesis.EventTime.Units.{resolve_units_agree}

abbrev instant : ℕ
instant = seconds 1_700_000_000

second_source : resolve_event_epoch_seconds unusable (number 5) absent absent 9 ≡ 5_000_000
unfolding resolve_event_epoch_seconds
second_source = refl

resolve_units_agree_example :
    let resolve = λ (v : Value). resolve_event_epoch_seconds v (number 7) absent unusable 3 in
    (resolve (number instant) ≡ instant * 1_000_000)
    × (resolve (number (instant * 1000)) ≡ instant * 1_000_000)
    × (resolve (number (instant * 1_000_000)) ≡ instant * 1_000_000)
resolve_units_agree_example =
    resolve_units_agree instant (number 7) absent unusable 3 (omega arith) (omega arith)
