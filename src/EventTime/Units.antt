-- ===== src/EventTime/Units.antt =====
-- One instant, given in seconds, milliseconds or microseconds, resolves to the same time.
use ids_bachelor_thesis.Prelude.{ℕ, ◌*◌, ◌≤◌, ◌<◌, ◌≡◌, arith}
use ids_bachelor_thesis.EventTime.Defs.{
  Value, number, seconds, normalize, coerce_epoch_seconds, resolve_event_epoch_seconds,
}

-- For an instant after 1e8 seconds (in 1973) and up to 1e11, the unit of the packet's own time does
-- not matter, and that time decides, whatever the other sources and the clock say.
pub resolve_units_agree :
    (t : ℕ) (origin device fallback : Value) (clock : ℕ)
    → seconds 100_000_000 < t
    → t ≤ seconds 100_000_000_000
    → let resolve = λ (v : Value). resolve_event_epoch_seconds v origin device fallback clock in
      (resolve (number t) ≡ t * 1_000_000)
      × (resolve (number (t * 1000)) ≡ t * 1_000_000)
      × (resolve (number (t * 1_000_000)) ≡ t * 1_000_000)
unfolding resolve_event_epoch_seconds coerce_epoch_seconds normalize
resolve_units_agree t origin device fallback clock lo hi = ground arith
