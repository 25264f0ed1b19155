-- ===== src/EventTime/Defs.antt =====
-- Values that are read are in millionths of a second; a resolved time is in millionths of a
-- millionth, so that a value in milliseconds or microseconds is converted exactly.
use ids_bachelor_thesis.Prelude.{ℕ, ◌*◌, Option, none, some, ltb, if◌then◌else◌}

-- None, a value that is no finite number above 0 (also one that cannot be converted), or a number.
pub data Value : Type 0 where
  absent unusable : Value
  number : ℕ → Value

abbrev pub seconds : ℕ → ℕ
seconds n = n * 1_000_000

-- above 1e14 it is microseconds, above 1e11 milliseconds
unfoldable pub normalize : ℕ → ℕ
normalize f =
    if ltb (seconds 100_000_000_000_000) f
    then f
    else if ltb (seconds 100_000_000_000) f
    then f * 1000
    else f * 1_000_000

unfoldable pub coerce_epoch_seconds : Value → Option ℕ
unfolding normalize
coerce_epoch_seconds absent = none
coerce_epoch_seconds unusable = none
coerce_epoch_seconds (number f) = if ltb 0 f then some (normalize f) else none

abbrev or_next : Option ℕ → ℕ → ℕ
or_next none next = next
or_next (some t) next = t

-- The first source that has a valid value decides; the clock comes last.
unfoldable pub resolve_event_epoch_seconds :
    (packet_send_time event_origin_time device_timestamp fallback_ingestion_time : Value)
    → (clock : ℕ) → ℕ
unfolding coerce_epoch_seconds
resolve_event_epoch_seconds sent origin device fallback clock =
    or_next (coerce_epoch_seconds sent) (
      or_next (coerce_epoch_seconds origin)
        (or_next (coerce_epoch_seconds device) (or_next (coerce_epoch_seconds fallback) clock)))
