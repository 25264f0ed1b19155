-- ===== src/Behavior/Defs.antt =====
-- `detect` of engine/behavior.py. Times are in microseconds; the hash of a text is a parameter.
use mathlib.Core.List.{reverse}
use ids_bachelor_thesis.Prelude.{
  ℕ, ◌+◌, ◌%◌, Bool, true, ◌&&◌, String, text_test, number_test, ◌==◌, Option, none, some, List, [],
  ◌∷◌, ◌++◌, length, ltb, leb, max, if◌then◌else◌,
}
use ids_bachelor_thesis.Dict.{Dict, get, insert, evict, is_some, contains}
use ids_bachelor_thesis.Deque
use ids_bachelor_thesis.Deque.{trim, newest}

pub record Config : Type 0 where
  pub flood_threshold : ℕ
  pub flood_window : ℕ
  pub port_scan_threshold : ℕ
  pub port_scan_window : ℕ
  pub shards : ℕ
  -- 10_000 in the source
  pub shard_capacity : ℕ

abbrev pub max_window : Config → ℕ
max_window c = max c.flood_window c.port_scan_window

-- `deque(maxlen=1000)`
abbrev pub activity_maxlen : ℕ
activity_maxlen = 1000

pub record Event : Type 0 where
  pub time : ℕ
  pub dst_port : Option ℕ

abbrev pub Shard : Type 0
Shard = Dict String (List Event)

pub data Suspicion : Type 0 where
  flood port_scan : Suspicion

-- `set.add`
unfoldable pub add_port : Option ℕ → List ℕ → List ℕ
unfolding contains
add_port none ports = ports
add_port (some p) ports = if contains ports p then ports else ports ++ p ∷ []

module _ (c : Config) where
  -- `not dq or now - dq[-1]["time"] > _MAX_WINDOW`
  unfoldable pub is_stale : ℕ → List Event → Bool
  unfolding newest
  is_stale now dq = elim (newest dq) [ none ↦ true | some e ↦ ltb (e.time + max_window c) now ]

  -- The source's deque is in the map from its first event on; a large map is cleaned then.
  unfoldable pub open_activity : ℕ → String → Shard → Shard
  unfolding is_stale
  open_activity now src m =
      if is_some (get m src)
      then m
      else if ltb c.shard_capacity (length (insert m src []))
      then evict (is_stale now) (insert m src [])
      else insert m src []

  abbrev pub activity_of : Shard → String → List Event
  activity_of m src = elim (get m src) [ none ↦ [] | some dq ↦ dq ]

  -- The append and the trim act on the deque of the map, if that still holds it.
  unfoldable pub record_activity : ℕ → String → Option ℕ → Shard → Shard × List Event
  record_activity now src port m =
      let m' = open_activity now src m in
      let dq =
        trim (λ e. ltb (e.time + max_window c) now)
          (Deque.append activity_maxlen (record { time = now; dst_port = port })
            (activity_of m' src)) in
      (if is_some (get m' src) then insert m' src dq else m', dq)

  -- The loop over `reversed(activity)`.
  unfoldable pub scan : ℕ → List Event → ℕ → List ℕ → Option Suspicion
  scan now [] count ports = none
  scan now (e ∷ es) count ports =
      let count' = if leb now (e.time + c.flood_window) then count + 1 else count in
      let ports' =
        if leb now (e.time + c.port_scan_window) then add_port e.dst_port ports else ports in
      let rest = scan now es count' ports' in
      if ltb (e.time + max_window c) now
      then none
      else if leb now (e.time + c.flood_window) && ltb c.flood_threshold count'
      then some flood
      else if leb now (e.time + c.port_scan_window)
          && is_some e.dst_port
          && leb c.port_scan_threshold (length ports')
      then some port_scan
      else rest

  -- `detect` on the shard of its source
  unfoldable pub detect_in_shard : ℕ → String → Option ℕ → Shard → Shard × Option Suspicion
  detect_in_shard now src port m =
      let (m', dq) = record_activity now src port m in (m', scan now (reverse dq) 0 [])

  abbrev pub shard_index : (String → ℕ) → String → ℕ
  shard_index hash src = hash src % c.shards

  -- The maps by the index of their shard.
  unfoldable pub detect :
      (String → ℕ) → ℕ → String → Option ℕ → (ℕ → Shard) → (ℕ → Shard) × Option Suspicion
  detect hash now src port maps =
      if src == ""
      then (maps, none)
      else let i = shard_index hash src in
        let (m, found) = detect_in_shard now src port (maps i) in
        (λ j. if j == i then m else maps j, found)
