-- ===== src/Behavior/Shard.antt =====
-- What `detect` reports for the activity that it keeps, and what a full shard forgets.
use mathlib.Core.List.{reverse, reverse-append}
use ids_bachelor_thesis.Prelude.{
  ℕ, ◌+◌, ◌≤◌, ◌<◌, ◌≡◌, refl, String, text_test, inl, inr, Bool-cases, Option, none, List, [], ◌∷◌,
  ◌++◌, arith, length, ltb,
}
use ids_bachelor_thesis.Dict.{get, insert}
use ids_bachelor_thesis.Dict.Laws.{get-insert, get-evict, length-insert}
use ids_bachelor_thesis.Deque
use ids_bachelor_thesis.Deque.{trim, newest}
use ids_bachelor_thesis.Behavior.Defs.{
  Config, Event, Shard, max_window, activity_maxlen, is_stale, open_activity, activity_of,
  record_activity, detect_in_shard,
}
use ids_bachelor_thesis.Behavior.Scan.{Says, IsRecent, scan-Says}

-- The times do not fall, from `lo` on, and none is after `now`.
abbrev pub Rising : ℕ → ℕ → List Event → Type 0
Rising lo now [] = lo ≤ now
Rising lo now (e ∷ es) = (lo ≤ e.time) × Rising e.time now es

Rising-weaken : (lo lo' now : ℕ) (es : List Event) → lo' ≤ lo → Rising lo now es → Rising lo' now es
Rising-weaken lo lo' now [] le h = omega arith
Rising-weaken lo lo' now (e ∷ es) le h = (omega arith, h.1)

Rising-later :
    (lo now now' : ℕ) (es : List Event) → now ≤ now' → Rising lo now es → Rising lo now' es
Rising-later lo now now' [] le h = omega arith
Rising-later lo now now' (e ∷ es) le h = (h.0, Rising-later e.time now now' es le h.1)

Rising-snoc :
    (lo now : ℕ) (es : List Event) (e : Event)
    → e.time ≡ now
    → Rising lo now es
    → Rising lo now (es ++ e ∷ [])
Rising-snoc lo now [] e at h = omega arith
Rising-snoc lo now (x ∷ xs) e at h = (h.0, Rising-snoc x.time now xs e at h.1)

append-Rising :
    (now n : ℕ) (es : List Event) (e : Event)
    → e.time ≡ now
    → Rising 0 now es
    → Rising 0 now (Deque.append n e es)
unfolding Deque.append
append-Rising now n [] e at h = ground arith
append-Rising now n (x ∷ xs) e at h = ground (
  arith,
  Rising-snoc 0 now (x ∷ xs) e at h,
  Rising-snoc 0 now xs e at (Rising-weaken x.time 0 now xs (omega arith) h.1),
)

module _ (c : Config) (now : ℕ) where
  Rising-IsRecent :
      (lo : ℕ) (es : List Event) → now ≤ lo + max_window c → Rising lo now es → IsRecent c now es
  Rising-IsRecent lo [] le h = tt
  Rising-IsRecent lo (e ∷ es) le h = (omega arith, Rising-IsRecent e.time es (omega arith) h.1)

  trim-IsRecent :
      (lo : ℕ) (es : List Event)
      → Rising lo now es
      → IsRecent c now (trim (λ e. ltb (e.time + max_window c) now) es)
  unfolding trim
  trim-IsRecent lo [] h = tt
  trim-IsRecent lo (e ∷ es) h = elim (Bool-cases (ltb (e.time + max_window c) now)) [
    | inl old ↦ rw old (trim-IsRecent e.time es h.1)
    | inr recent ↦ rw recent (
        let near : now ≤ e.time + max_window c = ground arith in
        (near, Rising-IsRecent e.time es near h.1))
  ]

  IsRecent-snoc :
      (es : List Event) (e : Event)
      → IsRecent c now es
      → now ≤ e.time + max_window c
      → IsRecent c now (es ++ e ∷ [])
  IsRecent-snoc [] e h near = (near, tt)
  IsRecent-snoc (x ∷ xs) e h near = (h.0, IsRecent-snoc xs e h.1 near)

  reverse-IsRecent : (es : List Event) → IsRecent c now es → IsRecent c now (reverse es)
  reverse-IsRecent [] h = h
  reverse-IsRecent (e ∷ es) h =
      rw (reverse-append (e ∷ []) es) (IsRecent-snoc (reverse es) e (reverse-IsRecent es h.1) h.0)

  activity_of-open_activity :
      (src : String) (m : Shard)
      → activity_of c (open_activity c now src m) src ≡ activity_of c m src
  unfolding open_activity is_stale newest
  activity_of-open_activity src m = ground (
    arith,
    get-insert m src [] src,
    text_test.test_iff src src,
    get-evict (is_stale c now) (insert m src []) src,
  )

  -- Where a source's activity is in the order of time and no threshold is 0, `detect` reports
  -- nothing only if the events that it keeps for the source, this one included, stay at or below
  -- the flood threshold in its window and touch fewer ports than the scan threshold in its window;
  -- a flood and a port scan are reported only when their counts reach the threshold.
  pub detect_reports_counts :
      (src : String) (port : Option ℕ) (m : Shard)
      → Rising 0 now (activity_of c m src)
      → 0 < c.port_scan_threshold
      → Says c now
          (detect_in_shard c now src port m).1
          (reverse (record_activity c now src port m).1)
          0
          []
  unfolding detect_in_shard record_activity
  detect_reports_counts src port m rising pos =
      let e : Event = record { time = now; dst_port = port } in
      let dq = Deque.append activity_maxlen e (activity_of c m src) in
      let kept = trim (λ e. ltb (e.time + max_window c) now) dq in
      let recent = reverse-IsRecent kept (
        trim-IsRecent 0 dq
          (append-Rising now activity_maxlen (activity_of c m src) e refl rising)) in
      rw (activity_of-open_activity src m)
        (scan-Says c now (reverse kept) 0 [] recent (omega arith) pos)

  -- In a shard that is full a new source is forgotten at once: the cleaning drops the empty deque
  -- that was made for it, and the event goes into a deque that the map no longer holds.
  pub full_shard_forgets :
      (src : String) (port : Option ℕ) (m : Shard)
      → get m src ≡ none
      → c.shard_capacity ≤ length m
      → get (detect_in_shard c now src port m).0 src ≡ none
  unfolding detect_in_shard record_activity open_activity is_stale newest
  full_shard_forgets src port m new full = ground (
    arith,
    length-insert m src [],
    get-insert m src [] src,
    text_test.test_iff src src,
    get-evict (is_stale c now) (insert m src []) src,
  )
