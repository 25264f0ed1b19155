-- ===== src/Behavior/Scan.antt =====
-- The scan of a source's activity against the counts that it is meant to test.
use ids_bachelor_thesis.Prelude.{
  ℕ, ◌+◌, ◌≤◌, ◌<◌, ◌≡◌, refl, Bool-cases, inl, inr, false, Option, none, some, List, [], ◌∷◌,
  arith, All, length, length-append, leb, if◌then◌else◌,
}
use ids_bachelor_thesis.Dict.{is_some}
use ids_bachelor_thesis.Behavior.Defs.{
  Config, Event, Suspicion, flood, port_scan, add_port, scan, max_window,
}

module _ (c : Config) (now : ℕ) where
  -- how many events fall in the flood window
  unfoldable pub flood_count : List Event → ℕ
  flood_count [] = 0
  flood_count (e ∷ es) =
      let rest = flood_count es in if leb now (e.time + c.flood_window) then rest + 1 else rest

  -- the distinct ports of the events in the port scan window, with those of `ports`
  unfoldable pub ports_seen : List Event → List ℕ → List ℕ
  ports_seen [] ports = ports
  ports_seen (e ∷ es) ports =
      ports_seen es
        (if leb now (e.time + c.port_scan_window) then add_port e.dst_port ports else ports)

  -- no event is older than the larger window
  abbrev pub IsRecent : List Event → Type 0
  IsRecent = All (λ e. now ≤ e.time + max_window c)

  length-add_port : (p : Option ℕ) (ports : List ℕ) → length ports ≤ length (add_port p ports)
  unfolding add_port
  length-add_port none ports = omega arith
  length-add_port (some p) ports = ground (arith, length-append ports (p ∷ []))

  ports_seen_grows :
      (es : List Event) (ports : List ℕ) → length ports ≤ length (ports_seen es ports)
  unfolding ports_seen
  ports_seen_grows [] ports = omega arith
  ports_seen_grows (e ∷ es) ports = ground (
    arith,
    length-add_port e.dst_port ports,
    ports_seen_grows es (add_port e.dst_port ports),
    ports_seen_grows es ports,
  )

  no_port : (p : Option ℕ) (ports : List ℕ) → is_some p ≡ false → add_port p ports ≡ ports
  unfolding add_port
  no_port none ports h = refl
  no_port (some p) ports h = cc h

  -- What a result of the scan says, from counts that raised no alarm.
  abbrev pub Says : Option Suspicion → List Event → ℕ → List ℕ → Type 0
  Says none es count ports =
      (count + flood_count es ≤ c.flood_threshold)
      × (length (ports_seen es ports) < c.port_scan_threshold)
  Says (some flood) es count ports = c.flood_threshold < count + flood_count es
  Says (some port_scan) es count ports = c.port_scan_threshold ≤ length (ports_seen es ports)

  pub scan-Says :
      (es : List Event) (count : ℕ) (ports : List ℕ)
      → IsRecent es
      → count ≤ c.flood_threshold
      → length ports < c.port_scan_threshold
      → Says (scan c now es count ports) es count ports
  unfolding scan flood_count ports_seen
  scan-Says [] count ports recent few short = ground arith
  scan-Says (e ∷ es) count ports recent few short =
      elim (Bool-cases (leb now (e.time + c.flood_window))) [
        | inl near ↦ elim (Bool-cases (leb now (e.time + c.port_scan_window))) [
          | inl probing ↦
              rw (near, probing)
                (ground (
                  arith,
                  no_port e.dst_port ports,
                  ports_seen_grows es (add_port e.dst_port ports),
                  scan-Says es (count + 1) (add_port e.dst_port ports) recent.1,
                ))
          | inr past ↦ rw (near, past) (ground (arith, scan-Says es (count + 1) ports recent.1))
        ]
        | inr far ↦ elim (Bool-cases (leb now (e.time + c.port_scan_window))) [
          | inl probing ↦
              rw (far, probing)
                (ground (
                  arith,
                  no_port e.dst_port ports,
                  ports_seen_grows es (add_port e.dst_port ports),
                  scan-Says es count (add_port e.dst_port ports) recent.1,
                ))
          | inr past ↦ rw (far, past) (ground (arith, scan-Says es count ports recent.1))
        ]
      ]
