-- ===== src/Statistics/Counters.antt =====
-- The counters over a run of captured packets and results.
use ids_bachelor_thesis.Prelude.{ℕ, ◌+◌, ◌≡◌, ap, sym, ◌∙◌, Bool, Option, List, [], ◌∷◌, arith}
use ids_bachelor_thesis.Statistics.Defs.{
  Stats, Store, Label, safe, suspicious, dangerous, persist, maybe_persist, record_captured_event,
  record_analysis_result, count_label, mirrored,
}

-- A captured packet or a result, with its time and whether a write of the row works then.
pub data Event : Type 0 where
  captured : (now : ℕ) → (ok : Bool) → Event
  analysed : (now : ℕ) → (ok : Bool) → Label → (src_ip url : Option (List ℕ)) → Event

abbrev is_captured : Event → ℕ
is_captured (captured now ok) = 1
is_captured (analysed now ok label src_ip url) = 0

abbrev is_dangerous : Event → ℕ
is_dangerous (captured now ok) = 0
is_dangerous (analysed now ok safe src_ip url) = 0
is_dangerous (analysed now ok suspicious src_ip url) = 0
is_dangerous (analysed now ok dangerous src_ip url) = 1

abbrev is_result : Event → ℕ
is_result (captured now ok) = 0
is_result (analysed now ok label src_ip url) = 1

abbrev pub count : (Event → ℕ) → List Event → ℕ
count f [] = 0
count f (e ∷ events) = f e + count f events

module _ (interval : ℕ) where
  unfoldable pub step : Event → Store → Store
  unfolding record_captured_event record_analysis_result
  step (captured now ok) s = record_captured_event interval now ok s
  step (analysed now ok label src_ip url) s =
      record_analysis_result interval now ok label src_ip url s

  unfoldable pub run : List Event → Store → Store
  run [] s = s
  run (e ∷ events) s = run events (step e s)

  maybe_persist-live :
      (now : ℕ) (ok : Bool) (s : Store)
      → ((maybe_persist interval now ok s).live ≡ s.live)
        × ((maybe_persist interval now ok s).mirror ≡ s.mirror)
  unfolding maybe_persist persist
  maybe_persist-live now ok s = (ground arith, ground arith)

  abbrev results : Stats → ℕ
  results t = t.safe + t.suspicious + t.dangerous

  step-counts :
      (e : Event) (s : Store)
      → ((step e s).live.total ≡ s.live.total + is_captured e)
        × (results (step e s).live ≡ results s.live + is_result e)
        × ((step e s).live.dangerous ≡ s.live.dangerous + is_dangerous e)
        × ((step e s).mirror ≡ (step e s).live)
  unfolding step record_captured_event record_analysis_result count_label
  step-counts (captured now ok) s =
      let (l, m) =
        maybe_persist-live now ok
          (mirrored (record s { live = record s.live { total = s.live.total + 1 } })) in
      (
        ap (λ t. t.total) l,
        ap results l ∙ omega arith,
        ap (λ t. t.dangerous) l ∙ omega arith,
        m ∙ sym l,
      )
  step-counts (analysed now ok label src_ip url) s =
      let (l, m) =
        maybe_persist-live now ok
          (mirrored (record s { live = count_label label src_ip url s.live })) in
      let (a, b, c) = by_label label in
      (ap (λ t. t.total) l ∙ a, ap results l ∙ b, ap (λ t. t.dangerous) l ∙ c, m ∙ sym l)
    where
      by_label :
          (label : Label)
          → ((count_label label src_ip url s.live).total ≡ s.live.total + 0)
            × (results (count_label label src_ip url s.live) ≡ results s.live + 1)
            × ((count_label label src_ip url s.live).dangerous
                ≡ s.live.dangerous + is_dangerous (analysed now ok label src_ip url))
      by_label safe = (omega arith, omega arith, omega arith)
      by_label suspicious = (omega arith, omega arith, omega arith)
      by_label dangerous = (omega arith, omega arith, omega arith)

  -- What a run has counted, and that the copy for the pages keeps up.
  pub record IsCounted (events : List Event) (s s' : Store) : Type 0 where
    pub total : s'.live.total ≡ s.live.total + count is_captured events
    pub results_ : results s'.live ≡ results s.live + count is_result events
    pub dangerous_ : s'.live.dangerous ≡ s.live.dangerous + count is_dangerous events
    pub mirror : s'.mirror ≡ s'.live

  -- Over any run of captured packets and results, the total grows by one for each packet, the three
  -- classes together by one for each result, the dangerous one by one for each such result, and the
  -- copy in the memory store agrees with the counters, if it did at first.
  pub run-IsCounted :
      (events : List Event) (s : Store) → s.mirror ≡ s.live → IsCounted events s (run events s)
  unfolding run
  run-IsCounted [] s h = record {
    total = omega arith;
    results_ = omega arith;
    dangerous_ = omega arith;
    mirror = h;
  }
  run-IsCounted (e ∷ events) s h =
      let (a, b, c, m) = step-counts e s in
      let rest = run-IsCounted events (step e s) m in
      record {
        total = omega (arith, rest.total, a);
        results_ = omega (arith, rest.results_, b);
        dangerous_ = omega (arith, rest.dangerous_, c);
        mirror = rest.mirror;
      }
