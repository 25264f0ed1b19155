-- ===== src/Burst/Spacing.antt =====
-- The limits on emails: between any two, and between two about one source.
use ids_bachelor_thesis.Prelude.{
  ℕ, ◌+◌, ◌≤◌, ◌≡◌, refl, ap, subst, number_test, true, false, String, inl, inr, Bool-cases, Option,
  none, some, List, [], ◌∷◌, arith, text_test, ◌==◌,
}
use ids_bachelor_thesis.Dict.Laws.{get-insert}
use ids_bachelor_thesis.Burst.Defs.{
  Config, Event, Entry, Kind, Burst, Alert, start, evict_idle, count_call, add_entry, decide,
  record_event, maybe_alert_dangerous_burst, threat_types, event_context,
}
use ids_bachelor_thesis.Burst.Guard.{
  Guarded, recent_since, count_call-Guarded, add_entry-Guarded, add_entry-fresh,
}
use ids_bachelor_thesis.Burst.Run.{Call, run, with_alert, InOrder, Spaced, about, call_cases}

module _ (c : Config) where
  -- What one call does to the time of the last send.
  abbrev SendsAfter : Burst → Burst × Option Alert → Type 0
  SendsAfter b (b', none) = b'.last_global_send ≡ b.last_global_send
  SendsAfter b (b', some a) =
      (b.last_global_send + c.global_dedup ≤ a.at) × (b'.last_global_send ≡ a.at)

  call-SendsAfter :
      (now : ℕ) (e : Event) (b : Burst) → SendsAfter b (maybe_alert_dangerous_burst c now e b)
  unfolding maybe_alert_dangerous_burst record_event decide add_entry count_call evict_idle
  call-SendsAfter now e b = ground arith

  run-Spaced :
      (calls : List Call) (b : Burst) → Spaced c.global_dedup b.last_global_send (run c calls b).1
  unfolding run
  run-Spaced [] b = tt
  run-Spaced (x ∷ xs) b = ground (
    arith,
    call-SendsAfter x.now x.event b,
    run-Spaced xs (maybe_alert_dangerous_burst c x.now x.event b).0,
  )

  -- Between any two emails, whatever their sources and whatever the clock does, at least the global
  -- interval passes.
  pub email_gap : (calls : List Call) → Spaced c.global_dedup 0 (run c calls start).1
  email_gap calls = run-Spaced calls start

  -- What `decide` leaves behind, about `ip`, when the entry is in.
  abbrev Decided : String → ℕ → ℕ → Burst × Option Alert → Type 0
  Decided ip sent now (b', none) = Guarded c ip sent now b'
  Decided ip sent now (b', some a) =
      (a.at ≡ now)
      × ((a.src_ip == ip) ≡ true → (sent + c.dedup ≤ now) × Guarded c ip now now b')
      × ((a.src_ip == ip) ≡ false → Guarded c ip sent now b')

  decide-Decided :
      (ip : String) (sent now : ℕ) (src : String) (kind : Kind) (b : Burst)
      → Guarded c ip sent now b
      → recent_since now b src ≡ true
      → Decided ip sent now (decide c now src kind b)
  unfolding decide
  decide-Decided ip sent now src kind b (inl over) fresh =
      ground (arith, get-insert b.last_email src now ip, text_test.test_iff src ip)
  decide-Decided ip sent now src kind b (inr (kept, old)) fresh =
      ground (arith, get-insert b.last_email src now ip, text_test.test_iff src ip)

  -- An alert guards its own source from then on.
  decide-Guarded :
      (now : ℕ) (src : String) (kind : Kind) (b : Burst) (a : Alert)
      → recent_since now b src ≡ true
      → (decide c now src kind b).1 ≡ some a
      → (a.at ≡ now) × Guarded c a.src_ip now now (decide c now src kind b).0
  unfolding decide
  decide-Guarded now src kind b a fresh h =
      ground (arith, get-insert b.last_email src now src, text_test.test_iff src src)

  abbrev entry_of : ℕ → Event → Entry
  entry_of now e = record { at = now; types = threat_types e.reasons; context = event_context e }

  call-Decided :
      (ip : String) (sent before now : ℕ) (e : Event) (b : Burst)
      → sent ≤ before
      → before ≤ now
      → Guarded c ip sent before b
      → Decided ip sent now (maybe_alert_dangerous_burst c now e b)
  unfolding record_event
  call-Decided ip sent before now e b le le' g = elim (call_cases c now e b) [
    | inl ignored ↦ rw ignored (later g)
    | inr (src, kind, recorded) ↦ rw recorded (
        decide-Decided ip sent now src kind
          (add_entry c now src (entry_of now e) (count_call c now b))
          (add_entry-Guarded c ip sent now src (entry_of now e) (count_call c now b) (omega arith)
            refl (count_call-Guarded c ip sent before now b le' g))
          (add_entry-fresh c now src (entry_of now e) (count_call c now b) refl))
  ]
    where
      later : Guarded c ip sent before b → Guarded c ip sent now b
      later (inl over) = inl (omega arith)
      later (inr live) = inr live

  call-Guarded :
      (now : ℕ) (e : Event) (b : Burst) (a : Alert)
      → (maybe_alert_dangerous_burst c now e b).1 ≡ some a
      → (a.at ≡ now) × Guarded c a.src_ip now now (maybe_alert_dangerous_burst c now e b).0
  unfolding record_event
  call-Guarded now e b a h = elim (call_cases c now e b) [
    | inl ignored ↦ cc (ap (λ r. r.1) ignored)
    | inr (src, kind, recorded) ↦ rw recorded (
        decide-Guarded now src kind (add_entry c now src (entry_of now e) (count_call c now b)) a
          (add_entry-fresh c now src (entry_of now e) (count_call c now b) refl) (rw recorded at h))
  ]

  run-Guarded :
      (ip : String) (sent before : ℕ) (calls : List Call) (b : Burst)
      → sent ≤ before
      → InOrder before calls
      → Guarded c ip sent before b
      → Spaced c.dedup sent (about ip (run c calls b).1)
  unfolding run
  run-Guarded ip sent before [] b le o g = tt
  run-Guarded ip sent before (x ∷ xs) b le o g =
      let (b', sent_now) = maybe_alert_dangerous_burst c x.now x.event b in
      go b' sent_now (call-Decided ip sent before x.now x.event b le o.0 g)
        (λ g'. run-Guarded ip sent x.now xs b' (omega arith) o.1 g')
        (λ g'. run-Guarded ip x.now x.now xs b' (omega arith) o.1 g')
    where
      go :
          (b' : Burst) (alert : Option Alert)
          → Decided ip sent x.now (b', alert)
          → (Guarded c ip sent x.now b' → Spaced c.dedup sent (about ip (run c xs b').1))
          → (Guarded c ip x.now x.now b' → Spaced c.dedup x.now (about ip (run c xs b').1))
          → Spaced c.dedup sent (about ip (with_alert alert (run c xs b').1))
      go b' none d same next = same d
      go b' (some a) d same next = elim (Bool-cases (a.src_ip == ip)) [
        | inl mine ↦ rw (mine, d.0) ((d.1 mine).0, next (d.1 mine).1)
        | inr other ↦ rw other (same (d.2 other))
      ]

  -- The first alert about a source is free; each later one waits.
  abbrev pub Separated : List Alert → Type 0
  Separated [] = Unit
  Separated (a ∷ rest) = Spaced c.dedup a.at rest

  run-Separated :
      (ip : String) (before : ℕ) (calls : List Call) (b : Burst)
      → InOrder before calls
      → Separated (about ip (run c calls b).1)
  unfolding run
  run-Separated ip before [] b o = tt
  run-Separated ip before (x ∷ xs) b o =
      go (maybe_alert_dangerous_burst c x.now x.event b).1 (call-Guarded x.now x.event b)
        (run-Separated ip x.now xs (maybe_alert_dangerous_burst c x.now x.event b).0 o.1)
    where
      go :
          (alert : Option Alert)
          → ((a : Alert)
              → alert ≡ some a
              → (a.at ≡ x.now)
                × Guarded c a.src_ip x.now x.now (maybe_alert_dangerous_burst c x.now x.event b).0)
          → Separated (about ip (run c xs (maybe_alert_dangerous_burst c x.now x.event b).0).1)
          → Separated (
              about ip
                (with_alert alert (run c xs (maybe_alert_dangerous_burst c x.now x.event b).0).1))
      go none guard rest = rest
      go (some a) guard rest = elim (Bool-cases (a.src_ip == ip)) [
        | inr other ↦ rw other rest
        | inl mine ↦
            let (at, g) = guard a refl in
            let b' = (maybe_alert_dangerous_burst c x.now x.event b).0 in
            let same : a.src_ip ≡ ip = (text_test.test_iff a.src_ip ip).0 mine in
            rw (mine, at)
              (run-Guarded ip x.now x.now xs b' (omega arith) o.1
                (subst (λ s. Guarded c s x.now x.now b') same g))
      ]

  -- Whatever the events, on a clock that does not go back: between two emails about one source at
  -- least the source's interval passes.
  pub source_email_gap :
      (ip : String) (calls : List Call)
      → InOrder 0 calls
      → Separated (about ip (run c calls start).1)
  source_email_gap ip calls o = run-Separated ip 0 calls start o
