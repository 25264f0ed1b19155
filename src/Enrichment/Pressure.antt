-- ===== src/Enrichment/Pressure.antt =====
-- When `enrich` leaves the services alone, and when it raises.
use ids_bachelor_thesis.Prelude.{
  ◌<◌, ◌*◌, ◌≡◌, ◌≢◌, refl, ap, ◌⊎◌, ◌∙◌, inl, inr, true, false, String, Option, none, some, [],
  ◌∷◌, arith, Bool-cases, text_test, ◌==◌,
}
use ids_bachelor_thesis.Analysis.Signals.{is_behavior, percent}
use ids_bachelor_thesis.Analysis.Risk.{Enrichment, scale}
use ids_bachelor_thesis.Analysis.Packet.{Intel}
use ids_bachelor_thesis.Enrichment.Defs.{
  Services, Config, Request, failed, url_kind, listed, only, is_quiet, blocked, check_blocklist,
  skips, block_reasons, cached_lookup, reputation, ask, keep_answer, checked_verdict, threshold_of,
  enrich_ip, enrich_url, after_url, after_ip, after_found, full_lookup, enrich,
}

module _ {W : Type 0} (s : Services W) (c : Config) where
  -- The source is a public address on the blocklist.
  abbrev pub IsListed : Request → Type 0
  IsListed r =
      (ip : String) × (r.src_ip ≡ some ip) × (s.is_private_ip ip ≡ false) × (s.is_listed ip ≡ true)

  -- The score is below a threshold that applies: the configured one, 0.40 for a model that is not
  -- trusted, 0.50 where the queue is more than half full.
  abbrev pub IsLow : Request → Type 0
  IsLow r =
      (r.ai_score < scale * c.min_score)
      ⊎ (((r.model_trusted ≡ false) × (r.ai_score < scale * percent 40))
          ⊎ ((percent 50 < r.queue_pressure) × (r.ai_score < scale * percent 50)))

  blocked_cases :
      (ip : Option String)
      → ((blocked s c ip ≡ some listed)
          × ((a : String) × (ip ≡ some a) × (s.is_private_ip a ≡ false) × (s.is_listed a ≡ true)))
        ⊎ ((blocked s c ip ≡ none)
            × ((a : String) → ip ≡ some a → s.is_private_ip a ≡ false → s.is_listed a ≢ true))
  unfolding blocked check_blocklist
  blocked_cases none = inr (refl, λ a h. absurd (ground arith))
  blocked_cases (some a) = elim (Bool-cases (s.is_private_ip a)) [
    | inl private ↦ inr (ground arith, λ b h. ground arith)
    | inr public ↦ elim (Bool-cases (s.is_listed a)) [
      | inl on ↦ inl (ground arith, (a, refl, public, on))
      | inr off ↦ inr (ground arith, λ b h. ground arith)
    ]
  ]

  other_behavior : (b : Option String) (name : String) → b ≢ some name → is_behavior b name ≡ false
  unfolding is_behavior
  other_behavior none name h = refl
  other_behavior (some b) name h = elim (Bool-cases (b == name)) [
    | inl same ↦ absurd (h (ap some ((text_test.test_iff b name).0 same)))
    | inr differs ↦ differs
  ]

  quiet_lem :
      (r : Request)
      → IsLow r
      → r.behavior ≢ some "port_scan"
      → r.behavior ≢ some "flood"
      → is_quiet c r ≡ true
  unfolding threshold_of
  quiet_lem r low scan flood =
      ground
        (arith, other_behavior r.behavior "port_scan" scan, other_behavior r.behavior "flood" flood)

  skipped_lem :
      (w : W) (r : Request)
      → (r.skip_heavy ≡ true) ⊎ (percent 75 < r.queue_pressure)
      → enrich s c w r
        ≡ (w, some (only (blocked s c r.src_ip) (block_reasons (blocked s c r.src_ip))))
  unfolding enrich
  skipped_lem w r h = ground arith

  low_lem :
      (w : W) (r : Request)
      → is_quiet c r ≡ true
      → blocked s c r.src_ip ≡ none
      → enrich s c w r ≡ (w, some (only none []))
  unfolding enrich
  low_lem w r quiet out = ground (arith, quiet, out)

  -- What `enrich` answers when it asks nobody.
  abbrev pub Answers : W → Request → Type 0
  Answers w r =
      ((enrich s c w r).0 ≡ w)
      × ((IsListed r
            × ((enrich s c w r).1 ≡ some (only (some listed) ("reputation_ip_malicious" ∷ []))))
          ⊎ ((¬ IsListed r) × ((enrich s c w r).1 ≡ some (only none []))))

  -- If heavy enrichment is skipped, or the queue is more than three quarters full, or the score is
  -- below a threshold that applies and the event is no scan and no flood and its source is not listed,
  -- then `enrich` asks no service and caches nothing. It answers with the entry of the blocklist and its
  -- reason if the source is listed, and with nothing otherwise.
  pub services_left_alone :
      (w : W) (r : Request)
      → (r.skip_heavy ≡ true)
        ⊎ ((percent 75 < r.queue_pressure)
            ⊎ (IsLow r
                × (r.behavior ≢ some "port_scan")
                × (r.behavior ≢ some "flood")
                × ¬ IsListed r))
      → Answers w r
  services_left_alone w r h = elim (blocked_cases r.src_ip) [
    | inl (is, on) ↦ elim h [
      | inl skip ↦ listed_answer on (skipped_lem w r (inl skip) ∙ ap from_block is)
      | inr (inl high) ↦ listed_answer on (skipped_lem w r (inr high) ∙ ap from_block is)
      | inr (inr (low, scan, flood, off)) ↦ absurd (off on)
    ]
    | inr (is, out) ↦
        let off : ¬ IsListed r = λ (a, src, public, on). out a src public on in
        elim h [
          | inl skip ↦ other_answer off (skipped_lem w r (inl skip) ∙ ap from_block is)
          | inr (inl high) ↦ other_answer off (skipped_lem w r (inr high) ∙ ap from_block is)
          | inr (inr (low, scan, flood, _)) ↦
              other_answer off (low_lem w r (quiet_lem r low scan flood) is)
        ]
  ]
    where
      from_block : Option Enrichment → W × Option Intel
      from_block b = (w, some (only b (block_reasons b)))

      listed_answer :
          IsListed r
          → enrich s c w r ≡ (w, some (only (some listed) ("reputation_ip_malicious" ∷ [])))
          → Answers w r
      listed_answer on e = (ap (λ x. x.0) e, inl (on, ap (λ x. x.1) e))

      other_answer : ¬ IsListed r → enrich s c w r ≡ (w, some (only none [])) → Answers w r
      other_answer off e = (ap (λ x. x.0) e, inr (off, ap (λ x. x.1) e))

  module _ (url : String) (uncached : (w : W) → s.get_ti_cache w url url_kind ≡ none)
      (fails : (w : W) → (s.lookup w url url_kind).1 ≡ failed) where
    ask_raises : (w : W) (prefix : String) → (ask s c w url url_kind prefix).1 ≡ none
    unfolding ask cached_lookup reputation keep_answer checked_verdict
    ask_raises w prefix = ground (arith, uncached w, fails w, fails (s.lookup w url url_kind).0)

    -- If the URL of an event is not cached and its lookup raises, then `enrich` raises for a listed
    -- source, unless the pressure is high or heavy enrichment is skipped.
    pub failed_url_raises :
        (w : W) (r : Request) (ip : String)
        → r.url ≡ some url
        → r.src_ip ≡ some ip
        → blocked s c r.src_ip ≡ some listed
        → skips r ≡ false
        → (enrich s c w r).1 ≡ none
    unfolding enrich full_lookup after_found enrich_ip after_ip enrich_url after_url
    failed_url_raises w r ip is_url is_src is_listed full =
        ground (arith, ask_raises w "reputation_url_")
