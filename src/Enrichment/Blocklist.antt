-- ===== src/Enrichment/Blocklist.antt =====
-- What `enrich` reports of an address on the blocklist, and what follows for the analysis.
use ids_bachelor_thesis.Prelude.{
  ◌≤◌, ◌≡◌, refl, inl, inr, Bool, true, false, not, ◌&&◌, String, Option, none, some, List, [], ◌∷◌,
  ◌++◌, subst, if◌then◌else◌, text_test, Bool-cases, Option-cases,
}
use ids_bachelor_thesis.Dict.{contains}
use ids_bachelor_thesis.Text.{is_lower_of}
use ids_bachelor_thesis.Analysis.Signals.{percent}
use ids_bachelor_thesis.Analysis.Risk.{Enrichment, Zeek}
use ids_bachelor_thesis.Analysis.Risk
use ids_bachelor_thesis.Analysis.Classify.{dangerous}
use ids_bachelor_thesis.Analysis.Packet.{Packet, Intel, add_reasons, analyze_packet, conclude}
use ids_bachelor_thesis.Analysis.Verdicts.{malicious_is_dangerous}
use ids_bachelor_thesis.Enrichment.Defs.{
  Services, Config, Request, listed, check_blocklist, blocked, skips, is_quiet, block_reasons, only,
  zeek_reasons, enrich_ip, enrich_url, enrich_zeek, finish, after_ip, after_found, full_lookup,
  enrich,
}

-- The reasons begin with the one for a listed address.
abbrev pub Starts : List String → Type 0
Starts [] = ⊥
Starts (r ∷ rs) = r ≡ "reputation_ip_malicious"

if-Starts :
    (b : Bool) (rs rs' : List String) → Starts rs → Starts rs' → Starts (if b then rs else rs')
if-Starts true rs rs' h h' = h
if-Starts false rs rs' h h' = h'

append-Starts : (rs new : List String) → Starts rs → Starts (rs ++ new)
append-Starts [] new h = elim h [ ]
append-Starts (r ∷ rs) new h = h

add_reasons-Starts : (new rs : List String) → Starts rs → Starts (add_reasons rs new)
unfolding add_reasons
add_reasons-Starts [] rs h = h
add_reasons-Starts (r ∷ new) rs h =
    add_reasons-Starts new (if contains rs r then rs else rs ++ r ∷ [])
      (if-Starts (contains rs r) rs (rs ++ r ∷ []) h (append-Starts rs (r ∷ []) h))

zeek_reasons-Starts :
    (rs : List String) (r : Option String) (new : List String)
    → Starts rs
    → Starts (zeek_reasons rs r new)
unfolding zeek_reasons
zeek_reasons-Starts rs none new h = add_reasons-Starts new rs h
zeek_reasons-Starts rs (some r) new h =
    add_reasons-Starts new (rs ++ r ∷ []) (append-Starts rs (r ∷ []) h)

abbrev pub nothing_given : Intel
nothing_given = only none []

and_false : (b : Bool) → (b && false) ≡ false
and_false true = refl
and_false false = refl

-- The answer carries the entry of the blocklist, and says so, if there is one.
abbrev Reported : Option Intel → Type 0
Reported none = Unit
Reported (some intel) = (intel.ti_ip ≡ some listed) × Starts intel.ti_reasons

module _ {W : Type 0} (s : Services W) (c : Config) where
  enrich_zeek-Starts :
      (w : W) (ip : Option String) (rs : List String)
      → Starts rs
      → Starts (enrich_zeek s c w ip rs).2
  unfolding enrich_zeek
  enrich_zeek-Starts w none rs h = h
  enrich_zeek-Starts w (some ip) rs h =
      elim (Bool-cases (s.zeek_available && not (s.is_private_ip ip))) [
        | inl asked ↦ rw asked (elim (Option-cases (s.zeek_lookup w ip).1) [
          | inl raised ↦ rw raised h
          | inr (a, found) ↦ rw found (zeek_reasons-Starts rs a.reason a.signals h)
        ])
        | inr skipped ↦ rw skipped h
      ]

  finish-Reported :
      (w : W) (r : Request) (ti_url : Option Enrichment) (rs : List String)
      → Starts rs
      → Reported (finish s c w r (some listed) ti_url rs).1
  unfolding finish
  finish-Reported w r ti_url rs h = (refl, enrich_zeek-Starts w r.src_ip rs h)

  after_ip-Reported :
      (w : W) (r : Request) (rs : List String)
      → Starts rs
      → Reported (after_ip s c w r (some listed) rs).1
  unfolding after_ip
  after_ip-Reported w r rs h = elim (Option-cases (enrich_url s c w r (some listed)).1) [
    | inl raised ↦ rw (raised, Reported) tt
    | inr (found, e) ↦ rw e (
        finish-Reported (enrich_url s c w r (some listed)).0 r found.0 (rs ++ found.1)
          (append-Starts rs found.1 h))
  ]

  module _ (ip : String) (r : Request) (is_src : r.src_ip ≡ some ip)
      (public : s.is_private_ip ip ≡ false) (on_list : s.is_listed ip ≡ true) where
    blocked-listed : blocked s c r.src_ip ≡ some listed
    unfolding blocked check_blocklist
    blocked-listed = rw (is_src, public, on_list) refl

    enrich-Reported : (w : W) → Reported (enrich s c w r).1
    unfolding enrich full_lookup after_found enrich_ip
    enrich-Reported w = rw blocked-listed (elim (Bool-cases (skips r)) [
      | inl skipped ↦ rw skipped (refl, refl)
      | inr full ↦
          rw (full, is_src, and_false (is_quiet c r))
            (after_ip-Reported w (record r { src_ip = some ip }) (block_reasons (some listed)) refl)
    ])

    -- If the source is a public address on the blocklist, then whatever the pressure, the scores
    -- and the services: an answer of `enrich` carries the entry of the blocklist and its first
    -- reason says so, and `analyze_packet` with this answer says dangerous, if the dangerous threshold is at
    -- most 0.88.
    pub listed_address_is_dangerous :
        (w : W) (intel : Intel)
        → (enrich s c w r).1 ≡ some intel
        → (risks : Risk.Config) (trusted : Bool) (packet : Packet)
        → risks.dangerous_threshold ≤ percent 88
        → (intel.ti_ip ≡ some listed)
          × Starts intel.ti_reasons
          × ((analyze_packet risks trusted packet nothing_given (λ _. intel)).classification
              ≡ dangerous)
    unfolding analyze_packet conclude is_lower_of
    listed_address_is_dangerous w intel e risks trusted packet low =
        let (carried, says) = subst Reported e (enrich-Reported w) in
        (
          carried,
          says,
          malicious_is_dangerous risks trusted packet nothing_given (λ _. intel) listed
              (inl carried) (inl refl) low,
        )
