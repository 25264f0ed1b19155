-- ===== src/Enrichment/Defs.antt =====
-- `enrich` of ids/threat_intel.py. The reputation services, the cache and Zeek are a record of
-- functions that pass a state on; scores have the units of Analysis/Risk.
use ids_bachelor_thesis.Prelude.{
  ℕ, ◌*◌, Bool, false, not, ◌&&◌, ◌||◌, String, Option, none, some, List, [], ◌∷◌, ◌++◌, ◌==◌,
  text_test, ltb, leb, max, if◌then◌else◌,
}
use ids_bachelor_thesis.Dict.{is_some}
use ids_bachelor_thesis.Text.{concat}
use ids_bachelor_thesis.Analysis.Signals.{Behavior, is_behavior, one, percent}
use ids_bachelor_thesis.Analysis.Risk.{Enrichment, Zeek, scale, at}
use ids_bachelor_thesis.Analysis.Packet.{Intel, add_reasons}

-- `lookup_ip` or `lookup_url` answers or raises.
pub data Lookup : Type 0 where
  answer : Enrichment → Lookup
  failed : Lookup

pub record ZeekAnswer : Type 0 where
  pub zeek : Zeek
  pub reason : Option String
  pub signals : List String

pub data CacheKind : Type 0 where
  ip_kind url_kind : CacheKind

-- What `enrich` calls. `get_ti_cache` and `set_ti_cache` of storage/persistence.py catch the exceptions
-- of the database, `is_private_ip` of intelligence/reputation.py that of a malformed address, and
-- `_load_blocklist` that of a file it cannot read, so these four answer; a failed read of the cache is a
-- miss. `lookup` raises, and so does `zeek_lookup`, which then answers none.
pub record Services (W : Type 0) : Type 0 where
  pub is_private_ip : String → Bool
  -- `ip in _load_blocklist()`
  pub is_listed : String → Bool
  pub get_ti_cache : W → String → CacheKind → Option Enrichment
  pub set_ti_cache : W → String → CacheKind → Enrichment → W
  pub lookup : W → String → CacheKind → W × Lookup
  pub zeek_available : Bool
  pub zeek_lookup : W → String → W × Option ZeekAnswer

pub record Config : Type 0 where
  pub min_score : ℕ
  pub full_enrich : ℕ

pub record Request : Type 0 where
  -- none where the text is missing or empty
  pub src_ip : Option String
  pub url : Option String
  pub ai_score : ℕ
  pub behavior : Behavior
  pub queue_pressure : ℕ
  pub skip_heavy : Bool
  pub model_trusted : Bool

unfoldable pub threshold_of : Config → Request → ℕ
threshold_of c r =
    let t = if r.model_trusted then c.min_score else max c.min_score (percent 40) in
    if ltb (percent 50) r.queue_pressure then max t (percent 50) else t

abbrev pub skips : Request → Bool
skips r = r.skip_heavy || ltb (percent 75) r.queue_pressure

abbrev pub is_quiet : Config → Request → Bool
is_quiet c r =
    ltb r.ai_score (scale * threshold_of c r)
    && not (is_behavior r.behavior "port_scan" || is_behavior r.behavior "flood")

-- `if rep and rep != "unknown": reasons.append(prefix + rep)`
unfoldable pub reputation_reason : String → String → List String
unfolding concat
reputation_reason prefix rep = if rep == "" || rep == "unknown" then [] else concat prefix rep ∷ []

abbrev pub listed : Enrichment
listed = record { score = at one; verdict = "malicious" }

abbrev is_bad : Option Enrichment → Bool
is_bad none = false
is_bad (some e) = e.verdict == "suspicious" || e.verdict == "malicious"

unfoldable pub zeek_reasons : List String → Option String → List String → List String
unfolding add_reasons
zeek_reasons reasons none signals = add_reasons reasons signals
zeek_reasons reasons (some r) signals = add_reasons (reasons ++ r ∷ []) signals

abbrev pub block_reasons : Option Enrichment → List String
block_reasons none = []
block_reasons (some e) = "reputation_ip_malicious" ∷ []

abbrev pub only : Option Enrichment → List String → Intel
only ti reasons = record { ti_ip = ti; ti_url = none; zeek = none; ti_reasons = reasons }

unfoldable pub checked_verdict : Lookup → Option String
checked_verdict (answer e) = some (if e.verdict == "" then "unknown" else e.verdict)
checked_verdict failed = none

module _ {W : Type 0} (s : Services W) (c : Config) where
  unfoldable pub check_blocklist : String → Option Enrichment
  check_blocklist ip = if s.is_listed ip then some listed else none

  unfoldable pub blocked : Option String → Option Enrichment
  unfolding check_blocklist
  blocked none = none
  blocked (some ip) = if s.is_private_ip ip then none else check_blocklist ip

  unfoldable pub keep_answer : W → String → CacheKind → Lookup → W × Option Enrichment
  keep_answer w key kind (answer e) = (s.set_ti_cache w key kind e, some e)
  keep_answer w key kind failed = (w, none)

  -- The cache first; an answer of a lookup is cached, an exception is not passed on.
  unfoldable pub cached_lookup : W → String → CacheKind → W × Option Enrichment
  unfolding keep_answer
  cached_lookup w key kind =
      let (w', found) = s.lookup w key kind in
      elim (s.get_ti_cache w key kind) [
        | some e ↦ (w, some e)
        | none ↦ keep_answer w' key kind found
      ]

  -- `check_ip` and `check_url` look up once more, and an exception is passed on.
  unfoldable pub reputation : W → String → CacheKind → Option Enrichment → W × Option String
  unfolding checked_verdict
  reputation w key kind (some e) = (w, some e.verdict)
  reputation w key kind none = let (w', found) = s.lookup w key kind in (w', checked_verdict found)

  -- An answer and what is appended to the reasons, or none where an exception leaves `enrich`.
  unfoldable pub ask :
      W → String → CacheKind → String → W × Option (Option Enrichment × List String)
  unfolding cached_lookup reputation reputation_reason
  ask w key kind prefix =
      let (w1, ti) = cached_lookup w key kind in
      let (w2, rep) = reputation w1 key kind ti in
      elim rep [ none ↦ (w2, none) | some v ↦ (w2, some (ti, reputation_reason prefix v)) ]

  unfoldable pub enrich_ip :
      W → Option String → Option Enrichment → W × Option (Option Enrichment × List String)
  unfolding ask
  enrich_ip w none block = (w, some (block, []))
  enrich_ip w (some ip) (some e) = (w, some (some e, []))
  enrich_ip w (some ip) none = ask w ip ip_kind "reputation_ip_"

  unfoldable pub enrich_url :
      W → Request → Option Enrichment → W × Option (Option Enrichment × List String)
  unfolding ask
  enrich_url w r ti_ip = elim r.url [
    | none ↦ (w, some (none, []))
    | some url ↦
        if leb (scale * c.full_enrich) r.ai_score || is_bad ti_ip
        then ask w url url_kind "reputation_url_"
        else (w, some (none, []))
  ]

  unfoldable pub enrich_zeek : W → Option String → List String → W × Option Zeek × List String
  unfolding zeek_reasons
  enrich_zeek w none reasons = (w, none, reasons)
  enrich_zeek w (some ip) reasons =
      let (w', found) = s.zeek_lookup w ip in
      if s.zeek_available && not (s.is_private_ip ip)
      then elim found [
        | none ↦ (w', none, reasons)
        | some a ↦ (w', some a.zeek, zeek_reasons reasons a.reason a.signals)
      ]
      else (w, none, reasons)

  unfoldable pub finish :
      W → Request → Option Enrichment → Option Enrichment → List String → W × Option Intel
  unfolding enrich_zeek
  finish w r ti_ip ti_url reasons =
      let (w', zeek, all) = enrich_zeek w r.src_ip reasons in
      (w', some (record { ti_ip = ti_ip; ti_url = ti_url; zeek = zeek; ti_reasons = all }))

  unfoldable pub after_url :
      W
      → Request
      → Option Enrichment
      → List String
      → Option (Option Enrichment × List String)
      → W × Option Intel
  unfolding finish
  after_url w r ti_ip reasons none = (w, none)
  after_url w r ti_ip reasons (some (ti_url, new)) = finish w r ti_ip ti_url (reasons ++ new)

  unfoldable pub after_ip : W → Request → Option Enrichment → List String → W × Option Intel
  unfolding enrich_url after_url
  after_ip w r ti_ip reasons =
      let (w', found) = enrich_url w r ti_ip in after_url w' r ti_ip reasons found

  unfoldable pub after_found :
      W → Request → List String → Option (Option Enrichment × List String) → W × Option Intel
  unfolding after_ip
  after_found w r reasons none = (w, none)
  after_found w r reasons (some (ti_ip, new)) = after_ip w r ti_ip (reasons ++ new)

  unfoldable pub full_lookup : W → Request → Option Enrichment → List String → W × Option Intel
  unfolding enrich_ip after_found
  full_lookup w r block reasons =
      let (w', found) = enrich_ip w r.src_ip block in after_found w' r reasons found

  unfoldable pub enrich : W → Request → W × Option Intel
  unfolding full_lookup blocked threshold_of
  enrich w r =
      let block = blocked r.src_ip in
      if skips r
      then (w, some (only block (block_reasons block)))
      else if is_quiet c r && not (is_some block)
      then (w, some (only none []))
      else full_lookup w r block (block_reasons block)
