-- ===== src/Burst/Defs.antt =====
-- The state of alerts/dangerous_burst.py and `maybe_alert_dangerous_burst` up to the decision to
-- send. Times are in microseconds and risk scores in millionths.
use ids_bachelor_thesis.Prelude.{
  ℕ, ◌+◌, ◌%◌, Bool, true, false, String, Option, none, some, List, [], ◌∷◌, ◌++◌, HasEq,
  number_test, text_test, ◌==◌, list_test, list_eqb, length, keep, ltb, leb, max, if◌then◌else◌,
}
use ids_bachelor_thesis.Text.{is_lower_of, strip}
use ids_bachelor_thesis.Dict.{Dict, get, insert, pop_all, keys_where}

pub record Config : Type 0 where
  pub window : ℕ
  pub threshold : ℕ
  pub dedup : ℕ
  pub dangerous_risk : ℕ
  pub slow_risk : ℕ
  pub slow_threshold : ℕ
  pub global_dedup : ℕ
  pub evict_every : ℕ

-- `_MAX_IDLE_SEC`
abbrev pub max_idle : Config → ℕ
max_idle c = max c.window c.dedup

pub record Technique : Type 0 where
  pub technique : String
  pub tactic : String
  pub name : String

pub record Context : Type 0 where
  pub dst_ip : Option String
  pub dst_port : Option ℕ
  pub url : Option String
  pub mitre : List Technique

-- One item of a source's bucket.
pub record Entry : Type 0 where
  pub at : ℕ
  pub types : List (List ℕ)
  pub context : Context

-- One call: `techniques` are the entries of `mitre` that are dicts with a technique.
pub record Event : Type 0 where
  pub src_ip : Option String
  pub classification : Option String
  pub risk_score : Option ℕ
  pub reasons : List (List ℕ)
  pub dst_ip : Option String
  pub dst_port : Option ℕ
  pub url : Option String
  pub techniques : List Technique

pub data Kind : Type 0 where
  fast slow : Kind

pub record Burst : Type 0 where
  pub events : Dict String (List Entry)
  pub last_email : Dict String ℕ
  pub evict_counter : ℕ
  pub last_global_send : ℕ
  pub global_suppressed : ℕ

abbrev pub start : Burst
start = record {
  events = [];
  last_email = [];
  evict_counter = 0;
  last_global_send = 0;
  global_suppressed = 0;
}

-- What is decided under the lock when an email goes out.
pub record Alert : Type 0 where
  pub src_ip : String
  pub kind : Kind
  pub at : ℕ
  pub bucket : List Entry
  pub count : ℕ
  pub threshold : ℕ
  pub suppressed : ℕ

-- `(s or "").lower() == word`, for a word that is not empty
abbrev named : Option String → String → Bool
named none word = false
named (some s) word = is_lower_of s word

abbrev of_risk : Config → Option ℕ → Option Kind
of_risk c none = none
of_risk c (some r) =
    if leb c.dangerous_risk r then some fast else if leb c.slow_risk r then some slow else none

unfoldable pub burst_eligible : Config → Option String → Option ℕ → Option Kind
burst_eligible c classification risk_score =
    if named classification "dangerous"
    then some fast
    else if named classification "suspicious"
    then of_risk c risk_score
    else none

-- Membership in a set, and `set.add`.
unfoldable pub has {ℓ} : {A : Type ℓ} ⦃e : HasEq A⦄ → List A → A → Bool
has [] a = false
has (x ∷ xs) a = if x == a then true else has xs a

unfoldable pub add_new {ℓ} : {A : Type ℓ} ⦃e : HasEq A⦄ → A → List A → List A
unfolding has
add_new a xs = if has xs a then xs else xs ++ a ∷ []

-- The reasons that are not blank, stripped, each once.
unfoldable pub threat_types : List (List ℕ) → List (List ℕ)
unfolding strip
threat_types [] = []
threat_types (r ∷ rs) =
    let rest = threat_types rs in if list_eqb (strip r) [] then rest else add_new (strip r) rest

unfoldable pub event_context : Event → Context
event_context e = record {
  dst_ip = e.dst_ip;
  dst_port = e.dst_port;
  url = e.url;
  mitre = e.techniques;
}

-- The last item, `events[-1]`.
abbrev pub last_of {ℓ} : {A : Type ℓ} → List A → Option A
last_of [] = none
last_of (x ∷ []) = some x
last_of (x ∷ y ∷ xs) = last_of (y ∷ xs)

-- `not events or events[-1][0] < stale_cutoff`, the cutoff `now - _MAX_IDLE_SEC`
abbrev pub is_idle : Config → ℕ → List Entry → Bool
is_idle c now bucket = elim (last_of bucket) [ none ↦ true | some e ↦ ltb (e.at + max_idle c) now ]

unfoldable pub evict_idle : Config → ℕ → Burst → Burst
evict_idle c now b =
    let stale_ips = keys_where (is_idle c now) b.events in
    record b { events = pop_all b.events stale_ips; last_email = pop_all b.last_email stale_ips }

abbrev pub bucket_of : Burst → String → List Entry
bucket_of b ip = elim (get b.events ip) [ none ↦ [] | some bucket ↦ bucket ]

abbrev pub last_email_of : Burst → String → ℕ
last_email_of b ip = elim (get b.last_email ip) [ none ↦ 0 | some t ↦ t ]

-- The counter, and the eviction that it calls for.
unfoldable pub count_call : Config → ℕ → Burst → Burst
count_call c now b =
    let b' = record b { evict_counter = b.evict_counter + 1 } in
    if (b.evict_counter + 1) % c.evict_every == 0 then evict_idle c now b' else b'

-- The bucket with the new entry, cut to the window.
unfoldable pub add_entry : Config → ℕ → String → Entry → Burst → Burst
add_entry c now ip e b = record b {
  events = insert b.events ip (keep (λ x. leb now (x.at + c.window)) (bucket_of b ip ++ e ∷ []));
}

abbrev pub threshold_of : Config → Kind → ℕ
threshold_of c fast = c.threshold
threshold_of c slow = c.slow_threshold

-- The guards and the bookkeeping of a send, once the entry is in its bucket.
unfoldable pub decide : Config → ℕ → String → Kind → Burst → Burst × Option Alert
decide c now ip kind b =
    let bucket = bucket_of b ip in
    if leb (length bucket) (threshold_of c kind)
    then (b, none)
    else if ltb now (last_email_of b ip + c.dedup)
    then (b, none)
    else if ltb now (b.last_global_send + c.global_dedup)
    then (record b { global_suppressed = b.global_suppressed + 1 }, none)
    else (
      record b {
        last_global_send = now;
        last_email = insert b.last_email ip now;
        global_suppressed = 0;
      },
      some (record {
        src_ip = ip;
        kind = kind;
        at = now;
        bucket = bucket;
        count = length bucket;
        threshold = threshold_of c kind;
        suppressed = b.global_suppressed;
      }),
    )

-- The body of the call for a source and a kind.
unfoldable pub record_event : Config → ℕ → String → Kind → Event → Burst → Burst × Option Alert
record_event c now ip kind e b = decide c now ip kind (
    add_entry c now ip
      (record { at = now; types = threat_types e.reasons; context = event_context e })
      (count_call c now b))

abbrev pub nonempty : Option String → Option String
nonempty none = none
nonempty (some s) = if s == "" then none else some s

unfoldable pub maybe_alert_dangerous_burst : Config → ℕ → Event → Burst → Burst × Option Alert
maybe_alert_dangerous_burst c now e b = elim (nonempty e.src_ip) [
  | none ↦ (b, none)
  | some ip ↦ elim (burst_eligible c e.classification e.risk_score) [
    | none ↦ (b, none)
    | some kind ↦ record_event c now ip kind e b
  ]
]
