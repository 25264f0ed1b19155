-- ===== src/Burst/Report.antt =====
-- What alerts/dangerous_burst.py computes for the email from the bucket: counters, trend, severity
-- and the suggested action.
use ids_bachelor_thesis.Prelude.{
  ℕ, ◌+◌, ◌-◌, ◌*◌, Bool, true, false, ◌||◌, ◌&&◌, String, Option, none, some, List, [], ◌∷◌,
  text_test, list_test, number_test, ◌==◌, length, keep, ltb, leb, max, Ratio, if◌then◌else◌,
}
use ids_bachelor_thesis.Dict.{Dict, get, insert}
use ids_bachelor_thesis.Text.{is_lower_of}
use ids_bachelor_thesis.Burst.Defs.{Entry, Technique, Kind, fast, slow, nonempty, add_new, last_of}

abbrev pub count_of : Option ℕ → ℕ
count_of none = 0
count_of (some n) = n

-- `counter[k] += 1`, where there is a key
unfoldable pub tick : Option String → Dict String ℕ → Dict String ℕ
tick none d = d
tick (some k) d = insert d k (count_of (get d k) + 1)

unfoldable pub merge_types : List (List ℕ) → List (List ℕ) → List (List ℕ)
merge_types merged [] = merged
merge_types merged (t ∷ ts) = merge_types (add_new t merged) ts

unfoldable pub add_techniques : Dict String Technique → List Technique → Dict String Technique
add_techniques d [] = d
add_techniques d (t ∷ ts) =
    add_techniques (if t.technique == "" then d else insert d t.technique t) ts

-- The counters over a bucket.
pub record Summary : Type 0 where
  pub merged : List (List ℕ)
  pub dst_counter : Dict String ℕ
  pub url_counter : Dict String ℕ
  pub mitre_entries : Dict String Technique

unfoldable pub absorb : Summary → Entry → Summary
unfolding merge_types add_techniques
absorb s e = record {
  merged = merge_types s.merged e.types;
  dst_counter = tick (nonempty e.context.dst_ip) s.dst_counter;
  url_counter = tick (nonempty e.context.url) s.url_counter;
  mitre_entries = add_techniques s.mitre_entries e.context.mitre;
}

unfoldable pub summarize : Summary → List Entry → Summary
unfolding absorb
summarize s [] = s
summarize s (e ∷ es) = summarize (absorb s e) es

pub data Trend : Type 0 where
  new accelerating decelerating steady : Trend

-- `older * 1.5` and `older * 0.5` are compared after doubling.
unfoldable pub trend_of : (recent older : ℕ) → Trend
trend_of recent older =
    if older == 0 && ltb 0 recent
    then new
    else if ltb (older * 3) (recent * 2)
    then accelerating
    else if ltb (recent * 2) older
    then decelerating
    else steady

-- The bucket's recent entries are those of the newer half of the window.
unfoldable pub trend : (now window : ℕ) → List Entry → Trend
unfolding trend_of
trend now window bucket =
    let recent = length (keep (λ e. leb (now * 2) (e.at * 2 + window)) bucket) in
    trend_of recent (length bucket - recent)

-- Events for each microsecond; the span is at least a second.
unfoldable pub velocity : List Entry → Ratio
velocity [] = record { num = 0; den = 1_000_000 }
velocity (e ∷ es) = elim (last_of (e ∷ es)) [
  | none ↦ record { num = 0; den = 1_000_000 }
  | some l ↦ record { num = length (e ∷ es); den = max 1_000_000 (l.at - e.at) }
]

pub data Tier : Type 0 where
  critical high elevated info : Tier

-- The verdict of a cached reputation, if one is there.
abbrev is_malicious : Option String → Bool
is_malicious none = false
is_malicious (some verdict) = is_lower_of verdict "malicious"

unfoldable pub severity_tier : (count threshold : ℕ) → Option String → Bool → Tier
severity_tier count threshold verdict internal =
    let base = max threshold 1 in
    if is_malicious verdict
    then critical
    else if leb (base * 10) count
    then critical
    else if internal || leb (base * 3) count
    then high
    else if leb (base * 12) (count * 10)
    then elevated
    else info

pub data Action : Type 0 where
  isolate_host investigate_host block_now block_if_exposed monitor review_slow_scan log_only :
      Action

unfoldable pub suggested_action : Tier → Bool → Kind → Action
suggested_action critical true kind = isolate_host
suggested_action high true kind = investigate_host
suggested_action elevated true kind = investigate_host
suggested_action info true kind = investigate_host
suggested_action critical false kind = block_now
suggested_action high false kind = block_if_exposed
suggested_action elevated false kind = monitor
suggested_action info false slow = review_slow_scan
suggested_action info false fast = log_only
