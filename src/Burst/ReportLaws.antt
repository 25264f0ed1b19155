-- ===== src/Burst/ReportLaws.antt =====
-- The counters are exact, the severity never falls when the burst grows, and only a faint external
-- burst is left without an action.
use ids_bachelor_thesis.Prelude.{
  ℕ, ◌+◌, ◌≤◌, ◌≡◌, ◌↔◌, Bool, true, false, String, Option, none, some, List, [], ◌∷◌, arith,
  text_test, ◌==◌, if◌then◌else◌,
}
use ids_bachelor_thesis.Dict.{Dict, get}
use ids_bachelor_thesis.Dict.Laws.{get-insert}
use ids_bachelor_thesis.Burst.Defs.{Entry, Kind, fast, nonempty}
use ids_bachelor_thesis.Burst.Report.{
  count_of, tick, Summary, absorb, summarize, Tier, critical, high, elevated, info, severity_tier,
  suggested_action, log_only,
}

-- How many entries aim at `d`.
abbrev is_at : String → Option String → ℕ
is_at d none = 0
is_at d (some k) = if k == d then 1 else 0

pub aimed_at : String → List Entry → ℕ
aimed_at d [] = 0
aimed_at d (e ∷ es) = is_at d (nonempty e.context.dst_ip) + aimed_at d es

count-tick :
    (k : Option String) (c : Dict String ℕ) (d : String)
    → count_of (get (tick k c) d) ≡ is_at d k + count_of (get c d)
unfolding tick
count-tick none c d = omega arith
count-tick (some k) c d =
    ground (arith, get-insert c k (count_of (get c k) + 1) d, text_test.test_iff k d)

-- The counter of targets holds, for each address, how many entries of the bucket aim at it.
pub dst_counter_exact :
    (s : Summary) (bucket : List Entry) (d : String)
    → count_of (get (summarize s bucket).dst_counter d)
      ≡ aimed_at d bucket + count_of (get s.dst_counter d)
unfolding summarize aimed_at
dst_counter_exact s [] d = omega arith
dst_counter_exact s (e ∷ es) d = omega (
  arith,
  dst_counter_exact (absorb s e) es d,
  count-tick (nonempty e.context.dst_ip) s.dst_counter d,
)

abbrev pub rank : Tier → ℕ
rank info = 0
rank elevated = 1
rank high = 2
rank critical = 3

-- More events never lower the tier, and neither does an internal source.
pub severity_tier_mono :
    (count count' threshold : ℕ) (verdict : Option String) (internal : Bool)
    → count ≤ count'
    → (rank (severity_tier count threshold verdict internal)
        ≤ rank (severity_tier count' threshold verdict internal))
      × (rank (severity_tier count threshold verdict false)
          ≤ rank (severity_tier count threshold verdict true))
unfolding severity_tier
severity_tier_mono count count' threshold verdict internal le = ground arith

-- The alert recommends no action exactly for an external source at the lowest tier in a fast burst.
pub log_only_iff :
    (tier : Tier) (internal : Bool) (kind : Kind)
    → (suggested_action tier internal kind ≡ log_only)
      ↔ ((tier ≡ info) × (internal ≡ false) × (kind ≡ fast))
unfolding suggested_action
log_only_iff tier internal kind = ground arith
