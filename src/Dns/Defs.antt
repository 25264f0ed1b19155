-- ===== src/Dns/Defs.antt =====
-- `detect_dns` of engine/dns_behavior.py on the shard of a source. Times are microseconds; the entropy
-- of a name, in millionths, is a parameter, as it needs a logarithm.
use ids_bachelor_thesis.Prelude.{
  ℕ, ◌+◌, ◌==◌, number_test, text_test, list_test, Bool, true, false, not, ◌&&◌, ◌||◌, String,
  Option, none, some, List, [], ◌∷◌, ◌++◌, map, has, length, keep, ltb, leb, if◌then◌else◌,
}
use ids_bachelor_thesis.Dict.{Dict, get, insert, evict, is_some}
use ids_bachelor_thesis.Deque
use ids_bachelor_thesis.Deque.{trim, newest}
use ids_bachelor_thesis.Text.{codes, strip, to_upper, set_of}
use ids_bachelor_thesis.Dns.Names.{dot, base_domain}

pub record Query : Type 0 where
  pub time : ℕ
  pub qname : List ℕ
  pub qtype : List ℕ
  pub base : List ℕ
  pub entropy : ℕ

abbrev pub Shard : Type 0
Shard = Dict String (List Query)

pub data Reason : Type 0 where
  long_qname high_entropy_qname txt_query many_unique_queries txt_burst : Reason
  subdomain_churn tunnel_suspected : Reason

abbrev pub window : ℕ
window = 60_000_000

abbrev pub evict_at : ℕ
evict_at = 10_000

abbrev pub is_long : Query → Bool
is_long q = leb 60 (length q.qname)

-- 3.8 in millionths
abbrev pub is_high : Query → Bool
is_high q = leb 3_800_000 q.entropy

unfoldable pub is_stale : ℕ → List Query → Bool
unfolding newest
is_stale now dq = elim (newest dq) [ none ↦ true | some q ↦ ltb (q.time + window) now ]

-- A new source gets an empty deque, and a large table is cleaned then.
unfoldable pub open_activity : ℕ → String → Shard → Shard
unfolding is_stale
open_activity now src m =
    if is_some (get m src)
    then m
    else if ltb evict_at (length (insert m src []))
    then evict (is_stale now) (insert m src [])
    else insert m src []

abbrev pub activity_of : Shard → String → List Query
activity_of m src = elim (get m src) [ none ↦ [] | some dq ↦ dq ]

-- The table afterwards, and the snapshot that the heuristics read.
unfoldable pub record_query : ℕ → String → Query → Shard → Shard × List Query
unfolding open_activity
record_query now src q m =
    let m' = open_activity now src m in
    let dq = trim (λ e. ltb (e.time + window) now) (Deque.append 2000 q (activity_of m' src)) in
    (if is_some (get m' src) then insert m' src dq else m', dq)

-- `by_base[base].add(qname)`, over the snapshot
unfoldable pub group : List Query → Dict (List ℕ) (List (List ℕ)) → Dict (List ℕ) (List (List ℕ))
group [] bases = bases
group (q ∷ qs) bases = elim (get bases q.base) [
  | none ↦ group qs (insert bases q.base (q.qname ∷ []))
  | some names ↦
      group qs (insert bases q.base (if has q.qname names then names else names ++ q.qname ∷ []))
]

-- `max` keeps the first of the greatest.
unfoldable pub worst : Dict (List ℕ) (List (List ℕ)) → List ℕ × ℕ → List ℕ × ℕ
worst [] best = best
worst ((base, names) ∷ bases) (b, n) =
    if ltb n (length names) then worst bases (base, length names) else worst bases (b, n)

abbrev pub is_churn : List ℕ × ℕ → Bool
is_churn (base, n) = leb 25 n && not (base == [])

abbrev pub when : Bool → Reason → List Reason
when true r = r ∷ []
when false r = []

abbrev pub is_txt : Query → Bool
is_txt q = q.qtype == codes "TXT"

unfoldable pub reasons_for : (last : Query) → (snapshot : List Query) → List Reason
unfolding group worst set_of
reasons_for last snapshot =
    let unique = leb 40 (length (set_of (map (λ q. q.qname) snapshot))) in
    let burst = leb 15 (length (keep is_txt snapshot)) in
    let churn = is_churn (worst (group snapshot []) ([], 0)) in
    when (is_long last) long_qname
    ++ when (is_high last) high_entropy_qname
    ++ when (is_txt last && (is_high last || is_long last)) txt_query
    ++ when unique many_unique_queries
    ++ when burst txt_burst
    ++ when churn subdomain_churn
    ++ when ((is_high last && unique) || (churn && is_long last)) tunnel_suspected

abbrev pub judge : Shard → List Query → Option Query → Shard × List Reason
judge m snapshot none = (m, [])
judge m snapshot (some last) = (m, reasons_for last snapshot)

abbrev pub judged : Shard × List Query → Shard × List Reason
judged (m, snapshot) = judge m snapshot (newest snapshot)

abbrev pub query_of : (List ℕ → ℕ) → ℕ → (name qtype : List ℕ) → Query
query_of entropy now name qtype = record {
  time = now;
  qname = name;
  qtype = map to_upper qtype;
  base = base_domain name;
  entropy = entropy (keep (λ c. not (c == dot)) name);
}

-- An event with no name, or a source with none, is not recorded.
unfoldable pub detect_dns :
    (entropy : List ℕ → ℕ)
    → (now : ℕ) → (src : String) → (qname qtype : List ℕ) → Shard
    → Shard × List Reason
unfolding record_query reasons_for base_domain strip to_upper
detect_dns entropy now src qname qtype m =
    let name = strip qname in
    if src == "" || name == []
    then (m, [])
    else judged (record_query now src (query_of entropy now name qtype) m)
