-- ===== src/Dns/Shard.antt =====
-- What a query leaves in the table of its shard.
use ids_bachelor_thesis.Prelude.{
  ℕ, ◌≤◌, ◌<◌, ◌≡◌, refl, ap, ◌∙◌, ◌==◌, ◌||◌, String, text_test, number_test, list_test, false,
  Option, none, some, List, [], arith, length, inl, inr, Bool-cases,
}
use ids_bachelor_thesis.Dict.{get, insert}
use ids_bachelor_thesis.Dict.Laws.{get-insert, get-evict, length-insert}
use ids_bachelor_thesis.Deque.{newest}
use ids_bachelor_thesis.Text.{strip}
use ids_bachelor_thesis.Dns.Defs.{
  Query, Shard, evict_at, is_stale, open_activity, record_query, judge, query_of, detect_dns,
}

judge-table : (m : Shard) (snapshot : List Query) (o : Option Query) → (judge m snapshot o).0 ≡ m
judge-table m snapshot none = refl
judge-table m snapshot (some last) = refl

record_query-full :
    (now : ℕ) (src : String) (q : Query) (m : Shard)
    → get m src ≡ none
    → evict_at ≤ length m
    → get (record_query now src q m).0 src ≡ none
unfolding record_query open_activity is_stale newest
record_query-full now src q m new full = ground (
  arith,
  length-insert m src [],
  get-insert m src [] src,
  text_test.test_iff src src,
  get-evict (is_stale now) (insert m src []) src,
)

record_query-others :
    (now : ℕ) (src : String) (q : Query) (m : Shard) (other : String)
    → (src == other) ≡ false
    → length m < evict_at
    → get (record_query now src q m).0 other ≡ get m other
unfolding record_query open_activity
record_query-others now src q m other differs room = ground (
  arith,
  length-insert m src [],
  get-insert m src [] other,
  get-insert (open_activity now src m) src (record_query now src q m).1 other,
)

-- A query changes nothing of the queries kept for another source, while the shard has room.
pub detect_dns-others :
    (entropy : List ℕ → ℕ) (now : ℕ) (src : String) (qname qtype : List ℕ) (m : Shard)
    (other : String)
    → (src == other) ≡ false
    → length m < evict_at
    → get (detect_dns entropy now src qname qtype m).0 other ≡ get m other
unfolding detect_dns
detect_dns-others entropy now src qname qtype m other differs room =
    elim (Bool-cases (src == "" || strip qname == [])) [
      | inl missing ↦ rw missing refl
      | inr given ↦
          let q = query_of entropy now (strip qname) qtype in
          let (m', snapshot) = record_query now src q m in
          rw given (
            ap (λ t. get t other) (judge-table m' snapshot (newest snapshot))
            ∙ record_query-others now src q m other differs room)
    ]

-- In a shard that is full, nothing is kept of the queries of a new source: the cleaning drops the
-- empty deque that was made for it.
pub detect_dns-full :
    (entropy : List ℕ → ℕ) (now : ℕ) (src : String) (qname qtype : List ℕ) (m : Shard)
    → get m src ≡ none
    → evict_at ≤ length m
    → get (detect_dns entropy now src qname qtype m).0 src ≡ none
unfolding detect_dns
detect_dns-full entropy now src qname qtype m new full =
    elim (Bool-cases (src == "" || strip qname == [])) [
      | inl missing ↦ rw missing new
      | inr given ↦
          let q = query_of entropy now (strip qname) qtype in
          let (m', snapshot) = record_query now src q m in
          rw given (
            ap (λ t. get t src) (judge-table m' snapshot (newest snapshot))
            ∙ record_query-full now src q m new full)
    ]
