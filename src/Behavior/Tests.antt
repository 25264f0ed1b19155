-- ===== src/Behavior/Tests.antt =====
-- Floods and scans at small thresholds.
use mathlib.Core.List.{reverse}
use ids_bachelor_thesis.Prelude.{text_test, ℕ, ◌≡◌, refl, none, some, [], ◌∷◌, arith}
use ids_bachelor_thesis.Dict.{get}
use ids_bachelor_thesis.Deque
use ids_bachelor_thesis.Deque.{trim}
use ids_bachelor_thesis.Behavior.Defs.{
  Config, Event, Shard, port_scan, add_port, detect_in_shard, record_activity, open_activity, scan,
}
use ids_bachelor_thesis.Behavior.Scan.{Says}
use ids_bachelor_thesis.Behavior.Shard.{detect_reports_counts, full_shard_forgets}

abbrev config : Config
config = record {
  flood_threshold = 3;
  flood_window = 10;
  port_scan_threshold = 3;
  port_scan_window = 20;
  shards = 16;
  shard_capacity = 1;
}

abbrev seen : ℕ → ℕ → Event
seen t p = record { time = t; dst_port = some p }

abbrev shard : Shard
shard = ("a", seen 70 1 ∷ seen 95 22 ∷ seen 96 80 ∷ []) ∷ []

scan_found : (detect_in_shard config 100 "a" (some 443) shard).1 ≡ some port_scan
unfolding detect_in_shard record_activity open_activity scan add_port get trim Deque.append
scan_found = refl

detect_reports_counts_example :
    Says config 100
      (detect_in_shard config 100 "a" (some 443) shard).1
      (reverse (record_activity config 100 "a" (some 443) shard).1)
      0
      []
unfolding get
detect_reports_counts_example =
    detect_reports_counts config 100 "a" (some 443) shard (omega arith) (omega arith)

full_shard_forgets_example : get (detect_in_shard config 100 "b" (some 443) shard).0 "b" ≡ none
unfolding get
full_shard_forgets_example = full_shard_forgets config 100 "b" (some 443) shard refl (omega arith)
