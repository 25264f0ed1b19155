-- ===== src/Statistics/Defs.antt =====
-- The live counters of storage/persistence.py, their copy in storage/memory_store.py, and the one
-- row of the database. A set of texts is a list in which nothing repeats; a text is a list of code
-- points. Whether a write to the database succeeds, or a read, is an argument.
use ids_bachelor_thesis.Prelude.{
  ℕ, ◌+◌, ◌==◌, list_test, number_test, Bool, true, false, Option, none, some, List, [], ◌∷◌, ◌++◌,
  has, length, map, ltb, if◌then◌else◌,
}
use ids_bachelor_thesis.Text.{set_of, sorted, codes, to_lower}

abbrev pub Texts : Type 0
Texts = List (List ℕ)

pub record Stats : Type 0 where
  pub total : ℕ
  pub safe : ℕ
  pub suspicious : ℕ
  pub dangerous : ℕ
  pub unique_attackers : Texts
  pub dangerous_ips : Texts
  pub dangerous_urls : Texts

abbrev pub no_stats : Stats
no_stats = record {
  total = 0;
  safe = 0;
  suspicious = 0;
  dangerous = 0;
  unique_attackers = [];
  dangerous_ips = [];
  dangerous_urls = [];
}

-- What a process holds: `_live_stats`, `memory_store.stats` and `_last_stats_persist`; `row` is the
-- row of the database that the processes share.
pub record Store : Type 0 where
  pub live : Stats
  pub mirror : Stats
  pub last_persist : ℕ
  pub row : Option Stats

abbrev pub mirrored : Store → Store
mirrored s = record s { mirror = s.live }

-- `_persist_statistics_unlocked`
unfoldable pub persist : (ok : Bool) → Store → Store
persist ok s = if ok then record s { row = some s.live } else s

-- `_maybe_persist_statistics`; `interval` is `_STATS_PERSIST_INTERVAL`.
unfoldable pub maybe_persist : (interval now : ℕ) → (ok : Bool) → Store → Store
unfolding persist
maybe_persist interval now ok s =
    if ltb now (s.last_persist + interval) then s else persist ok (record s { last_persist = now })

-- With no row, one of zeros is made, and the counters stay.
unfoldable pub restore_statistics : Store → Store
restore_statistics s = elim s.row [
  | none ↦ record s { row = some no_stats }
  | some row ↦ record s { live = row; mirror = row }
]

unfoldable pub record_captured_event : (interval now : ℕ) → (ok : Bool) → Store → Store
unfolding maybe_persist
record_captured_event interval now ok s =
    maybe_persist interval now ok
      (mirrored (record s { live = record s.live { total = s.live.total + 1 } }))

pub data Label : Type 0 where
  safe suspicious dangerous : Label

abbrev pub label_of : List ℕ → Label
label_of name =
    if map to_lower name == codes "suspicious"
    then suspicious
    else if map to_lower name == codes "dangerous"
    then dangerous
    else safe

-- `set.add` of a text that is there and is not empty
abbrev pub add_text : Option (List ℕ) → Texts → Texts
add_text none xs = xs
add_text (some x) xs = if x == [] then xs else if has x xs then xs else xs ++ x ∷ []

unfoldable pub count_label : Label → (src_ip url : Option (List ℕ)) → Stats → Stats
count_label safe src_ip url t = record t { safe = t.safe + 1 }
count_label suspicious src_ip url t = record t { suspicious = t.suspicious + 1 }
count_label dangerous src_ip url t = record t {
  dangerous = t.dangerous + 1;
  unique_attackers = add_text src_ip t.unique_attackers;
  dangerous_ips = add_text src_ip t.dangerous_ips;
  dangerous_urls = add_text url t.dangerous_urls;
}

-- The row that `upsert_dangerous_ip` writes for the address afterwards is left out.
unfoldable pub record_analysis_result :
    (interval now : ℕ) → (ok : Bool) → Label → (src_ip url : Option (List ℕ)) → Store → Store
unfolding maybe_persist count_label
record_analysis_result interval now ok label src_ip url s =
    maybe_persist interval now ok
      (mirrored (record s { live = count_label label src_ip url s.live }))

-- A member of what a sensor sends: missing, one that `int` refuses, or a number; a set is missing,
-- no list, or its items as texts.
pub data Count : Type 0 where
  absent refused : Count
  number : ℕ → Count

pub record Incoming : Type 0 where
  pub total : Count
  pub safe : Count
  pub suspicious : Count
  pub dangerous : Count
  pub unique_attackers : Option Texts
  pub dangerous_ips : Option Texts
  pub dangerous_urls : Option Texts

abbrev pub put_count : Count → (ℕ → Stats → Stats) → Stats × Bool → Stats × Bool
put_count c put (t, false) = (t, false)
put_count absent put (t, true) = (t, true)
put_count refused put (t, true) = (t, false)
put_count (number n) put (t, true) = (put n t, true)

abbrev pub put_set : Option Texts → Texts → Texts
put_set none old = old
put_set (some xs) old = set_of xs

-- The counts in their order, up to one that raises.
unfoldable pub put_counts : Incoming → Stats → Stats × Bool
put_counts i t =
    put_count i.dangerous (λ n u. record u { dangerous = n })
      (put_count i.suspicious (λ n u. record u { suspicious = n })
        (put_count i.safe (λ n u. record u { safe = n })
          (put_count i.total (λ n u. record u { total = n }) (t, true))))

unfoldable pub put_sets : Incoming → Stats → Stats
unfolding set_of
put_sets i t = record t {
  unique_attackers = put_set i.unique_attackers t.unique_attackers;
  dangerous_ips = put_set i.dangerous_ips t.dangerous_ips;
  dangerous_urls = put_set i.dangerous_urls t.dangerous_urls;
}

-- `apply_telemetry_stats`; a count that raises leaves the ones before it, and writes nothing.
unfoldable pub apply_telemetry_stats : (ok : Bool) → Incoming → Store → Store
unfolding persist put_counts put_sets
apply_telemetry_stats ok i s =
    let (t, fine) = put_counts i s.live in
    if fine then persist ok (record s { live = put_sets i t }) else record s { live = t }

unfoldable pub sync_stats_from_persistence : Store → Store
sync_stats_from_persistence s = mirrored s

-- What the dashboard gets.
pub record Payload : Type 0 where
  pub total : ℕ
  pub safe : ℕ
  pub suspicious : ℕ
  pub dangerous : ℕ
  pub unique_attackers : ℕ
  pub dangerous_ips : Texts
  pub dangerous_urls : Texts

unfoldable pub payload_of : Stats → Payload
unfolding sorted
payload_of t = record {
  total = t.total;
  safe = t.safe;
  suspicious = t.suspicious;
  dangerous = t.dangerous;
  unique_attackers = length t.unique_attackers;
  dangerous_ips = sorted t.dangerous_ips;
  dangerous_urls = sorted t.dangerous_urls;
}

abbrev pub load_from : Store → Option Stats → Store × Option Payload
load_from s none = (s, some (payload_of no_stats))
load_from s (some row) = (record s { live = row }, some (payload_of row))

-- The row is the authority: the live counters are taken from it. A read that fails raises.
unfoldable pub load_statistics_for_api : (readable : Bool) → Store → Store × Option Payload
unfolding payload_of
load_statistics_for_api readable s = if readable then load_from s s.row else (s, none)
