-- ===== src/Flow/Tests.antt =====
-- Three packets of two flows.
use ids_bachelor_thesis.Prelude.{ℕ, number_test, true, false, some, List, [], ◌∷◌, ◌≡◌, refl, arith}
use ids_bachelor_thesis.Dict.{get, insert, evict, pop_all, keys_where}
use ids_bachelor_thesis.Flow.Defs.{
  Packet, at, Config, Shard, time_of, new_flow, add_packet, admit_key, update_shard, stats_of,
  variance,
}
use ids_bachelor_thesis.Flow.Table.{
  run, written, IsShard, IsExact, update_shard-IsExact, update_shard_others,
}

abbrev config : Config
config = record { idle_timeout = 300; evict_every = 2; shards = 16 }

abbrev packet : ℕ → ℕ → Packet
packet t len = record {
  pkt_len = len;
  dport = 443;
  proto = 6;
  tcp_layer = some (record { syn = true; ack = false; rst = false; fin = false; psh = false });
  packet_time = at t;
}

abbrev calls : List (ℕ × ℕ × Packet)
calls = (1, 7, packet 100 60) ∷ (2, 8, packet 150 1500) ∷ []

variance_found :
    (update_shard config 3 7
      (packet 200 100)
      (run config calls (record { table = []; inserts = 0 }))).1.packet_length_variance
    ≡ record { num = 1600; den = 4 }
unfolding update_shard run admit_key add_packet stats_of variance time_of get insert evict pop_all
    keys_where new_flow
variance_found = refl

update_shard-IsExact_example :
    let s = run config calls (record { table = []; inserts = 0 }) in
    IsShard config (update_shard config 3 7 (packet 200 100) s).0
    × IsExact (update_shard config 3 7 (packet 200 100) s).1 (written config 3 7 (packet 200 100) s)
update_shard-IsExact_example = update_shard-IsExact config calls 3 7 (packet 200 100)

abbrev two : Shard ℕ
two = record { table = (7, new_flow 100) ∷ (8, new_flow 390) ∷ []; inserts = 3 }

update_shard_others_example :
    get (update_shard config 4 9 (packet 400 60) two).0.table 8 ≡ some (new_flow 390)
unfolding get time_of new_flow
update_shard_others_example =
    update_shard_others config 4 9 (packet 400 60) two 8 (new_flow 390) (λ e. absurd (omega arith))
      refl (omega arith)
