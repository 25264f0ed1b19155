-- ===== src/Flow/Defs.antt =====
-- `update_flow` of engine/flow_manager.py. Times are in microseconds; the key of a flow is any
-- type with an equality test, and its hash is a parameter.
use ids_bachelor_thesis.Prelude.{
  ℕ, ◌+◌, ◌-◌, ◌*◌, ◌%◌, Bool, ◌&&◌, HasEq, number_test, ◌==◌, Option, none, some, ltb, max, Ratio,
  if◌then◌else◌,
}
use ids_bachelor_thesis.Dict.{Dict, get, insert, evict, is_some}

pub record Flow : Type 0 where
  pub fwd_packets : ℕ
  pub bwd_packets : ℕ
  pub fwd_bytes : ℕ
  pub bwd_bytes : ℕ
  pub start : ℕ
  pub last_seen : ℕ
  pub destination_port : ℕ
  pub protocol : ℕ
  pub syn_flag_count : ℕ
  pub ack_flag_count : ℕ
  pub rst_flag_count : ℕ
  pub fin_flag_count : ℕ
  pub psh_flag_count : ℕ
  pub length_sum : ℕ
  pub length_sq_sum : ℕ

unfoldable pub new_flow : ℕ → Flow
new_flow now = record {
  fwd_packets = 0;
  bwd_packets = 0;
  fwd_bytes = 0;
  bwd_bytes = 0;
  start = now;
  last_seen = now;
  destination_port = 0;
  protocol = 0;
  syn_flag_count = 0;
  ack_flag_count = 0;
  rst_flag_count = 0;
  fin_flag_count = 0;
  psh_flag_count = 0;
  length_sum = 0;
  length_sq_sum = 0;
}

-- The TCP flags that are counted.
pub record Flags : Type 0 where
  pub syn : Bool
  pub ack : Bool
  pub rst : Bool
  pub fin : Bool
  pub psh : Bool

-- `packet_time`: not given, of no use (no number, or not finite), or a number.
pub data PacketTime : Type 0 where
  absent unusable : PacketTime
  at : ℕ → PacketTime

pub record Packet : Type 0 where
  pub pkt_len : ℕ
  pub dport : ℕ
  pub proto : ℕ
  pub tcp_layer : Option Flags
  pub packet_time : PacketTime

-- The packet's own time, if it is above 0, else the clock.
unfoldable pub time_of : ℕ → PacketTime → ℕ
time_of clock absent = clock
time_of clock unusable = clock
time_of clock (at t) = if ltb 0 t then t else clock

-- `count_tcp_flag` of ai/cic_features.py
unfoldable pub count_tcp_flag : Bool → ℕ
count_tcp_flag flag = if flag then 1 else 0

-- `_FLOW_EVICT_EVERY` is 5000 and the timeout comes from the environment.
pub record Config : Type 0 where
  pub idle_timeout : ℕ
  pub evict_every : ℕ
  pub shards : ℕ

unfoldable pub count_flags : Option Flags → Flow → Flow
unfolding count_tcp_flag
count_flags none f = f
count_flags (some t) f = record f {
  syn_flag_count = f.syn_flag_count + count_tcp_flag t.syn;
  ack_flag_count = f.ack_flag_count + count_tcp_flag t.ack;
  rst_flag_count = f.rst_flag_count + count_tcp_flag t.rst;
  fin_flag_count = f.fin_flag_count + count_tcp_flag t.fin;
  psh_flag_count = f.psh_flag_count + count_tcp_flag t.psh;
}

-- The first packet of a flow sets its start, its port and its protocol.
unfoldable pub begin_flow : ℕ → Packet → Flow → Flow
begin_flow now p f =
    if f.fwd_packets == 0 && f.bwd_packets == 0
    then record f { last_seen = now; start = now; destination_port = p.dport; protocol = p.proto }
    else record f { last_seen = now }

unfoldable pub add_length : ℕ → Flow → Flow
add_length len f = record f {
  fwd_packets = f.fwd_packets + 1;
  fwd_bytes = f.fwd_bytes + len;
  length_sum = f.length_sum + len;
  length_sq_sum = f.length_sq_sum + len * len;
}

-- All that one packet does to its flow.
unfoldable pub add_packet : ℕ → Packet → Flow → Flow
unfolding count_flags begin_flow add_length
add_packet now p f = count_flags p.tcp_layer (add_length p.pkt_len (begin_flow now p f))

abbrev pub second : ℕ
second = 1_000_000

-- The dict that `update_flow` returns. Rates are for each second; the standard deviation of the
-- lengths is the square root of `packet_length_variance`.
pub record Stats : Type 0 where
  pub destination_port : ℕ
  pub flow_duration_us : ℕ
  pub total_fwd_packets : ℕ
  pub total_bwd_packets : ℕ
  pub total_fwd_bytes : ℕ
  pub total_bwd_bytes : ℕ
  pub flow_bytes_per_s : Ratio
  pub flow_packets_per_s : Ratio
  pub fwd_packets_per_s : Ratio
  pub bwd_packets_per_s : Ratio
  pub syn_flag_count : ℕ
  pub ack_flag_count : ℕ
  pub rst_flag_count : ℕ
  pub fin_flag_count : ℕ
  pub psh_flag_count : ℕ
  pub packet_length_mean : Ratio
  pub packet_length_variance : Ratio
  pub protocol : ℕ

-- `max(t_now - start, 1e-6)`; subtraction of the naturals stops at 0, below the other side.
unfoldable pub duration_us : ℕ → Flow → ℕ
duration_us now f = max (now - f.start) 1

abbrev pub total_packets : Flow → ℕ
total_packets f = f.fwd_packets + f.bwd_packets

-- `length_sum / total_packets`, or 0 with no packet
unfoldable pub mean_len : Flow → Ratio
mean_len f =
    if ltb 0 (total_packets f)
    then record { num = f.length_sum; den = total_packets f }
    else record { num = 0; den = 1 }

-- `max(0, length_sq_sum / n - mean * mean)` with the denominator n * n
unfoldable pub variance : Flow → Ratio
variance f =
    let n = total_packets f in
    if ltb 0 n
    then record { num = n * f.length_sq_sum - f.length_sum * f.length_sum; den = n * n }
    else record { num = 0; den = 1 }

unfoldable pub stats_of : ℕ → Flow → Stats
unfolding duration_us mean_len variance
stats_of now f =
    let per_second = λ (n : ℕ). n * second in
    record {
      destination_port = f.destination_port;
      flow_duration_us = duration_us now f;
      total_fwd_packets = f.fwd_packets;
      total_bwd_packets = f.bwd_packets;
      total_fwd_bytes = f.fwd_bytes;
      total_bwd_bytes = f.bwd_bytes;
      flow_bytes_per_s = record {
        num = per_second (f.fwd_bytes + f.bwd_bytes);
        den = duration_us now f;
      };
      flow_packets_per_s = record { num = per_second (total_packets f); den = duration_us now f };
      fwd_packets_per_s = record { num = per_second f.fwd_packets; den = duration_us now f };
      bwd_packets_per_s = record { num = per_second f.bwd_packets; den = duration_us now f };
      syn_flag_count = f.syn_flag_count;
      ack_flag_count = f.ack_flag_count;
      rst_flag_count = f.rst_flag_count;
      fin_flag_count = f.fin_flag_count;
      psh_flag_count = f.psh_flag_count;
      packet_length_mean = mean_len f;
      packet_length_variance = variance f;
      protocol = f.protocol;
    }

-- One of the tables, with the number of keys that it has begun.
pub record Shard (K : Type 0) : Type 0 where
  pub table : Dict K Flow
  pub inserts : ℕ

abbrev pub or_new : Option Flow → ℕ → Flow
or_new none now = new_flow now
or_new (some f) now = f

module _ {K : Type 0} ⦃e : HasEq K⦄ (c : Config) where
  unfoldable pub evict_idle : ℕ → Dict K Flow → Dict K Flow
  evict_idle now = evict (λ f. ltb (f.last_seen + c.idle_timeout) now)

  -- A new key is counted, and each `evict_every`-th cleans the table.
  unfoldable pub admit_key : ℕ → K → Shard K → Shard K
  unfolding evict_idle
  admit_key now key s = if is_some (get s.table key) then s else record {
    table = if (s.inserts + 1) % c.evict_every == 0 then evict_idle now s.table else s.table;
    inserts = s.inserts + 1;
  }

  unfoldable pub update_shard : (clock : ℕ) → K → Packet → Shard K → Shard K × Stats
  unfolding admit_key add_packet
  update_shard clock key p s =
      let now = time_of clock p.packet_time in
      let s' = admit_key now key s in
      let f = add_packet now p (or_new (get s'.table key) clock) in
      (record s' { table = insert s'.table key f }, stats_of now f)

  -- `update_flow` on all the tables, each under its index
  unfoldable pub update_flow :
      (K → ℕ) → (clock : ℕ) → K → Packet → (ℕ → Shard K) → (ℕ → Shard K) × Stats
  update_flow hash clock key p shards =
      let i = hash key % c.shards in
      let (s, stats) = update_shard clock key p (shards i) in
      (λ j. if j == i then s else shards j, stats)
