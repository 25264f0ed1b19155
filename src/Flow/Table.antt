-- ===== src/Flow/Table.antt =====
-- What holds of every flow that a table keeps, after any sequence of packets.
use ids_bachelor_thesis.Prelude.{
  ◌-◌, ℕ, ◌+◌, ◌*◌, ◌≤◌, ◌<◌, ◌≡◌, refl, Option, none, some, List, [], ◌∷◌, inl, inr, Bool-cases,
  HasEq, arith, sym, subst, ltb, ◌==◌,
}
use ids_bachelor_thesis.Dict.{Dict, get, insert}
use ids_bachelor_thesis.Dict.Laws.{get-insert, get-evict}
use ids_bachelor_thesis.Flow.Defs.{
  Flow, Packet, Config, Shard, Stats, add_packet, or_new, time_of, total_packets, duration_us,
  mean_len, variance, stats_of, evict_idle, admit_key, update_shard,
}
use ids_bachelor_thesis.Flow.Moments.{IsFlow, new_flow-IsFlow, add_packet-IsFlow, add_packet_counts}

-- The statistics of a flow with `n` packets whose lengths have the sum `s` and the sum of squares
-- `q`: no denominator is 0, and the clamp of the variance at 0 is never needed.
pub record IsExact (st : Stats) (f : Flow) : Type 0 where
  pub packets : st.total_fwd_packets ≡ f.fwd_packets
  pub bytes : st.packet_length_mean.num ≡ st.total_fwd_bytes
  pub mean_den : st.packet_length_mean.den ≡ st.total_fwd_packets
  pub some_packets : 0 < st.packet_length_mean.den
  pub variance_num :
      st.packet_length_variance.num + st.total_fwd_bytes * st.total_fwd_bytes
      ≡ st.total_fwd_packets * f.length_sq_sum
  pub variance_den : st.packet_length_variance.den ≡ st.total_fwd_packets * st.total_fwd_packets
  pub some_time : 0 < st.flow_duration_us
  pub rates :
      (st.flow_bytes_per_s.den ≡ st.flow_duration_us)
      × (st.flow_packets_per_s.den ≡ st.flow_duration_us)
  pub flags :
      (st.syn_flag_count ≤ st.total_fwd_packets) × (st.ack_flag_count ≤ st.total_fwd_packets)

variance_value :
    (f : Flow)
    → f.bwd_packets ≡ 0
    → 0 < f.fwd_packets
    → (variance f).num ≡ f.fwd_packets * f.length_sq_sum - f.length_sum * f.length_sum
      × ((variance f).den ≡ f.fwd_packets * f.fwd_packets)
unfolding variance
variance_value f no_bwd pos =
    let e : total_packets f ≡ f.fwd_packets = omega arith in rw e (ground arith)

stats_of-IsExact : (now : ℕ) (f : Flow) → IsFlow f → 0 < f.fwd_packets → IsExact (stats_of now f) f
unfolding stats_of duration_us mean_len variance
stats_of-IsExact now f h pos =
    let m = h.moments in
    let v = variance_value f (omega (arith, h.no_bwd)) pos in
    record {
      packets = refl;
      bytes = ground (arith, h.bytes, h.no_bwd);
      mean_den = ground (arith, h.no_bwd);
      some_packets = ground (arith, h.no_bwd);
      variance_num = rw (v.0, sym h.bytes) (omega arith);
      variance_den = v.1;
      some_time = ground arith;
      rates = (refl, refl);
      flags = (h.flags.0, h.flags.1);
    }

or_new-IsFlow :
    (clock : ℕ) (o : Option Flow) → ((f : Flow) → o ≡ some f → IsFlow f) → IsFlow (or_new o clock)
or_new-IsFlow clock none h = new_flow-IsFlow clock
or_new-IsFlow clock (some f) h = h f refl

module _ {K : Type 0} ⦃e : HasEq K⦄ (c : Config) where
  abbrev pub IsShard : Shard K → Type 0
  IsShard s = (k : K) (f : Flow) → get s.table k ≡ some f → IsFlow f

  insert-IsFlow :
      (d : Dict K Flow) (key k : K) (f' f : Flow)
      → IsFlow f'
      → (get d k ≡ some f → IsFlow f)
      → get (insert d key f') k ≡ some f
      → IsFlow f
  insert-IsFlow d key k f' f new old at = elim (Bool-cases (key == k)) [
    | inl same ↦ let e : f' ≡ f = ground (arith, get-insert d key f' k) in subst IsFlow e new
    | inr other ↦ old (ground (arith, get-insert d key f' k))
  ]

  get-admit_key :
      (now : ℕ) (key : K) (s : Shard K) (k : K) (f : Flow)
      → get (admit_key c now key s).table k ≡ some f
      → get s.table k ≡ some f
  unfolding admit_key evict_idle
  get-admit_key now key s k f at =
      ground (arith, get-evict (λ f. ltb (f.last_seen + c.idle_timeout) now) s.table k)

  -- The flow that `update_shard` writes.
  abbrev pub written : ℕ → K → Packet → Shard K → Flow
  written clock key p s =
      let now = time_of clock p.packet_time in
      add_packet now p (or_new (get (admit_key c now key s).table key) clock)

  module _ (clock : ℕ) (key : K) (p : Packet) (s : Shard K) (h : IsShard s) where
    written-IsFlow : IsFlow (written clock key p s)
    written-IsFlow =
        let now = time_of clock p.packet_time in
        add_packet-IsFlow now p (or_new (get (admit_key c now key s).table key) clock) (
          or_new-IsFlow clock (get (admit_key c now key s).table key)
            (λ f at. h key f (get-admit_key now key s key f at)))

    update_shard-IsShard : IsShard (update_shard c clock key p s).0
    unfolding update_shard
    update_shard-IsShard k f at =
        let now = time_of clock p.packet_time in
        insert-IsFlow (admit_key c now key s).table key k (written clock key p s) f written-IsFlow
          (λ was. h k f (get-admit_key now key s k f was)) at

    stats-IsExact : IsExact (update_shard c clock key p s).1 (written clock key p s)
    unfolding update_shard
    stats-IsExact =
        let now = time_of clock p.packet_time in
        let old = or_new (get (admit_key c now key s).table key) clock in
        let count = (add_packet_counts now p old).0 in
        stats_of-IsExact now (written clock key p s) written-IsFlow (omega arith)

  -- The calls of `update_flow` on one shard.
  unfoldable pub run : List (ℕ × K × Packet) → Shard K → Shard K
  run [] s = s
  run ((clock, key, p) ∷ calls) s = run calls (update_shard c clock key p s).0

  abbrev empty : Shard K
  empty = record { table = []; inserts = 0 }

  run-IsShard : (calls : List (ℕ × K × Packet)) (s : Shard K) → IsShard s → IsShard (run calls s)
  unfolding run
  run-IsShard [] s h = h
  run-IsShard ((clock, key, p) ∷ calls) s h =
      run-IsShard calls (update_shard c clock key p s).0 (update_shard-IsShard clock key p s h)

  -- After any calls of `update_flow` on an empty shard, whatever their clocks and their packets'
  -- own times, each stored flow has consistent counters. What the next call reports is exact: a
  -- mean over the number of packets, above 0, whose numerator is the number of bytes, a variance
  -- that is never clamped, a duration above 0 under both rates, and no more SYN or ACK flags than
  -- packets.
  pub update_shard-IsExact :
      (calls : List (ℕ × K × Packet)) (clock : ℕ) (key : K) (p : Packet)
      → let s = run calls empty in
        IsShard (update_shard c clock key p s).0
        × IsExact (update_shard c clock key p s).1 (written clock key p s)
  unfolding get
  update_shard-IsExact calls clock key p =
      let h = run-IsShard calls empty (λ k f at. absurd (ground arith)) in
      (
        update_shard-IsShard clock key p (run calls empty) h,
        stats-IsExact clock key p (run calls empty) h,
      )

  -- A packet of one key leaves the flow of another key as it is, unless that flow has been idle
  -- for longer than the timeout.
  pub update_shard_others :
      (clock : ℕ) (key : K) (p : Packet) (s : Shard K) (k : K) (f : Flow)
      → ¬ (key ≡ k)
      → get s.table k ≡ some f
      → time_of clock p.packet_time ≤ f.last_seen + c.idle_timeout
      → get (update_shard c clock key p s).0.table k ≡ some f
  unfolding update_shard admit_key evict_idle
  update_shard_others clock key p s k f other at recent =
      let now = time_of clock p.packet_time in
      ground (
        arith,
        e.test_iff key k,
        get-insert (admit_key c now key s).table key (written clock key p s) k,
        get-evict (λ f. ltb (f.last_seen + c.idle_timeout) now) s.table k,
      )
