-- ===== src/Flow/Moments.antt =====
-- The moments of a flow's packet lengths: the variance needs no clamp, and no rate divides by 0.
use native.Mathlib.Decide.{dec_le}
use ids_bachelor_thesis.Prelude.{ℕ, ◌+◌, ◌-◌, ◌*◌, ◌≤◌, ◌≡◌, refl, arith}
use ids_bachelor_thesis.Flow.Defs.{
  Flow, Packet, new_flow, add_packet, add_length, count_flags, count_tcp_flag, begin_flow,
}

two_mul_le : (x y : ℕ) → 2 * (x * y) ≤ x * x + y * y
two_mul_le x y = elim (dec_le x y) [
  | yes h ↦ let d = y - x in let e : y ≡ x + d = omega arith in rw e (omega arith)
  | no h ↦ let d = x - y in let e : x ≡ y + d = omega arith in rw e (omega arith)
]

-- What holds of a flow that only `update_flow` has written.
pub record IsFlow (f : Flow) : Type 0 where
  pub no_bwd : f.bwd_packets + f.bwd_bytes ≡ 0
  pub bytes : f.length_sum ≡ f.fwd_bytes
  pub spread : (x : ℕ) → 2 * (f.length_sum * x) ≤ f.fwd_packets * (x * x) + f.length_sq_sum
  pub moments : f.length_sum * f.length_sum ≤ f.fwd_packets * f.length_sq_sum
  pub flags :
      (f.syn_flag_count ≤ f.fwd_packets)
      × (f.ack_flag_count ≤ f.fwd_packets)
      × (f.rst_flag_count ≤ f.fwd_packets)
      × (f.fin_flag_count ≤ f.fwd_packets)
      × (f.psh_flag_count ≤ f.fwd_packets)

pub new_flow-IsFlow : (now : ℕ) → IsFlow (new_flow now)
unfolding new_flow
new_flow-IsFlow now = record {
  no_bwd = refl;
  bytes = refl;
  spread = λ x. omega arith;
  moments = omega arith;
  flags = omega arith;
}

moments_step :
    (n s q y : ℕ)
    → s * s ≤ n * q
    → 2 * (s * y) ≤ n * (y * y) + q
    → (s + y) * (s + y) ≤ (n + 1) * (q + y * y)
moments_step n s q y m h = omega arith

spread_step :
    (n s q y x : ℕ)
    → 2 * (s * x) ≤ n * (x * x) + q
    → 2 * ((s + y) * x) ≤ (n + 1) * (x * x) + (q + y * y)
spread_step n s q y x h = omega (arith, two_mul_le y x)

-- What one packet adds to each counter.
pub add_packet_counts :
    (now : ℕ) (p : Packet) (f : Flow)
    → let f' = add_packet now p f in
      (f'.fwd_packets ≡ f.fwd_packets + 1)
      × (f'.fwd_bytes ≡ f.fwd_bytes + p.pkt_len)
      × (f'.length_sum ≡ f.length_sum + p.pkt_len)
      × (f'.length_sq_sum ≡ f.length_sq_sum + p.pkt_len * p.pkt_len)
      × (f'.bwd_packets ≡ f.bwd_packets)
      × (f'.bwd_bytes ≡ f.bwd_bytes)
unfolding add_packet count_flags begin_flow add_length
add_packet_counts now p f = ground arith

add_packet_flags :
    (now : ℕ) (p : Packet) (f : Flow)
    → let f' = add_packet now p f in
      (f'.syn_flag_count ≤ f.syn_flag_count + 1)
      × (f'.ack_flag_count ≤ f.ack_flag_count + 1)
      × (f'.rst_flag_count ≤ f.rst_flag_count + 1)
      × (f'.fin_flag_count ≤ f.fin_flag_count + 1)
      × (f'.psh_flag_count ≤ f.psh_flag_count + 1)
unfolding add_packet count_flags begin_flow add_length count_tcp_flag
add_packet_flags now p f = ground arith

pub add_packet-IsFlow : (now : ℕ) (p : Packet) (f : Flow) → IsFlow f → IsFlow (add_packet now p f)
add_packet-IsFlow now p f h =
    let (np, nb, ns, nq, bp, bb) = add_packet_counts now p f in
    let fl = add_packet_flags now p f in
    record {
      no_bwd = rw (bp, bb) h.no_bwd;
      bytes = rw (ns, nb) (rw h.bytes refl);
      spread = λ x.
          rw (np, ns, nq)
            (spread_step f.fwd_packets f.length_sum f.length_sq_sum p.pkt_len x (h.spread x));
      moments =
          rw (np, ns, nq)
            (moments_step f.fwd_packets f.length_sum f.length_sq_sum p.pkt_len h.moments
              (h.spread p.pkt_len));
      flags = (omega arith);
    }
