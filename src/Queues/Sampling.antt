-- ===== src/Queues/Sampling.antt =====
-- Backpressure: `should_skip_under_pressure` keeps one packet in four.
use ids_bachelor_thesis.Prelude.{
  ℕ, zero, suc, ◌+◌, ◌/◌, ◌≡◌, refl, Bool, true, false, arith, ratio_ltb,
}
use ids_bachelor_thesis.Queues.Defs.{Config, PacketQueues, pressure, should_skip_under_pressure}

abbrev one_if_kept : Bool → ℕ
one_if_kept true = 0
one_if_kept false = 1

module _ {R P L : Type 0} (c : Config) where
  -- how many of `n` calls in a row keep their packet
  unfoldable pub kept : ℕ → PacketQueues R P L → ℕ
  kept zero q = 0
  kept (suc n) q = let (q', skip) = should_skip_under_pressure c q in one_if_kept skip + kept n q'

  -- `pressure` reads the queues alone.
  pressure-sample_counter :
      (q : PacketQueues R P L) (n : ℕ) → pressure c (record q { sample_counter = n }) ≡ pressure c q
  unfolding pressure
  pressure-sample_counter q n = refl

  -- While the pressure is at or above the limit, of any `n` calls in a row those are kept that
  -- bring the counter to a multiple of four.
  pub kept_under_pressure :
      (n : ℕ) (q : PacketQueues R P L)
      → ratio_ltb (pressure c q) c.pressure_sample_at ≡ false
      → kept n q + q.sample_counter / 4 ≡ (q.sample_counter + n) / 4
  unfolding kept should_skip_under_pressure
  kept_under_pressure zero q h = omega arith
  kept_under_pressure (suc n) q h =
      rw h (
        ground
          (arith, kept_under_pressure n (record q { sample_counter = q.sample_counter + 1 }) h))

  -- Below the limit every packet is kept, and the counter stands still.
  pub kept_below_pressure :
      (n : ℕ) (q : PacketQueues R P L)
      → ratio_ltb (pressure c q) c.pressure_sample_at ≡ true
      → kept n q ≡ n
  unfolding kept should_skip_under_pressure
  kept_below_pressure zero q h = omega arith
  kept_below_pressure (suc n) q h = rw h (omega (arith, kept_below_pressure n q h))
