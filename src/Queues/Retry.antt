-- ===== src/Queues/Retry.antt =====
-- `process_with_retry`: every packet ends up processed or failed, once.
use ids_bachelor_thesis.Prelude.{
  ℕ, zero, suc, ◌+◌, ◌<◌, ◌≡◌, refl, arith, leb, ltb, not, if◌then◌else◌,
}
use ids_bachelor_thesis.Queues.Defs.{Config, PacketQueues, Handler, retry_loop, process_with_retry}

module _ {W P : Type 0} (handler : Handler W P) (item : P) where
  -- how many of at most `n` calls in a row raise before one returns
  pub failures : ℕ → W → ℕ
  failures zero w = 0
  failures (suc n) w =
      let rest = failures n (handler item w).1 in if (handler item w).0 then 0 else rest + 1

  -- the world after at most `n` calls, the last of which may return
  pub world_after : ℕ → W → W
  world_after zero w = w
  world_after (suc n) w =
      let rest = world_after n (handler item w).1 in
      if (handler item w).0 then (handler item w).1 else rest

  failures_step :
      (n : ℕ) (w : W)
      → failures (suc n) w ≡ (if (handler item w).0 then 0 else failures n (handler item w).1 + 1)
  unfolding failures
  failures_step n w = refl

  world_after_step :
      (n : ℕ) (w : W)
      → world_after (suc n) w
        ≡ (if (handler item w).0 then (handler item w).1 else world_after n (handler item w).1)
  unfolding world_after
  world_after_step n w = refl

module _ {R P L : Type 0} where
  -- the counters after a packet that raised `k` times of at most `n`
  abbrev pub counted : ℕ → ℕ → PacketQueues R P L → PacketQueues R P L
  counted n k q =
      if ltb k n
      then record q { processed = q.processed + 1; retried = q.retried + k }
      else record q { failed = q.failed + 1; retried = q.retried + k }

module _ {W R P L : Type 0} (c : Config) (handler : Handler W P) (item : P) where
  retry_loop_step :
      (fuel attempts : ℕ) (w : W) (q : PacketQueues R P L)
      → retry_loop c handler item (suc fuel) attempts w q ≡ (
          if not (leb attempts c.max_retries)
          then (w, q)
          else if (handler item w).0
          then ((handler item w).1, record q { processed = q.processed + 1 })
          else if ltb c.max_retries (attempts + 1)
          then ((handler item w).1, record q { retried = q.retried + 1; failed = q.failed + 1 })
          else retry_loop c handler item fuel
              (attempts + 1)
              (handler item w).1
              (record q { retried = q.retried + 1 }))
  unfolding retry_loop
  retry_loop_step fuel attempts w q = refl

  last_round :
      (attempts : ℕ) (w : W) (q : PacketQueues R P L)
      → attempts ≡ c.max_retries
      → retry_loop c handler item 1 attempts w q
        ≡ (world_after handler item 1 w, counted 1 (failures handler item 1 w) q)
  unfolding retry_loop failures world_after
  last_round attempts w q e = ground arith

  earlier_round :
      (n attempts : ℕ) (w : W) (q : PacketQueues R P L)
      → attempts < c.max_retries
      → retry_loop c handler item
          (suc n)
          (attempts + 1)
          (handler item w).1
          (record q { retried = q.retried + 1 })
        ≡ (
          world_after handler item (suc n) (handler item w).1,
          counted
              (suc n)
              (failures handler item (suc n) (handler item w).1)
              (record q { retried = q.retried + 1 }),
        )
      → retry_loop c handler item (suc (suc n)) attempts w q ≡ (
        world_after handler item (suc (suc n)) w,
        counted (suc (suc n)) (failures handler item (suc (suc n)) w) q,
      )
  earlier_round n attempts w q lt ih =
      rw
        (
          retry_loop_step (suc n) attempts w q,
          failures_step handler item (suc n) w,
          world_after_step handler item (suc n) w,
        )
        (ground (arith, ih))

  retry_loop-counted :
      (fuel attempts : ℕ) (w : W) (q : PacketQueues R P L)
      → 0 < fuel
      → attempts + fuel ≡ c.max_retries + 1
      → retry_loop c handler item fuel attempts w q
        ≡ (world_after handler item fuel w, counted fuel (failures handler item fuel w) q)
  retry_loop-counted zero attempts w q pos e = absurd (omega arith)
  retry_loop-counted (suc zero) attempts w q pos e = last_round attempts w q (omega arith)
  retry_loop-counted (suc (suc n)) attempts w q pos e = earlier_round n attempts w q (omega arith) (
      retry_loop-counted (suc n) (attempts + 1) (handler item w).1
        (record q { retried = q.retried + 1 }) (omega arith) (omega arith))

  -- The handler is called until it returns, at most `max_retries + 1` times. If it returns after `k`
  -- calls that raised, the packet counts once as processed and `k` times as retried; if it never
  -- does, once as failed and `max_retries + 1` times as retried. Nothing else of the queues changes.
  pub process_with_retry_counts :
      (w : W) (q : PacketQueues R P L)
      → let calls = c.max_retries + 1 in
        process_with_retry c handler item w q
        ≡ (world_after handler item calls w, counted calls (failures handler item calls w) q)
  unfolding process_with_retry
  process_with_retry_counts w q =
      retry_loop-counted (c.max_retries + 1) 0 w q (omega arith) (omega arith)
