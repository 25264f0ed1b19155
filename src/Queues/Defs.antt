-- ===== src/Queues/Defs.antt =====
-- `PacketQueues` of ids/packet_queue.py. Times are microseconds since the epoch.
use ids_bachelor_thesis.Prelude.{
  ℕ, zero, suc, ◌+◌, ◌%◌, Bool, true, false, not, Option, none, some, number_test, ◌==◌, ltb, leb,
  Ratio, ratio_ltb, ratio_max, if◌then◌else◌,
}
use ids_bachelor_thesis.BoundedQueue
use ids_bachelor_thesis.BoundedQueue.{Queue, qsize, put_nowait}

-- The constants that the module reads from the environment.
pub record Config : Type 0 where
  pub queue_maxsize : ℕ
  pub raw_queue_maxsize : ℕ
  pub log_queue_maxsize : ℕ
  pub pressure_sample_at : Ratio
  pub drop_log_interval : ℕ
  pub max_retries : ℕ

-- `R`, `P` and `L` are the captured frames, the packet dicts and the log entries.
pub record PacketQueues (R P L : Type 0) : Type 0 where
  pub packet_queue : Queue P
  pub raw_queue : Queue R
  pub log_queue : Queue L
  pub dropped_packets : ℕ
  pub dropped_raw : ℕ
  pub dropped_logs : ℕ
  pub last_drop_log_at : ℕ
  pub sample_counter : ℕ
  pub processed : ℕ
  pub failed : ℕ
  pub retried : ℕ

-- What an enqueue did: the queues after it, its result, and the count of a warning.
abbrev pub Enqueued : Type 0 → Type 0 → Type 0 → Type 0
Enqueued R P L = PacketQueues R P L × Bool × Option ℕ

abbrev refused : {R P L : Type 0} → PacketQueues R P L × Option ℕ → Enqueued R P L
refused (q, report) = (q, false, report)

module _ {R P L : Type 0} (c : Config) where
  unfoldable pub new_queues : PacketQueues R P L
  new_queues = record {
    packet_queue = BoundedQueue.empty c.queue_maxsize;
    raw_queue = BoundedQueue.empty c.raw_queue_maxsize;
    log_queue = BoundedQueue.empty c.log_queue_maxsize;
    dropped_packets = 0;
    dropped_raw = 0;
    dropped_logs = 0;
    last_drop_log_at = 0;
    sample_counter = 0;
    processed = 0;
    failed = 0;
    retried = 0;
  }

  unfoldable pub pressure : PacketQueues R P L → Ratio
  pressure q =
      ratio_max (record { num = qsize q.packet_queue; den = c.queue_maxsize })
        (record { num = qsize q.raw_queue; den = c.raw_queue_maxsize })

  unfoldable pub should_skip_under_pressure : PacketQueues R P L → PacketQueues R P L × Bool
  unfolding pressure
  should_skip_under_pressure q =
      if ratio_ltb (pressure q) c.pressure_sample_at then (q, false) else (
        record q { sample_counter = q.sample_counter + 1 },
        not ((q.sample_counter + 1) % 4 == 0),
      )

  -- The second part is the count that the warning reports, if one is logged.
  unfoldable pub record_dropped_raw : ℕ → PacketQueues R P L → PacketQueues R P L × Option ℕ
  record_dropped_raw now q =
      let count = q.dropped_raw + 1 in
      if ltb now (q.last_drop_log_at + c.drop_log_interval)
      then (record q { dropped_raw = count }, none)
      else (record q { dropped_raw = 0; last_drop_log_at = now }, some count)

  unfoldable pub record_dropped_packet : ℕ → PacketQueues R P L → PacketQueues R P L × Option ℕ
  record_dropped_packet now q =
      let count = q.dropped_packets + 1 in
      if ltb now (q.last_drop_log_at + c.drop_log_interval)
      then (record q { dropped_packets = count }, none)
      else (record q { dropped_packets = 0; last_drop_log_at = now }, some count)

  unfoldable pub enqueue_raw_packet : ℕ → R → PacketQueues R P L → Enqueued R P L
  unfolding record_dropped_raw
  enqueue_raw_packet now pkt q = elim (put_nowait pkt q.raw_queue) [
    | some queue ↦ (record q { raw_queue = queue }, true, none)
    | none ↦ refused (record_dropped_raw now q)
  ]

  unfoldable pub enqueue_packet : ℕ → P → PacketQueues R P L → Enqueued R P L
  unfolding record_dropped_packet
  enqueue_packet now item q = elim (put_nowait item q.packet_queue) [
    | some queue ↦ (record q { packet_queue = queue }, true, none)
    | none ↦ refused (record_dropped_packet now q)
  ]

module _ {R P L : Type 0} where
  unfoldable pub enqueue_log : L → PacketQueues R P L → PacketQueues R P L × Bool
  enqueue_log entry q = elim (put_nowait entry q.log_queue) [
    | some queue ↦ (record q { log_queue = queue }, true)
    | none ↦ (record q { dropped_logs = q.dropped_logs + 1 }, false)
  ]

  unfoldable pub dequeue_raw_packet : PacketQueues R P L → PacketQueues R P L × Option R
  dequeue_raw_packet q = elim (BoundedQueue.get q.raw_queue) [
    | some (pkt, queue) ↦ (record q { raw_queue = queue }, some pkt)
    | none ↦ (q, none)
  ]

  unfoldable pub dequeue_packet : PacketQueues R P L → PacketQueues R P L × Option P
  dequeue_packet q = elim (BoundedQueue.get q.packet_queue) [
    | some (item, queue) ↦ (record q { packet_queue = queue }, some item)
    | none ↦ (q, none)
  ]

-- `handler(packet_dict)` acts on a world; `false` is an exception.
abbrev pub Handler : Type 0 → Type 0 → Type 0
Handler W P = P → W → Bool × W

module _ {W R P L : Type 0} (c : Config) (handler : Handler W P) (item : P) where
  -- `while attempts <= _MAX_RETRIES`, on fuel; the sleep between attempts changes nothing.
  unfoldable pub retry_loop : ℕ → ℕ → W → PacketQueues R P L → W × PacketQueues R P L
  retry_loop zero attempts w q = (w, q)
  retry_loop (suc fuel) attempts w q =
      let (returned, w') = handler item w in
      let again = retry_loop fuel (attempts + 1) w' (record q { retried = q.retried + 1 }) in
      if not (leb attempts c.max_retries)
      then (w, q)
      else if returned
      then (w', record q { processed = q.processed + 1 })
      else if ltb c.max_retries (attempts + 1)
      then (w', record q { retried = q.retried + 1; failed = q.failed + 1 })
      else again

  unfoldable pub process_with_retry : W → PacketQueues R P L → W × PacketQueues R P L
  unfolding retry_loop
  process_with_retry w q = retry_loop (c.max_retries + 1) 0 w q

-- `health`: the counters that the dashboard reads
pub record Health : Type 0 where
  pub packet_qsize : ℕ
  pub packet_maxsize : ℕ
  pub raw_qsize : ℕ
  pub raw_maxsize : ℕ
  pub log_qsize : ℕ
  pub log_maxsize : ℕ
  pub pressure_ratio : Ratio
  pub processed : ℕ
  pub failed : ℕ
  pub retried : ℕ
  pub dropped_logs : ℕ

module _ {R P L : Type 0} (c : Config) where
  unfoldable pub health : PacketQueues R P L → Health
  health q = record {
    packet_qsize = qsize q.packet_queue;
    packet_maxsize = c.queue_maxsize;
    raw_qsize = qsize q.raw_queue;
    raw_maxsize = c.raw_queue_maxsize;
    log_qsize = qsize q.log_queue;
    log_maxsize = c.log_queue_maxsize;
    pressure_ratio = pressure c q;
    processed = q.processed;
    failed = q.failed;
    retried = q.retried;
    dropped_logs = q.dropped_logs;
  }
