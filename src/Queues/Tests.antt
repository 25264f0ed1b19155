-- ===== src/Queues/Tests.antt =====
-- The theorems on the queues at small queues, and runs of the operations.
use ids_bachelor_thesis.Prelude.{ℕ, zero, suc, ◌+◌, ◌/◌, ◌≡◌, refl, true, false, List, [], ◌∷◌}
use ids_bachelor_thesis.BoundedQueue
use ids_bachelor_thesis.BoundedQueue.{put_nowait}
use ids_bachelor_thesis.Queues.Defs.{
  Config, PacketQueues, new_queues, pressure, should_skip_under_pressure, process_with_retry,
  Handler, enqueue_raw_packet, enqueue_packet, enqueue_log, dequeue_raw_packet, dequeue_packet,
}
use ids_bachelor_thesis.Queues.Accounting.{
  Event, raw_packet, packet, log, take_raw, take_packet, blank, IsBalanced, play,
  queues_lose_nothing,
}
use ids_bachelor_thesis.Queues.Sampling.{kept, kept_under_pressure, kept_below_pressure}
use ids_bachelor_thesis.Queues.Retry.{failures, world_after, counted, process_with_retry_counts}

abbrev config : Config
config = record {
  queue_maxsize = 2;
  raw_queue_maxsize = 1;
  log_queue_maxsize = 1;
  pressure_sample_at = record { num = 80; den = 100 };
  drop_log_interval = 5_000_000;
  max_retries = 2;
}

abbrev Queues : Type 0
Queues = PacketQueues ℕ ℕ ℕ

abbrev busy : List (Event ℕ ℕ ℕ)
busy =
    raw_packet 6_000_000 7
    ∷ raw_packet 6_000_001 8
    ∷ packet 6_000_002 3
    ∷ raw_packet 6_000_003 9
    ∷ take_raw
    ∷ log 4
    ∷ log 5
    ∷ take_packet
    ∷ []

queues_lose_nothing_example :
    let (q, l) = play config busy (new_queues config, blank) in IsBalanced q l
queues_lose_nothing_example = queues_lose_nothing config busy

-- The first refusal is reported, the second waits for the next warning.
busy_ledger :
    let (q, l) = play config busy (new_queues config, blank) in
    (l.raw_out ≡ 7 ∷ [])
    × (l.raw_refused ≡ 2)
    × (l.raw_reported ≡ 1)
    × (q.dropped_raw ≡ 1)
    × (l.packets_out ≡ 3 ∷ [])
    × (q.dropped_logs ≡ 1)
unfolding play enqueue_raw_packet enqueue_packet enqueue_log dequeue_raw_packet dequeue_packet
    put_nowait BoundedQueue.get new_queues
busy_ledger = (refl, refl, refl, refl, refl, refl)

abbrev full : Queues
full = record {
  packet_queue = record { items = 1 ∷ 2 ∷ []; maxsize = 2 };
  raw_queue = record { items = []; maxsize = 1 };
  log_queue = record { items = []; maxsize = 1 };
  dropped_packets = 0;
  dropped_raw = 0;
  dropped_logs = 0;
  last_drop_log_at = 0;
  sample_counter = 5;
  processed = 0;
  failed = 0;
  retried = 0;
}

kept_under_pressure_example : kept config 8 full + 5 / 4 ≡ (5 + 8) / 4
unfolding pressure
kept_under_pressure_example = kept_under_pressure config 8 full refl

two_of_eight : kept config 8 full ≡ 2
unfolding kept should_skip_under_pressure
two_of_eight = refl

kept_below_pressure_example :
    kept config 3 (record full { packet_queue = BoundedQueue.empty 2 }) ≡ 3
unfolding pressure
kept_below_pressure_example =
    kept_below_pressure config 3 (record full { packet_queue = BoundedQueue.empty 2 }) refl

-- raises until its world has run down to 0
stubborn : Handler ℕ ℕ
stubborn item zero = (true, 0)
stubborn item (suc n) = (false, n)

process_with_retry_counts_example :
    process_with_retry config stubborn 9 1 full
    ≡ (world_after stubborn 9 3 1, counted 3 (failures stubborn 9 3 1) full)
process_with_retry_counts_example = process_with_retry_counts config stubborn 9 1 full

-- Where every call raises, `retried` counts one more than the retries that were made.
retried_counts_attempts :
    let (w, q) = process_with_retry config stubborn 9 5 full in
    (w ≡ 2) × (q.retried ≡ 3) × (q.failed ≡ 1) × (q.processed ≡ 0)
unfolding process_with_retry stubborn
retried_counts_attempts = (refl, refl, refl, refl)
