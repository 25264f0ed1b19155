-- ===== src/Queues/Accounting.antt =====
-- Nothing is lost without a trace: the queues against a ledger of what callers offered and took.
use mathlib.Core.List.{append_assoc, append-nil}
use ids_bachelor_thesis.Prelude.{
  ℕ, ◌+◌, ◌≡◌, Bool, true, false, inl, inr, Option-cases, Option, none, some, List, [], ◌∷◌, ◌++◌,
  arith,
}
use ids_bachelor_thesis.BoundedQueue
use ids_bachelor_thesis.BoundedQueue.{
  Queue, put_nowait, put_nowait-items, put_nowait-IsBounded, get-items, IsBounded,
}
use ids_bachelor_thesis.Queues.Defs.{
  Config, PacketQueues, new_queues, enqueue_raw_packet, enqueue_packet, enqueue_log,
  dequeue_raw_packet, dequeue_packet,
}

-- The calls that the capture thread and the workers make, the enqueues at a time.
pub data Event (R P L : Type 0) : Type 0 where
  raw_packet : ℕ → R → Event R P L
  packet : ℕ → P → Event R P L
  log : L → Event R P L
  take_raw take_packet : Event R P L

-- For each queue the items taken in and handed out; the refusals, and those that warnings reported.
pub record Ledger (R P L : Type 0) : Type 0 where
  pub raw_in : List R
  pub raw_out : List R
  pub raw_refused : ℕ
  pub raw_reported : ℕ
  pub packets_in : List P
  pub packets_out : List P
  pub packets_refused : ℕ
  pub packets_reported : ℕ
  pub logs_in : List L
  pub logs_refused : ℕ

abbrev pub blank : {R P L : Type 0} → Ledger R P L
blank = record {
  raw_in = [];
  raw_out = [];
  raw_refused = 0;
  raw_reported = 0;
  packets_in = [];
  packets_out = [];
  packets_refused = 0;
  packets_reported = 0;
  logs_in = [];
  logs_refused = 0;
}

abbrev reported : Option ℕ → ℕ
reported none = 0
reported (some n) = n

abbrev taken {ℓ} : {A : Type ℓ} → Option A → List A
taken none = []
taken (some a) = a ∷ []

-- What one result adds to the items in, and to the refusals.
abbrev admitted {ℓ} : {A : Type ℓ} → Bool → A → List A
admitted true a = a ∷ []
admitted false a = []

abbrev refusals : Bool → ℕ
refusals true = 0
refusals false = 1

abbrev pub State : Type 0 → Type 0 → Type 0 → Type 0
State R P L = PacketQueues R P L × Ledger R P L

module _ {R P L : Type 0} (c : Config) where
  unfoldable pub step : Event R P L → State R P L → State R P L
  step (raw_packet now pkt) (q, l) =
      let (q', done, report) = enqueue_raw_packet c now pkt q in
      (
        q',
        record l {
          raw_in = l.raw_in ++ admitted done pkt;
          raw_refused = l.raw_refused + refusals done;
          raw_reported = l.raw_reported + reported report;
        },
      )
  step (packet now item) (q, l) =
      let (q', done, report) = enqueue_packet c now item q in
      (
        q',
        record l {
          packets_in = l.packets_in ++ admitted done item;
          packets_refused = l.packets_refused + refusals done;
          packets_reported = l.packets_reported + reported report;
        },
      )
  step (log entry) (q, l) =
      let (q', done) = enqueue_log entry q in
      (
        q',
        record l {
          logs_in = l.logs_in ++ admitted done entry;
          logs_refused = l.logs_refused + refusals done;
        },
      )
  step take_raw (q, l) =
      let (q', got) = dequeue_raw_packet q in (q', record l { raw_out = l.raw_out ++ taken got })
  step take_packet (q, l) =
      let (q', got) = dequeue_packet q in
      (q', record l { packets_out = l.packets_out ++ taken got })

  unfoldable pub play : List (Event R P L) → State R P L → State R P L
  unfolding step
  play [] s = s
  play (e ∷ es) s = play es (step e s)

-- Each queue holds, in order, what went in and did not come out, within its bound; each refused item
-- was reported by a warning or is still counted.
pub record IsBalanced {R P L : Type 0} (q : PacketQueues R P L) (l : Ledger R P L) : Type 0 where
  pub raw : l.raw_in ≡ l.raw_out ++ q.raw_queue.items
  pub packets : l.packets_in ≡ l.packets_out ++ q.packet_queue.items
  pub logs : l.logs_in ≡ q.log_queue.items
  pub raw_drops : l.raw_refused ≡ l.raw_reported + q.dropped_raw
  pub packet_drops : l.packets_refused ≡ l.packets_reported + q.dropped_packets
  pub log_drops : l.logs_refused ≡ q.dropped_logs
  pub raw_bound : IsBounded q.raw_queue
  pub packet_bound : IsBounded q.packet_queue
  pub log_bound : IsBounded q.log_queue

module _ {R P L : Type 0} (c : Config) (q : PacketQueues R P L) (l : Ledger R P L)
    (h : IsBalanced q l) where
  raw_packet-IsBalanced :
      (now : ℕ) (pkt : R) → let (q', l') = step c (raw_packet now pkt) (q, l) in IsBalanced q' l'
  unfolding step enqueue_raw_packet
  raw_packet-IsBalanced now pkt = elim (Option-cases (put_nowait pkt q.raw_queue)) [
    | inl full ↦ ground (arith, append-nil l.raw_in)
    | inr (queue, e) ↦ ground (
      arith,
      put_nowait-items pkt q.raw_queue queue e,
      put_nowait-IsBounded pkt q.raw_queue queue h.raw_bound e,
      append_assoc l.raw_out q.raw_queue.items (pkt ∷ []),
    )
  ]

  packet-IsBalanced :
      (now : ℕ) (item : P) → let (q', l') = step c (packet now item) (q, l) in IsBalanced q' l'
  unfolding step enqueue_packet
  packet-IsBalanced now item = elim (Option-cases (put_nowait item q.packet_queue)) [
    | inl full ↦ ground (arith, append-nil l.packets_in)
    | inr (queue, e) ↦ ground (
      arith,
      put_nowait-items item q.packet_queue queue e,
      put_nowait-IsBounded item q.packet_queue queue h.packet_bound e,
      append_assoc l.packets_out q.packet_queue.items (item ∷ []),
    )
  ]

  log-IsBalanced : (entry : L) → let (q', l') = step c (log entry) (q, l) in IsBalanced q' l'
  unfolding step enqueue_log
  log-IsBalanced entry = elim (Option-cases (put_nowait entry q.log_queue)) [
    | inl full ↦ ground (arith, append-nil l.logs_in)
    | inr (queue, e) ↦ ground (
      arith,
      put_nowait-items entry q.log_queue queue e,
      put_nowait-IsBounded entry q.log_queue queue h.log_bound e,
    )
  ]

  take_raw-IsBalanced : let (q', l') = step c take_raw (q, l) in IsBalanced q' l'
  unfolding step dequeue_raw_packet
  take_raw-IsBalanced = elim (Option-cases (BoundedQueue.get q.raw_queue)) [
    | inl nothing ↦ ground (arith, append-nil l.raw_out)
    | inr ((pkt, queue), e) ↦
        ground
          (arith, get-items q.raw_queue queue pkt e, append_assoc l.raw_out (pkt ∷ []) queue.items)
  ]

  take_packet-IsBalanced : let (q', l') = step c take_packet (q, l) in IsBalanced q' l'
  unfolding step dequeue_packet
  take_packet-IsBalanced = elim (Option-cases (BoundedQueue.get q.packet_queue)) [
    | inl nothing ↦ ground (arith, append-nil l.packets_out)
    | inr ((item, queue), e) ↦ ground (
      arith,
      get-items q.packet_queue queue item e,
      append_assoc l.packets_out (item ∷ []) queue.items,
    )
  ]

module _ {R P L : Type 0} (c : Config) where
  step-IsBalanced :
      (e : Event R P L) (q : PacketQueues R P L) (l : Ledger R P L)
      → IsBalanced q l
      → let (q', l') = step c e (q, l) in IsBalanced q' l'
  step-IsBalanced (raw_packet now pkt) q l h = raw_packet-IsBalanced c q l h now pkt
  step-IsBalanced (packet now item) q l h = packet-IsBalanced c q l h now item
  step-IsBalanced (log entry) q l h = log-IsBalanced c q l h entry
  step-IsBalanced take_raw q l h = take_raw-IsBalanced c q l h
  step-IsBalanced take_packet q l h = take_packet-IsBalanced c q l h

  play-IsBalanced :
      (es : List (Event R P L)) (q : PacketQueues R P L) (l : Ledger R P L)
      → IsBalanced q l
      → let (q', l') = play c es (q, l) in IsBalanced q' l'
  unfolding play
  play-IsBalanced [] q l h = h
  play-IsBalanced (e ∷ es) q l h =
      let (q', l') = step c e (q, l) in play-IsBalanced es q' l' (step-IsBalanced e q l h)

  new_queues-IsBalanced : IsBalanced (new_queues {R = R} {P = P} {L = L} c) blank
  unfolding new_queues
  new_queues-IsBalanced = ground arith

  -- From new queues, whatever the calls and their times: each of the three queues holds, in order,
  -- what it took in and has not handed out, and never more than its bound; each refused frame or
  -- packet was reported by a warning or is still counted, and each refused log entry is counted.
  pub queues_lose_nothing :
      (es : List (Event R P L)) → let (q, l) = play c es (new_queues c, blank) in IsBalanced q l
  queues_lose_nothing es = play-IsBalanced es (new_queues c) blank new_queues-IsBalanced
