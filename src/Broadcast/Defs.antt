-- ===== src/Broadcast/Defs.antt =====
-- ids/websocket_updates.py. A queue object is known by the number of queues made before it, and
-- stays there when it is no listener any more, as its stream still reads from it.
use ids_bachelor_thesis.Prelude.{
  ℕ, suc, ◌==◌, number_test, Option, none, some, List, [], ◌∷◌, ◌++◌, remove, if◌then◌else◌,
}
use ids_bachelor_thesis.BoundedQueue
use ids_bachelor_thesis.BoundedQueue.{Queue, put_nowait}

pub record Broadcaster (M : Type 0) : Type 0 where
  pub listeners : List ℕ
  pub queues : ℕ → Queue M
  pub created : ℕ

-- What a stream yields.
pub data Chunk (M : Type 0) : Type 0 where
  connected heartbeat : Chunk M
  event : M → Chunk M

pub data Call (M : Type 0) : Type 0 where
  start : Call M
  next stop : ℕ → Call M
  send : M → Call M

unfoldable pub remove_all : List ℕ → List ℕ → List ℕ
remove_all [] listeners = listeners
remove_all (q ∷ dead) listeners = remove_all dead (remove q listeners)

module _ {M : Type 0} where
  abbrev pub put_at : ℕ → Queue M → (ℕ → Queue M) → ℕ → Queue M
  put_at q queue queues r = if q == r then queue else queues r

  unfoldable pub subscribe : Broadcaster M → Broadcaster M × ℕ
  subscribe b = (
    record {
      listeners = b.listeners ++ b.created ∷ [];
      queues = put_at b.created (BoundedQueue.empty 100) b.queues;
      created = suc b.created;
    },
    b.created,
  )

  unfoldable pub unsubscribe : ℕ → Broadcaster M → Broadcaster M
  unsubscribe q b = record b { listeners = remove q b.listeners }

  abbrev and_dead : ℕ → (ℕ → Queue M) × List ℕ → (ℕ → Queue M) × List ℕ
  and_dead q (queues, dead) = (queues, q ∷ dead)

  -- The message goes to each listener in turn; those whose queue is full are dead.
  unfoldable pub put_all : M → List ℕ → (ℕ → Queue M) → (ℕ → Queue M) × List ℕ
  put_all m [] queues = (queues, [])
  put_all m (q ∷ rest) queues = elim (put_nowait m (queues q)) [
    | none ↦ and_dead q (put_all m rest queues)
    | some queue ↦ put_all m rest (put_at q queue queues)
  ]

  unfoldable pub broadcast : M → Broadcaster M → Broadcaster M
  unfolding put_all remove_all
  broadcast m b =
      let (queues, dead) = put_all m b.listeners b.queues in
      record b { listeners = remove_all dead b.listeners; queues = queues }

  abbrev pub received : ℕ → Broadcaster M → Option (M × Queue M) → Broadcaster M × Chunk M
  received q b none = (b, Chunk.heartbeat)
  received q b (some (m, queue)) = (record b { queues = put_at q queue b.queues }, Chunk.event m)

  -- One turn of the loop of `sse_stream`; a queue that stays empty gives a heartbeat.
  unfoldable pub next_chunk : ℕ → Broadcaster M → Broadcaster M × Chunk M
  next_chunk q b = received q b (BoundedQueue.get (b.queues q))

  -- A stream is opened, read and closed; a broadcast comes in between.
  unfoldable pub step : Call M → Broadcaster M → Broadcaster M
  unfolding subscribe unsubscribe broadcast next_chunk
  step Call.start b = (subscribe b).0
  step (Call.next q) b = (next_chunk q b).0
  step (Call.stop q) b = unsubscribe q b
  step (Call.send m) b = broadcast m b

  unfoldable pub run : List (Call M) → Broadcaster M → Broadcaster M
  run [] b = b
  run (c ∷ calls) b = run calls (step c b)
