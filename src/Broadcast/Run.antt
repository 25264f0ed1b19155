-- ===== src/Broadcast/Run.antt =====
-- What a listener receives over a run of the streams and the broadcasts.
use mathlib.Core.List.{append_assoc, append-nil}
use ids_bachelor_thesis.Prelude.{
  ℕ, ◌<◌, ◌≤◌, ◌≡◌, refl, sym, ap, ◌∙◌, ◌==◌, number_test, Bool, true, false, not, Option, none,
  some, List, [], ◌∷◌, ◌++◌, arith, remove-Distinct, has, has-append, has_of_remove, has_of_keep,
  has-keep_p, keep-Distinct, append-Distinct, Distinct, if◌then◌else◌, inl, inr, Option-cases,
  Bool-cases,
}
use ids_bachelor_thesis.BoundedQueue.{Queue, get, get-items}
use ids_bachelor_thesis.Broadcast.Defs.{
  Broadcaster, Chunk, Call, subscribe, unsubscribe, broadcast, received, next_chunk, step, run,
}
use ids_bachelor_thesis.Broadcast.Deliver.{is_full, broadcast-reference}

module _ {M : Type 0} where
  -- Nothing is a listener twice, and the listeners are queues that have been made.
  pub record IsBroadcaster (b : Broadcaster M) : Type 0 where
    pub distinct : Distinct b.listeners
    pub made : (q : ℕ) → has q b.listeners ≡ true → q < b.created

  -- the messages that were sent
  unfoldable pub sent : List (Call M) → List M
  sent [] = []
  sent (Call.start ∷ calls) = sent calls
  sent (Call.next q ∷ calls) = sent calls
  sent (Call.stop q ∷ calls) = sent calls
  sent (Call.send m ∷ calls) = m ∷ sent calls

  abbrev event_of : Chunk M → List M
  event_of (Chunk.event m) = m ∷ []
  event_of Chunk.connected = []
  event_of Chunk.heartbeat = []

  abbrev read_now : ℕ → Call M → Broadcaster M → List M
  read_now q Call.start b = []
  read_now q (Call.next r) b = if r == q then event_of (next_chunk r b).1 else []
  read_now q (Call.stop r) b = []
  read_now q (Call.send m) b = []

  -- the messages that the stream of `q` yields
  unfoldable pub read : ℕ → List (Call M) → Broadcaster M → List M
  unfolding next_chunk step
  read q [] b = []
  read q (c ∷ calls) b = read_now q c b ++ read q calls (step c b)

  fresh : (b : Broadcaster M) → IsBroadcaster b → has b.created b.listeners ≡ false
  fresh b i = elim (Bool-cases (has b.created b.listeners)) [
    | inl is_in ↦ absurd (omega (arith, i.made b.created is_in))
    | inr out ↦ out
  ]

  broadcast-created : (m : M) (b : Broadcaster M) → (broadcast m b).created ≡ b.created
  unfolding broadcast
  broadcast-created m b = refl

  received-listeners :
      (q : ℕ) (b : Broadcaster M) (o : Option (M × Queue M))
      → ((received q b o).0.listeners ≡ b.listeners) × ((received q b o).0.created ≡ b.created)
  received-listeners q b none = (refl, refl)
  received-listeners q b (some (m, queue)) = (refl, refl)

  -- Each call keeps the invariant, and makes no old queue a listener.
  step-IsBroadcaster :
      (c : Call M) (b : Broadcaster M)
      → IsBroadcaster b
      → IsBroadcaster (step c b)
        × (b.created ≤ (step c b).created)
        × ((q : ℕ) → q < b.created → has q (step c b).listeners ≡ true → has q b.listeners ≡ true)
  unfolding step subscribe unsubscribe next_chunk
  step-IsBroadcaster Call.start b i = (
    record {
      distinct = append-Distinct b.created b.listeners i.distinct (fresh b i);
      made = λ q h. ground (
        arith,
        has-append q b.listeners (b.created ∷ []),
        i.made q,
        number_test.test_iff b.created q,
      );
    },
    omega arith,
    λ q old h.
        ground (arith, has-append q b.listeners (b.created ∷ []), number_test.test_iff b.created q),
  )
  step-IsBroadcaster (Call.next r) b i =
      let (same, made) = received-listeners r b (get (b.queues r)) in
      (
        record { distinct = rw same i.distinct; made = rw (same, made) i.made },
        omega (arith, made),
        λ q old h. ap (has q) (sym same) ∙ h,
      )
  step-IsBroadcaster (Call.stop r) b i = (
    record {
      distinct = remove-Distinct r b.listeners i.distinct;
      made = λ q h. i.made q (has_of_remove q r b.listeners h);
    },
    omega arith,
    λ q old h. has_of_remove q r b.listeners h,
  )
  step-IsBroadcaster (Call.send m) b i =
      let (kept, _) = broadcast-reference m b i.distinct in
      let p : ℕ → Bool = λ r. not (is_full (b.queues r)) in
      (
        record {
          distinct = rw kept (keep-Distinct p b.listeners i.distinct);
          made = λ q h.
              rw (broadcast-created m b)
                (i.made q (has_of_keep q p b.listeners (ap (has q) (sym kept) ∙ h)));
        },
        omega (arith, broadcast-created m b),
        λ q old h. has_of_keep q p b.listeners (ap (has q) (sym kept) ∙ h),
      )

  -- What one call sends.
  abbrev sent_now : Call M → List M
  sent_now Call.start = []
  sent_now (Call.next q) = []
  sent_now (Call.stop q) = []
  sent_now (Call.send m) = m ∷ []

  sent-step : (c : Call M) (calls : List (Call M)) → sent (c ∷ calls) ≡ sent_now c ++ sent calls
  unfolding sent
  sent-step Call.start calls = refl
  sent-step (Call.next q) calls = refl
  sent-step (Call.stop q) calls = refl
  sent-step (Call.send m) calls = refl

  next-keeps :
      (q r : ℕ) (b : Broadcaster M)
      → (if r == q then event_of (next_chunk r b).1 else []) ++ ((next_chunk r b).0.queues q).items
        ≡ (b.queues q).items
  unfolding next_chunk
  next-keeps q r b = elim (Option-cases (get (b.queues r))) [
    | inl out ↦ ground (arith, out)
    | inr ((m, queue), at) ↦
        ground (arith, at, get-items (b.queues r) queue m, number_test.test_iff r q)
  ]

  step-keeps :
      (c : Call M) (b : Broadcaster M) (q : ℕ)
      → IsBroadcaster b
      → q < b.created
      → has q b.listeners ≡ true
      → has q (step c b).listeners ≡ true
      → read_now q c b ++ ((step c b).queues q).items ≡ (b.queues q).items ++ sent_now c
  unfolding step subscribe unsubscribe
  step-keeps Call.start b q i old was is = ground (arith, append-nil (b.queues q).items)
  step-keeps (Call.next r) b q i old was is = next-keeps q r b ∙ sym (append-nil (b.queues q).items)
  step-keeps (Call.stop r) b q i old was is = sym (append-nil (b.queues q).items)
  step-keeps (Call.send m) b q i old was is =
      let (kept, queues) = broadcast-reference m b i.distinct in
      let room =
        has-keep_p q (λ r. not (is_full (b.queues r))) b.listeners (ap (has q) (sym kept) ∙ is) in
      ground (arith, queues q)

  -- If at the start of a run no queue is a listener twice and each listener is a queue that has been
  -- made, then a queue that had been made by then and is a listener at the end was one at the start too,
  -- and its stream lost nothing: what the stream has yielded in the run and what is still in the queue
  -- are, together and in order, what was in the queue at first and then each message sent in the run.
  -- Queues that are made during the run are not meant.
  pub run-delivers :
      (calls : List (Call M)) (b : Broadcaster M) (q : ℕ)
      → IsBroadcaster b
      → q < b.created
      → has q (run calls b).listeners ≡ true
      → (has q b.listeners ≡ true)
        × (read q calls b ++ ((run calls b).queues q).items ≡ (b.queues q).items ++ sent calls)
  unfolding run read sent
  run-delivers [] b q i old is = (is, sym (append-nil (b.queues q).items))
  run-delivers (c ∷ calls) b q i old is =
      let (next, made, back) = step-IsBroadcaster c b i in
      let (is_next, later) = run-delivers calls (step c b) q next (omega (arith, made)) is in
      let was = back q old is_next in
      (
        was,
        append_assoc (read_now q c b) (read q calls (step c b))
              ((run calls (step c b)).queues q).items
            ∙ ap (λ l. read_now q c b ++ l) later
            ∙ sym (append_assoc (read_now q c b) ((step c b).queues q).items (sent calls))
            ∙ ap (λ l. l ++ sent calls) (step-keeps c b q i old was is_next)
            ∙ append_assoc (b.queues q).items (sent_now c) (sent calls)
            ∙ ap (λ l. (b.queues q).items ++ l) (sym (sent-step c calls)),
      )
