-- ===== src/Auth/Replay.antt =====
-- An accepted request cannot be replayed.
use ids_bachelor_thesis.Prelude.{
  ℤ, pos, negsuc, ℕ, ◌+◌, ◌*◌, ◌≤◌, ◌≡◌, ◌≢◌, refl, ap, ◌∙◌, String, inl, inr, Option-cases, none,
  some, List, [], ◌∷◌, arith, text_test,
}
use ids_bachelor_thesis.Dict.{Dict, get}
use ids_bachelor_thesis.Auth.Nonces.{
  NonceTracker, second, entry_survives, accepted_is_recorded, recorded_is_refused,
  retention-check_and_record,
}
use ids_bachelor_thesis.Auth.Verify.{
  Primitives, Request, Outcome, accepted, header, timestamp_header, nonce_header, distance,
  verify_request,
}

-- One call of `verify_request`, with the times that it read: `clock` for the window, `later` for
-- the record of nonces.
pub record Call : Type 0 where
  pub request : Request
  pub headers : Dict String String
  pub clock : ℕ
  pub later : ℕ

-- No call begins before the one before it ended, and none runs past `last`.
abbrev pub InOrder : ℕ → List Call → ℕ → Type 0
InOrder from [] last = from ≤ last
InOrder from (c ∷ cs) last = (from ≤ c.clock) × (c.clock ≤ c.later) × InOrder c.later cs last

module _ (p : Primitives) (max_skew : ℕ) (secret : String) where
  unfoldable pub run : Call → NonceTracker → NonceTracker × Outcome
  run c t = verify_request p max_skew secret c.request c.headers none c.clock c.later t

  unfoldable pub run_all : List Call → NonceTracker → NonceTracker
  run_all [] t = t
  run_all (c ∷ cs) t = run_all cs (run c t).0

  retention-run : (c : Call) (t : NonceTracker) → (run c t).0.retention ≡ t.retention
  unfolding run verify_request
  retention-run c t =
      ground (arith, retention-check_and_record c.later (header c.headers nonce_header) t)

  run_keeps_entry :
      (c : Call) (t : NonceTracker) (n : String) (exp : ℕ)
      → get t.seen n ≡ some exp
      → c.later ≤ exp + t.retention * second
      → get (run c t).0.seen n ≡ some exp
  unfolding run verify_request
  run_keeps_entry c t n exp h le =
      ground (arith, entry_survives c.later (header c.headers nonce_header) t n exp h le)

  inorder_le : (from : ℕ) (cs : List Call) (last : ℕ) → InOrder from cs last → from ≤ last
  inorder_le from [] last h = h
  inorder_le from (c ∷ cs) last h = omega (arith, inorder_le c.later cs last h.2)

  run_all_keeps_entry :
      (cs : List Call) (t : NonceTracker) (n : String) (exp from last : ℕ)
      → get t.seen n ≡ some exp
      → InOrder from cs last
      → last ≤ exp + t.retention * second
      → (get (run_all cs t).seen n ≡ some exp) × ((run_all cs t).retention ≡ t.retention)
  unfolding run_all
  run_all_keeps_entry [] t n exp from last h o le = (h, refl)
  run_all_keeps_entry (c ∷ cs) t n exp from last h o le =
      let kept = run_keeps_entry c t n exp h (omega (arith, inorder_le c.later cs last o.2)) in
      let same = retention-run c t in
      let (a, b) =
        run_all_keeps_entry cs (run c t).0 n exp c.later last kept o.2
          (omega (arith, ap (λ (r : ℕ). r * second) same)) in
      (a, b ∙ same)

  -- An accepted call leaves its nonce on record, and its timestamp is within the skew.
  accepted_call :
      (c : Call) (t : NonceTracker)
      → (run c t).1 ≡ accepted
      → (ts : ℤ) × (p.int_of (header c.headers timestamp_header) ≡ some ts)
        × (distance c.clock ts ≤ max_skew * second)
        × (get (run c t).0.seen (header c.headers nonce_header)
            ≡ some (c.later + t.retention * second))
  unfolding run verify_request
  accepted_call c t h = elim (Option-cases (p.int_of (header c.headers timestamp_header))) [
    | inl e ↦ ground arith
    | inr (ts, e) ↦ (
      ts,
      e,
      ground arith,
      ground (arith, accepted_is_recorded c.later (header c.headers nonce_header) t),
    )
  ]

  refused_call :
      (c : Call) (t : NonceTracker) (exp : ℕ)
      → get t.seen (header c.headers nonce_header) ≡ some exp
      → c.later ≤ exp + t.retention * second
      → (run c t).1 ≢ accepted
  unfolding run verify_request
  refused_call c t exp h le =
      ground (arith, recorded_is_refused c.later (header c.headers nonce_header) t exp h le)

  -- two times within the skew of one timestamp are within twice the skew of one another
  within_twice : (a b s : ℕ) (ts : ℤ) → distance a ts ≤ s → distance b ts ≤ s → b ≤ a + s + s
  unfolding distance
  within_twice a b s (pos n) ha hb = omega arith
  within_twice a b s (negsuc n) ha hb = omega arith

  -- Once a request is accepted, no request with the same nonce and timestamp is accepted after it,
  -- whatever calls come in between, as long as calls follow one another on a clock that does not go
  -- back, the second call reads the clock twice within `delay`, and twice the skew plus that delay
  -- is at most twice the retention.
  pub replay_rejected :
      (first : Call) (between : List Call) (again : Call) (t : NonceTracker) (delay : ℕ)
      → (run first t).1 ≡ accepted
      → first.clock ≤ first.later
      → InOrder first.later between again.clock
      → again.clock ≤ again.later
      → again.later ≤ again.clock + delay
      → header again.headers timestamp_header ≡ header first.headers timestamp_header
      → header again.headers nonce_header ≡ header first.headers nonce_header
      → 2 * (max_skew * second) + delay ≤ 2 * (t.retention * second)
      → (run again (run_all between (run first t).0)).1 ≢ accepted
  replay_rejected first between again t delay ok order o le le' ts nc room ok' =
      let s = (run first t).0 in
      let (n, en, near, kept) = accepted_call first t ok in
      let (n', en', near', _) = accepted_call again (run_all between s) ok' in
      let same : n' ≡ n = cc (en, en', ts) in
      let soon =
        within_twice first.clock again.clock (max_skew * second) n near (rw (← same) near') in
      let same_retention = ap (λ (r : ℕ). r * second) (retention-run first t) in
      let (still, same_later) =
        run_all_keeps_entry between s (header first.headers nonce_header)
          (first.later + t.retention * second) first.later again.clock kept o
          (omega (arith, same_retention)) in
      refused_call again (run_all between s) (first.later + t.retention * second) (rw nc still)
        (omega (arith, same_retention, ap (λ (r : ℕ). r * second) same_later)) ok'
