-- ===== src/Auth/Nonces.antt =====
-- `NonceTracker` of intelligence/sensor_auth.py. Times are microseconds since the epoch.
use ids_bachelor_thesis.Prelude.{
  ℕ, ◌+◌, ◌*◌, ◌≤◌, ◌≡◌, Bool, true, false, String, some, [], arith, ltb, text_test, if◌then◌else◌,
}
use ids_bachelor_thesis.Dict.{Dict, get, insert, evict, is_some}
use ids_bachelor_thesis.Dict.Laws.{get-insert, get-evict}

abbrev pub second : ℕ
second = 1_000_000

pub record NonceTracker : Type 0 where
  -- in seconds
  pub retention : ℕ
  pub seen : Dict String ℕ
  pub last_sweep : ℕ

abbrev pub new_tracker : ℕ → NonceTracker
new_tracker retention_sec = record { retention = retention_sec; seen = []; last_sweep = 0 }

-- `exp < cutoff`, with `cutoff = now - retention`
abbrev pub is_stale : ℕ → ℕ → ℕ → Bool
is_stale retention now exp = ltb (exp + retention * second) now

-- At most once a second the old entries are dropped.
unfoldable pub sweep : ℕ → NonceTracker → NonceTracker
sweep now t =
    if ltb (t.last_sweep + second) now
    then record t { seen = evict (is_stale t.retention now) t.seen; last_sweep = now }
    else t

unfoldable pub record_nonce : ℕ → String → NonceTracker → NonceTracker × Bool
record_nonce now nonce t =
    if is_some (get t.seen nonce)
    then (t, false)
    else (record t { seen = insert t.seen nonce (now + t.retention * second) }, true)

unfoldable pub check_and_record : ℕ → String → NonceTracker → NonceTracker × Bool
unfolding sweep record_nonce
check_and_record now nonce t = record_nonce now nonce (sweep now t)

module _ (now : ℕ) (nonce : String) (t : NonceTracker) where
  pub retention-check_and_record : (check_and_record now nonce t).0.retention ≡ t.retention
  unfolding check_and_record
  retention-check_and_record = ground arith

  -- What a sweep may have dropped from the entry of one nonce.
  get-sweep :
      (n : String) (exp : ℕ)
      → get t.seen n ≡ some exp
      → now ≤ exp + t.retention * second
      → get (sweep now t).seen n ≡ some exp
  unfolding sweep
  get-sweep n exp h le = ground (arith, get-evict (is_stale t.retention now) t.seen n)

  -- An entry outlives every call up to its expiry plus the retention, whatever nonce is offered.
  pub entry_survives :
      (n : String) (exp : ℕ)
      → get t.seen n ≡ some exp
      → now ≤ exp + t.retention * second
      → get (check_and_record now nonce t).0.seen n ≡ some exp
  unfolding check_and_record
  entry_survives n exp h le = ground (
    arith,
    get-evict (is_stale t.retention now) t.seen n,
    get-insert (sweep now t).seen nonce (now + t.retention * second) n,
    text_test.test_iff nonce n,
  )

  -- An accepted nonce is recorded, to expire a retention from now.
  pub accepted_is_recorded :
      (check_and_record now nonce t).1 ≡ true
      → get (check_and_record now nonce t).0.seen nonce ≡ some (now + t.retention * second)
  unfolding check_and_record
  accepted_is_recorded h = ground (
    arith,
    get-insert (sweep now t).seen nonce (now + t.retention * second) nonce,
    text_test.test_iff nonce nonce,
  )

  -- A nonce on record is refused until its expiry plus the retention.
  pub recorded_is_refused :
      (exp : ℕ)
      → get t.seen nonce ≡ some exp
      → now ≤ exp + t.retention * second
      → (check_and_record now nonce t).1 ≡ false
  unfolding check_and_record
  recorded_is_refused exp h le = ground (arith, get-evict (is_stale t.retention now) t.seen nonce)
