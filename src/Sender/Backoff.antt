-- ===== src/Sender/Backoff.antt =====
-- The sleeps between two POSTs and the lines in the log, over any run of outcomes.
use ids_bachelor_thesis.Prelude.{
  ℕ, zero, suc, ◌+◌, ◌*◌, ◌/◌, max, All, ◌≡◌, refl, Bool, true, false, ◌&&◌, not, List, [], ◌∷◌,
  length, leb, ltb, number_test, arith, if◌then◌else◌, ap,
}
use ids_bachelor_thesis.Sender.Defs.{
  Config, Host, Post, Sender, initial, after_post, sleep_for, min, is_logged,
}

abbrev pub succeeded : Post → Bool
succeeded (Post.response status error) = leb 200 status && ltb status 300
succeeded Post.ssl_error = false
succeeded Post.unreachable = false
succeeded Post.timed_out = false
succeeded Post.failed = false

abbrev pub none_succeeded : List Post → Bool
none_succeeded [] = true
none_succeeded (o ∷ outcomes) = not (succeeded o) && none_succeeded outcomes

-- how many outcomes stand behind the last success
abbrev pub outage : List Post → ℕ
outage [] = 0
outage (o ∷ outcomes) =
    if none_succeeded (o ∷ outcomes) then suc (length outcomes) else outage outcomes

outage-none :
    (outcomes : List Post) → none_succeeded outcomes ≡ true → outage outcomes ≡ length outcomes
outage-none [] all = refl
outage-none (o ∷ outcomes) all = ground arith

factor : (i n : ℕ) → (if ltb 0 n then i * min n 12 else i) ≡ i * max 1 (min n 12)
factor i zero = omega arith
factor i (suc n) =
    let test : ltb 0 (suc n) ≡ true = ground arith in
    let same : min (suc n) 12 ≡ max 1 (min (suc n) 12) = ground arith in
    rw test (ap (λ k. i * k) same)

abbrev next : Sender → Sender
next s = record s { consecutive_failures = s.consecutive_failures + 1 }

-- Nothing answers.
abbrev is_outage : Post → Bool
is_outage (Post.response status error) = false
is_outage Post.ssl_error = true
is_outage Post.unreachable = true
is_outage Post.timed_out = true
is_outage Post.failed = false

abbrev pub IsOutage : List Post → Type 0
IsOutage = All (λ o. is_outage o ≡ true)

-- One more failure is one more line, or none.
counted :
    (n : ℕ) → (if is_logged (n + 1) then 1 else 0) + min n 3 + n / 12 ≡ min (n + 1) 3 + (n + 1) / 12
counted n = ground arith

module _ {W : Type 0} (h : Host W) (c : Config) where
  -- The states of the loop follow the outcomes of its POSTs.
  unfoldable pub after_posts : List Post → Sender → Sender
  unfolding after_post
  after_posts [] s = s
  after_posts (o ∷ outcomes) s = after_posts outcomes (after_post h c o s).0

  after_post-failures :
      (o : Post) (s : Sender)
      → (after_post h c o s).0.consecutive_failures
        ≡ (if succeeded o then 0 else s.consecutive_failures + 1)
  unfolding after_post
  after_post-failures (Post.response status error) s = ground arith
  after_post-failures Post.ssl_error s = refl
  after_post-failures Post.unreachable s = refl
  after_post-failures Post.timed_out s = refl
  after_post-failures Post.failed s = refl

  after_posts-failures :
      (outcomes : List Post) (s : Sender)
      → (after_posts outcomes s).consecutive_failures ≡ (
          if none_succeeded outcomes
          then s.consecutive_failures + length outcomes
          else outage outcomes)
  unfolding after_posts
  after_posts-failures [] s = omega arith
  after_posts-failures (o ∷ outcomes) s = ground (
    arith,
    after_post-failures o s,
    after_posts-failures outcomes (after_post h c o s).0,
    outage-none outcomes,
  )

  -- After any outcomes since the start, the sleep is the interval times the number of outcomes since
  -- the last success, at least once and at most twelve times. So it is one interval after a success
  -- and after a first failure, and never longer than twelve.
  pub sleep_for-outage :
      (outcomes : List Post)
      → sleep_for h c (after_posts outcomes initial)
        ≡ c.send_interval * max 1 (min (outage outcomes) 12)
  unfolding sleep_for
  sleep_for-outage outcomes =
      let e : (after_posts outcomes initial).consecutive_failures ≡ outage outcomes =
        ground (arith, after_posts-failures outcomes initial, outage-none outcomes) in
      rw e (factor c.send_interval (outage outcomes))

  -- the lines that a run of outcomes logs
  unfoldable pub logged : List Post → Sender → ℕ
  unfolding after_post
  logged [] s = 0
  logged (o ∷ outcomes) s =
      (if (after_post h c o s).1 then 1 else 0) + logged outcomes (after_post h c o s).0

  logs_from :
      (outcomes : List Post) (s : Sender)
      → IsOutage outcomes
      → logged outcomes s + min s.consecutive_failures 3 + s.consecutive_failures / 12
        ≡ min (s.consecutive_failures + length outcomes) 3
          + (s.consecutive_failures + length outcomes) / 12
  unfolding logged after_post
  logs_from [] s o = ground arith
  logs_from (Post.response status error ∷ outcomes) s o = absurd (ground arith)
  logs_from (Post.failed ∷ outcomes) s o = absurd (ground arith)
  logs_from (Post.ssl_error ∷ outcomes) s o =
      ground (arith, counted s.consecutive_failures, logs_from outcomes (next s) o.1)
  logs_from (Post.unreachable ∷ outcomes) s o =
      ground (arith, counted s.consecutive_failures, logs_from outcomes (next s) o.1)
  logs_from (Post.timed_out ∷ outcomes) s o =
      ground (arith, counted s.consecutive_failures, logs_from outcomes (next s) o.1)

  -- While no server answers, the POSTs since the start log one line for each of the first three and
  -- one for each twelfth.
  pub logged-outage :
      (outcomes : List Post)
      → IsOutage outcomes
      → logged outcomes initial ≡ min (length outcomes) 3 + length outcomes / 12
  logged-outage outcomes o = ground (arith, logs_from outcomes initial o)
