-- ===== src/Sender/Wait.antt =====
-- The wait for the web server ends, and meets a server that comes up in time.
use ids_bachelor_thesis.Prelude.{
  ℕ, zero, suc, ◌+◌, ◌-◌, ◌*◌, ◌≤◌, ◌<◌, max, ◌≡◌, ◌≢◌, refl, Bool, true, false, String, some,
  arith, ltb, inl, inr, Bool-cases, Option-cases,
}
use ids_bachelor_thesis.Sender.Defs.{
  Config, Host, half_second, two_seconds, min, verdict, pause, wait_loop, started, wait_for_web_ui,
}

-- A sleep takes its time and at most `late` longer, and a POST at most `post_max`.
pub record IsTimed {W : Type 0} (h : Host W) (post_max late : ℕ) : Type 0 where
  pub sleeps : (d : ℕ) (w : W) → h.clock w + d ≤ h.clock (h.sleep d w)
  pub wakes : (d : ℕ) (w : W) → h.clock (h.sleep d w) ≤ h.clock w + d + late
  pub forward : (w : W) → h.clock w ≤ h.clock (h.post w).0
  pub answers : (w : W) → h.clock (h.post w).0 ≤ h.clock w + post_max

-- The server answers 200 from the time `up` on, and before that it does not refuse.
pub record IsUp {W : Type 0} (h : Host W) (up : ℕ) : Type 0 where
  pub after : (w : W) → up ≤ h.clock w → verdict (h.post w).1 ≡ some true
  pub before : (w : W) → verdict (h.post w).1 ≢ some false

module _ {W : Type 0} (h : Host W) (post_max late : ℕ) (timed : IsTimed h post_max late) where
  pause-min : (deadline : ℕ) (w : W) → h.clock w + half_second ≤ h.clock (pause h deadline w)
  pause-min deadline w =
      ground (arith, timed.sleeps (min two_seconds (max half_second (deadline - h.clock w))) w)

  pause-max : (deadline : ℕ) (w : W) → h.clock (pause h deadline w) ≤ h.clock w + two_seconds + late
  pause-max deadline w =
      ground (arith, timed.wakes (min two_seconds (max half_second (deadline - h.clock w))) w)

  -- A turn for each half second is fuel enough.
  wait_loop-returns :
      (n deadline : ℕ) (w : W)
      → deadline ≤ h.clock w + n * half_second
      → (r : W × Bool) × (wait_loop h (suc n) deadline w ≡ some r)
  unfolding wait_loop
  wait_loop-returns zero deadline w enough =
      let over : ltb (h.clock w) deadline ≡ false = ground arith in ((w, false), rw over refl)
  wait_loop-returns (suc n) deadline w enough = elim (Bool-cases (ltb (h.clock w) deadline)) [
    | inr over ↦ ((w, false), rw over refl)
    | inl early ↦ elim (Option-cases (verdict (h.post w).1)) [
      | inr (connected, v) ↦ (((h.post w).0, connected), rw (early, v) refl)
      | inl v ↦
          let (r, e) =
            wait_loop-returns n deadline (pause h deadline (h.post w).0)
              (omega (arith, enough, pause-min deadline (h.post w).0, timed.forward w)) in
          (r, rw (early, v) e)
    ]
  ]

  module _ (up : ℕ) (is_up : IsUp h up) where
    wait_loop-connects :
        (n deadline : ℕ) (w : W)
        → deadline ≤ h.clock w + n * half_second
        → up + post_max + two_seconds + late ≤ deadline
        → h.clock w < deadline
        → (w' : W) × (wait_loop h (suc n) deadline w ≡ some (w', true))
    unfolding wait_loop
    wait_loop-connects zero deadline w enough in_time early = absurd (omega arith)
    wait_loop-connects (suc n) deadline w enough in_time early =
        let test : ltb (h.clock w) deadline ≡ true = ground arith in
        elim (Option-cases (verdict (h.post w).1)) [
          | inr (true, v) ↦ ((h.post w).0, rw (test, v) refl)
          | inr (false, v) ↦ absurd (is_up.before w v)
          | inl v ↦ elim (Bool-cases (ltb (h.clock w) up)) [
            | inr there ↦ absurd (ground (arith, v, is_up.after w))
            | inl not_yet ↦
                let (w', e) =
                  wait_loop-connects n deadline (pause h deadline (h.post w).0)
                    (omega (arith, enough, pause-min deadline (h.post w).0, timed.forward w))
                    in_time
                    (ground (
                      arith,
                      not_yet,
                      in_time,
                      pause-max deadline (h.post w).0,
                      timed.answers w,
                    )) in
                (w', rw (test, v) e)
          ]
        ]

    -- The wait at the start ends with a connection, within a turn for each half second of the longest
    -- wait and one more, if the address is set, some wait is configured, and the server comes up at
    -- least one turn before the deadline: it answers each POST from the time `up` on with 200, and
    -- none before that with 401 or 403. A turn takes at most the time of a POST, two seconds and what
    -- a sleep is late by.
    pub wait_for_web_ui-connects :
        (n : ℕ) (c : Config) (url : String) (w : W)
        → c.safe_api_url ≡ some url
        → max c.sender_max_wait c.startup_delay ≤ n * half_second
        → 0 < c.sender_max_wait
        → up + post_max + two_seconds + late
          ≤ h.clock (started h c w) + max c.sender_max_wait c.startup_delay
        → (w' : W) × (wait_for_web_ui h (suc n) c w ≡ some (w', true))
    unfolding wait_for_web_ui
    wait_for_web_ui-connects n c url w is_set enough some_wait in_time = rw is_set (
        wait_loop-connects n (h.clock (started h c w) + max c.sender_max_wait c.startup_delay)
          (started h c w) (omega (arith, enough)) in_time (ground arith))

  -- Whatever the server answers, the wait at the start ends: a turn for each half second of the
  -- longest wait, and one more, are enough.
  pub wait_for_web_ui-returns :
      (n : ℕ) (c : Config) (w : W)
      → max c.sender_max_wait c.startup_delay ≤ n * half_second
      → (r : W × Bool) × (wait_for_web_ui h (suc n) c w ≡ some r)
  unfolding wait_for_web_ui
  wait_for_web_ui-returns n c w enough = elim (Option-cases c.safe_api_url) [
    | inl unset ↦ ((w, false), rw unset refl)
    | inr (url, is_set) ↦ rw is_set (
        wait_loop-returns n (h.clock (started h c w) + max c.sender_max_wait c.startup_delay)
          (started h c w) (omega (arith, enough)))
  ]
