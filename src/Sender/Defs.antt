-- ===== src/Sender/Defs.antt =====
-- api_client/sender.py: the wait for the web server at the start, and the turns of the main loop.
-- Times are microseconds. The world `W` holds the clock and the web server.
use ids_bachelor_thesis.Prelude.{
  ℕ, zero, suc, ◌+◌, ◌-◌, ◌*◌, ◌%◌, max, ◌==◌, number_test, text_test, Bool, true, false, not, ◌&&◌,
  ◌||◌, String, Option, none, some, ltb, leb, if◌then◌else◌,
}
use ids_bachelor_thesis.Text.{concat}

-- The settings, with the checked address of the web server.
pub record Config : Type 0 where
  pub safe_api_url : Option String
  pub send_interval : ℕ
  pub startup_delay : ℕ
  pub sender_max_wait : ℕ

-- The member "error" of a response: none that can be read, a text, or a code with a message, where
-- a text that is missing is empty.
pub data Error : Type 0 where
  unreadable : Error
  in_words : String → Error
  coded : (code message : String) → Error

-- How a POST ends. `unreachable` is a ConnectionError that is no SSLError.
pub data Post : Type 0 where
  response : (status : ℕ) → Error → Post
  ssl_error unreachable timed_out failed : Post

-- What the code uses of requests and time; `str_of` is `str` on a status.
pub record Host (W : Type 0) : Type 0 where
  pub clock : W → ℕ
  pub sleep : ℕ → W → W
  pub post : W → W × Post
  pub str_of : ℕ → String

abbrev pub half_second : ℕ
half_second = 500_000

abbrev pub two_seconds : ℕ
two_seconds = 2_000_000

abbrev pub min : ℕ → ℕ → ℕ
min a b = if leb a b then a else b

-- Whether an answer ends the wait.
abbrev pub verdict : Post → Option Bool
verdict (response status error) =
    if status == 200 then some true else if status == 401 || status == 403 then some false else none
verdict ssl_error = none
verdict unreachable = none
verdict timed_out = none
verdict failed = none

module _ {W : Type 0} (h : Host W) where
  -- `min(2.0, max(0.5, deadline - time.time()))`; a difference below 0 counts as 0.
  abbrev pub pause : ℕ → W → W
  pause deadline w = h.sleep (min two_seconds (max half_second (deadline - h.clock w))) w

  -- The loop, on fuel; `none` is for the fuel that ran out.
  unfoldable pub wait_loop : ℕ → ℕ → W → Option (W × Bool)
  wait_loop zero deadline w = none
  wait_loop (suc fuel) deadline w =
      if ltb (h.clock w) deadline
      then elim (verdict (h.post w).1) [
        | some connected ↦ some ((h.post w).0, connected)
        | none ↦ wait_loop fuel deadline (pause deadline (h.post w).0)
      ]
      else some (w, false)

  abbrev pub started : Config → W → W
  started c w = if ltb 0 c.startup_delay then h.sleep c.startup_delay w else w

  unfoldable pub wait_for_web_ui : ℕ → Config → W → Option (W × Bool)
  unfolding wait_loop
  wait_for_web_ui fuel c w = elim c.safe_api_url [
    | none ↦ some (w, false)
    | some url ↦
        wait_loop fuel (h.clock (started c w) + max c.sender_max_wait c.startup_delay) (started c w)
  ]

  abbrev or_status : ℕ → String → String
  or_status status reason = if reason == "" then concat "HTTP " (h.str_of status) else reason

  -- `_classify_http_error(response) or f"HTTP {status}"`
  abbrev pub reason_of : ℕ → Error → String
  reason_of status unreadable = or_status status ""
  reason_of status (in_words words) = or_status status words
  reason_of status (coded code message) = or_status status (
      if not (code == "") && not (message == "")
      then concat code (concat ": " message)
      else if code == ""
      then message
      else code)

-- What the main loop keeps between its turns.
pub record Sender : Type 0 where
  pub consecutive_failures : ℕ
  pub last_logged_reason : Option String

abbrev pub initial : Sender
initial = record { consecutive_failures = 0; last_logged_reason = none }

abbrev pub is_logged : ℕ → Bool
is_logged failures = leb failures 3 || (failures % 12) == 0

abbrev pub is_other : String → Option String → Bool
is_other reason none = true
is_other reason (some last) = not (reason == last)

abbrev pub max_backoff_multiplier : ℕ
max_backoff_multiplier = 12

abbrev fail : Sender → Sender
fail s = record s { consecutive_failures = s.consecutive_failures + 1 }

module _ {W : Type 0} (h : Host W) (c : Config) where
  -- The state after a POST, and whether a warning or an error is logged.
  unfoldable pub after_post : Post → Sender → Sender × Bool
  after_post (response status error) s =
      let reason = reason_of h status error in
      if leb 200 status && ltb status 300 then (initial, false) else (
        record (fail s) { last_logged_reason = some reason },
        is_logged (s.consecutive_failures + 1) || is_other reason s.last_logged_reason,
      )
  after_post ssl_error s = (fail s, is_logged (s.consecutive_failures + 1))
  after_post unreachable s = (fail s, is_logged (s.consecutive_failures + 1))
  after_post timed_out s = (fail s, is_logged (s.consecutive_failures + 1))
  after_post failed s = (fail s, true)

  unfoldable pub sleep_for : Sender → ℕ
  sleep_for s =
      if ltb 0 s.consecutive_failures
      then c.send_interval * min s.consecutive_failures max_backoff_multiplier
      else c.send_interval

  -- One turn of `start_sender`: the world after its sleep, the state, and if it logged.
  unfoldable pub turn : W → Sender → W × Sender × Bool
  unfolding after_post sleep_for
  turn w s = elim c.safe_api_url [
    | none ↦ (h.sleep c.send_interval w, s, false)
    | some url ↦
        let (w', outcome) = h.post w in
        let (s', logged) = after_post outcome s in (h.sleep (sleep_for s') w', s', logged)
  ]
