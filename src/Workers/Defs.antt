-- ===== src/Workers/Defs.antt =====
-- `WorkerMonitor` of ids/worker_monitoring.py and `_restart_worker` of ids_engine.py. Threads and
-- cancel events are known by numbers. Times are microseconds.
use ids_bachelor_thesis.Prelude.{
  ℕ, suc, ◌+◌, ◌==◌, number_test, text_test, Bool, true, false, not, String, Option, none, some,
  List, [], ◌∷◌, ltb, if◌then◌else◌,
}
use ids_bachelor_thesis.Dict.{Dict, get, insert}

-- `started` has the worker of each thread ever started, `is_over` the threads that have ended, and
-- `is_set` the cancel events that are set; a thread and its event have the same number.
pub record Workers : Type 0 where
  pub heartbeats : Dict String ℕ
  pub restart_counts : Dict String ℕ
  pub worker_threads : Dict String ℕ
  pub worker_cancels : Dict String ℕ
  pub started : Dict ℕ String
  pub is_over : ℕ → Bool
  pub is_set : ℕ → Bool
  pub made : ℕ

abbrev pub stall_threshold : ℕ
stall_threshold = 120_000_000

unfoldable pub heartbeat : ℕ → String → Workers → Workers
heartbeat now id w = record w { heartbeats = insert w.heartbeats id now }

abbrev or_zero : Option ℕ → ℕ
or_zero none = 0
or_zero (some n) = n

unfoldable pub register_restart : String → Workers → Workers
register_restart id w = record w {
  restart_counts = insert w.restart_counts id (or_zero (get w.restart_counts id) + 1);
}

unfoldable pub set_event : ℕ → Workers → Workers
set_event c w = record w { is_set = λ d. if c == d then true else w.is_set d }

-- A thread with a new event, which is not set.
unfoldable pub start_thread : String → Workers → Workers
start_thread id w = record w {
  worker_cancels = insert w.worker_cancels id w.made;
  worker_threads = insert w.worker_threads id w.made;
  started = insert w.started w.made id;
  made = suc w.made;
}

abbrev pub is_alive : Workers → Option ℕ → Bool
is_alive w none = false
is_alive w (some t) = not (w.is_over t)

-- What `_restart_worker` does for an old thread that is alive, by its event.
abbrev pub replace : String → Option ℕ → Workers → Workers
replace id none w = w
replace id (some c) w = start_thread id (register_restart id (set_event c w))

unfoldable pub restart_worker : String → Workers → Workers
unfolding start_thread register_restart set_event
restart_worker id w =
    if is_alive w (get w.worker_threads id)
    then replace id (get w.worker_cancels id) w
    else start_thread id (register_restart id w)

abbrev pub last_beat : ℕ → Option ℕ → ℕ
last_beat now none = now
last_beat now (some t) = t

abbrev pub is_stalled : ℕ → Dict String ℕ → String → Bool
is_stalled now beats id = ltb (last_beat now (get beats id) + stall_threshold) now

-- One turn of the watchdog, over the heartbeats it has read.
unfoldable pub watch : ℕ → Dict String ℕ → List String → Workers → Workers
unfolding restart_worker
watch now beats [] w = w
watch now beats (id ∷ ids) w =
    watch now beats ids (if is_stalled now beats id then restart_worker id w else w)

pub data Event : Type 0 where
  beats : (now : ℕ) → (id : String) → Event
  -- the thread returns or dies
  ends : ℕ → Event
  -- a turn of the watchdog for its workers
  watches : (now : ℕ) → (ids : List String) → Event

unfoldable pub step : Event → Workers → Workers
unfolding heartbeat watch
step (Event.beats now id) w = heartbeat now id w
step (Event.ends t) w = record w { is_over = λ u. if t == u then true else w.is_over u }
step (Event.watches now ids) w = watch now w.heartbeats ids w

unfoldable pub run : List Event → Workers → Workers
run [] w = w
run (e ∷ events) w = run events (step e w)
