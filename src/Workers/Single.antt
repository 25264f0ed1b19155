-- ===== src/Workers/Single.antt =====
-- No worker runs twice.
use ids_bachelor_thesis.Prelude.{
  ℕ, ◌<◌, ◌≡◌, ◌⊎◌, refl, ap, sym, ◌∙◌, ◌==◌, ◌||◌, number_test, text_test, Bool, true, false,
  String, Option, none, some, List, [], ◌∷◌, arith, inl, inr, Bool-cases, equal, if◌then◌else◌,
}
use ids_bachelor_thesis.Dict.{Dict, get}
use ids_bachelor_thesis.Dict.Laws.{get-insert}
use ids_bachelor_thesis.Workers.Defs.{
  Workers, Event, heartbeat, register_restart, set_event, start_thread, is_alive, replace,
  restart_worker, is_stalled, watch, step, run,
}

-- A thread that has neither ended nor been told to is the one on record for its worker, with its
-- event.
abbrev pub IsSingle : Workers → Type 0
IsSingle w =
    (t : ℕ) (id : String)
    → get w.started t ≡ some id
    → (t < w.made)
      × (((w.is_over t || w.is_set t) ≡ true)
          ⊎ ((get w.worker_threads id ≡ some t) × (get w.worker_cancels id ≡ some t)))

-- A new thread for a worker whose old ones have ended or been told to.
start_thread-IsSingle :
    (id : String) (w : Workers)
    → IsSingle w
    → ((t : ℕ) → get w.started t ≡ some id → (w.is_over t || w.is_set t) ≡ true)
    → IsSingle (start_thread id w)
unfolding start_thread
start_thread-IsSingle id w single over t name h = elim (Bool-cases (w.made == t)) [
  | inl new ↦
      let same : id ≡ name = ground (arith, get-insert w.started w.made id t) in
      (
        ground (arith, number_test.test_iff w.made t),
        inr (
          ground (
            arith,
            get-insert w.worker_threads id w.made name,
            text_test.test_iff id name,
            number_test.test_iff w.made t,
          ),
          ground (
            arith,
            get-insert w.worker_cancels id w.made name,
            text_test.test_iff id name,
            number_test.test_iff w.made t,
          ),
        ),
      )
  | inr old ↦
      let was : get w.started t ≡ some name = ground (arith, get-insert w.started w.made id t) in
      let (lt, one) = single t name was in
      (
        omega (arith, lt),
        elim (Bool-cases (id == name)) [
          | inl same ↦ inl (over t (was ∙ ap some (sym (equal id name same))))
          | inr other ↦ elim one [
            | inl gone ↦ inl gone
            | inr (thread, cancel) ↦ inr (
              ground (arith, get-insert w.worker_threads id w.made name),
              ground (arith, get-insert w.worker_cancels id w.made name),
            )
          ]
        ],
      )
]

replace-IsSingle :
    (id : String) (o : Option ℕ) (w : Workers)
    → get w.worker_cancels id ≡ o
    → IsSingle w
    → IsSingle (replace id o w)
unfolding set_event register_restart
replace-IsSingle id none w e single = single
replace-IsSingle id (some c) w e single =
    start_thread-IsSingle id (register_restart id (set_event c w))
      (λ t name h. (
        (single t name h).0,
        elim (single t name h).1 [ inl gone ↦ inl (ground arith) | inr here ↦ inr here ],
      ))
      (λ t h. elim (single t id h).1 [
        | inl gone ↦ ground arith
        | inr (thread, cancel) ↦ ground (arith, number_test.test_iff c t)
      ])

restart_worker-IsSingle : (id : String) (w : Workers) → IsSingle w → IsSingle (restart_worker id w)
unfolding restart_worker register_restart
restart_worker-IsSingle id w single = elim (Bool-cases (is_alive w (get w.worker_threads id))) [
  | inl alive ↦ rw alive (replace-IsSingle id (get w.worker_cancels id) w refl single)
  | inr dead ↦ rw dead (
      start_thread-IsSingle id (register_restart id w) single (λ t h. elim (single t id h).1 [
        | inl gone ↦ gone
        | inr (thread, cancel) ↦ ground (arith, ap (is_alive w) thread)
      ]))
]

watch-IsSingle :
    (now : ℕ) (beats : Dict String ℕ) (ids : List String) (w : Workers)
    → IsSingle w
    → IsSingle (watch now beats ids w)
unfolding watch
watch-IsSingle now beats [] w single = single
watch-IsSingle now beats (id ∷ ids) w single =
    watch-IsSingle now beats ids (if is_stalled now beats id then restart_worker id w else w)
      (if-IsSingle (is_stalled now beats id))
  where
    if-IsSingle : (b : Bool) → IsSingle (if b then restart_worker id w else w)
    if-IsSingle true = restart_worker-IsSingle id w single
    if-IsSingle false = single

step-IsSingle : (e : Event) (w : Workers) → IsSingle w → IsSingle (step e w)
unfolding step heartbeat
step-IsSingle (Event.beats now id) w single = single
step-IsSingle (Event.ends t) w single = λ u name h. (
  (single u name h).0,
  elim (single u name h).1 [ inl gone ↦ inl (ground arith) | inr here ↦ inr here ],
)
step-IsSingle (Event.watches now ids) w single = watch-IsSingle now w.heartbeats ids w single

-- Whatever the heartbeats, the ends of threads and the turns of the watchdog: if each thread that
-- has neither ended nor been told to is the one on record for its worker at first, then so it is
-- always. So no two threads of one worker take packets, but for one that is told to stop and still
-- works on its last.
pub run-IsSingle : (events : List Event) (w : Workers) → IsSingle w → IsSingle (run events w)
unfolding run
run-IsSingle [] w single = single
run-IsSingle (e ∷ events) w single = run-IsSingle events (step e w) (step-IsSingle e w single)
