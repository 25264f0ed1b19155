-- ===== src/Supervisor/Tests.antt =====
-- The supervisor's theorems at runs of three processes.
use ids_bachelor_thesis.Prelude.{
  ◌≡◌, ◌≢◌, refl, pos, negsuc, true, false, ◌⊎◌, none, some, List, [], ◌∷◌, arith,
}
use ids_bachelor_thesis.Supervisor.Defs.{
  Os, Host, Config, State, initial, Round, running, returned, poll, run_forever, watch, turn,
  shutdown, arrive, apply_exits, start_web_server, start_ids_engine, start_ssl_interceptor,
  with_ssl, after_web_start, exit, terminate, reap_ids, reap_ssl,
}
use ids_bachelor_thesis.Supervisor.Stop.{AllStopped, run_forever_returns}
use ids_bachelor_thesis.Supervisor.Restart.{watch_without_ssl, ssl_exit_orphans_engine}

abbrev host : Host
host = record {
  web_script = true;
  ids_script = true;
  ssl_script = true;
  stop_code = λ pid. negsuc 14;
}

abbrev config : Config
config = record { ssl_enabled = true; auto_restart = true; restart_cooldown = 30_000_000 }

abbrev os : Os
os = record { status = λ pid. none; next = 100 }

abbrev calm : Round
calm = record { exits = []; signal = false; now = 90_000_000; after_restart = 90_000_000 }

abbrev web_dies : Round
web_dies = record calm { exits = (100, pos 0) ∷ [] }

abbrev rounds : List Round
rounds = calm ∷ web_dies ∷ calm ∷ []

runs : (run_forever config host calm rounds (initial os)).0 ≡ returned (pos 1)
unfolding run_forever watch turn shutdown arrive apply_exits start_web_server start_ids_engine
    start_ssl_interceptor with_ssl after_web_start exit terminate reap_ids reap_ssl
runs = refl

run_forever_returns_example :
    AllStopped (run_forever config host calm rounds (initial os)).1 × (pos 1 ≢ pos 0)
run_forever_returns_example =
    let (stopped, code) = run_forever_returns config host calm rounds os (pos 1) runs in
    (stopped, code refl (refl, (refl, (refl, tt))))

abbrev two_children : State
two_children = record {
  supervisor = record {
    is_shutdown = false;
    ids_proc = some 1;
    web_proc = some 0;
    ssl_proc = none;
  };
  os = record { status = λ pid. none; next = 2 };
  last_ids_restart = 0;
}

abbrev engine_dies : Round
engine_dies = record calm { exits = (1, pos 3) ∷ [] }

watch_without_ssl_example :
    let (outcome, s') = watch config host (engine_dies ∷ calm ∷ []) two_children in
    ((s'.os.next ≡ 2)
      × (s'.supervisor.ssl_proc ≡ none)
      × ((s'.supervisor.ids_proc ≡ some 1) ⊎ (s'.supervisor.ids_proc ≡ none)))
    × (outcome ≡ running
        → (s'.supervisor.ids_proc ≡ none)
          ⊎ ((s'.supervisor.ids_proc ≡ some 1) × (poll s'.os s'.supervisor.ids_proc ≡ none)))
watch_without_ssl_example = watch_without_ssl config host engine_dies (calm ∷ []) two_children refl

-- The IDS engine exits, automatic restart is on, and no engine is started.
engine_stays_away :
    (watch config host (engine_dies ∷ calm ∷ []) two_children).1.supervisor.ids_proc ≡ none
unfolding watch turn arrive apply_exits exit reap_ids reap_ssl
engine_stays_away = refl

abbrev three_children : State
three_children = record {
  supervisor = record {
    is_shutdown = false;
    ids_proc = some 1;
    web_proc = some 0;
    ssl_proc = some 2;
  };
  os = record { status = λ pid. none; next = 3 };
  last_ids_restart = 0;
}

abbrev ssl_dies : Round
ssl_dies = record calm { exits = (2, pos 1) ∷ [] }

ssl_exit_orphans_engine_example :
    let s' = (turn config host ssl_dies three_children).1 in
    (s'.supervisor.ids_proc ≡ some 3)
    × (s'.os.status 1 ≡ none)
    × ((shutdown host s').os.status 1 ≡ none)
unfolding arrive apply_exits exit
ssl_exit_orphans_engine_example =
    ssl_exit_orphans_engine config host ssl_dies three_children 1 2 (pos 1) refl refl (ground arith)
      refl refl (omega arith) refl refl refl (omega arith) refl
