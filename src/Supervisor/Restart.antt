-- ===== src/Supervisor/Restart.antt =====
-- When the loop starts an IDS engine.
use ids_bachelor_thesis.Prelude.{
  ℕ, ◌+◌, ◌≤◌, ◌<◌, ℤ, ◌≡◌, ◌≢◌, refl, true, false, ◌⊎◌, none, some, List, [], ◌∷◌, arith,
  number_test,
}
use ids_bachelor_thesis.Supervisor.Defs.{
  Os, Host, Config, State, exit, terminate, shutdown, Round, running, arrive, poll, apply_exits,
  start_ids_engine, reap_ids, reap_ssl, turn, watch,
}

module _ (c : Config) (host : Host) where
  next-apply_exits : (exits : List (ℕ × ℤ)) (os : Os) → (apply_exits exits os).next ≡ os.next
  unfolding apply_exits exit
  next-apply_exits [] os = refl
  next-apply_exits ((pid, code) ∷ rest) os = next-apply_exits rest (exit pid code os)

  -- What holds of a state whose supervisor has no interceptor and of each one after it.
  abbrev NoStart : State → State → Type 0
  NoStart s s' =
      (s'.os.next ≡ s.os.next)
      × (s'.supervisor.ssl_proc ≡ none)
      × ((s'.supervisor.ids_proc ≡ s.supervisor.ids_proc) ⊎ (s'.supervisor.ids_proc ≡ none))

  turn-NoStart :
      (r : Round) (s : State) → s.supervisor.ssl_proc ≡ none → NoStart s (turn c host r s).1
  unfolding turn arrive reap_ids reap_ssl shutdown terminate exit
  turn-NoStart r s h = ground (arith, next-apply_exits r.exits s.os)

  -- An engine that is kept is the one from before, and it runs.
  abbrev OnlyRunning : State → State → Type 0
  OnlyRunning s s' =
      (s'.supervisor.ids_proc ≡ none)
      ⊎ ((s'.supervisor.ids_proc ≡ s.supervisor.ids_proc)
          × (poll s'.os s'.supervisor.ids_proc ≡ none))

  turn-OnlyRunning :
      (r : Round) (s : State)
      → s.supervisor.ssl_proc ≡ none
      → (turn c host r s).0 ≡ none
      → OnlyRunning s (turn c host r s).1
  unfolding turn arrive reap_ids reap_ssl
  turn-OnlyRunning r s h goes_on = ground arith

  -- A turn that ends the loop returns.
  turn-differs :
      (r : Round) (s : State) → s.supervisor.ssl_proc ≡ none → (turn c host r s).0 ≢ some running
  unfolding turn arrive reap_ids reap_ssl
  turn-differs r s h ends = ground arith

  -- While no interceptor is kept, the loop starts no process, whatever exits and whether or not
  -- automatic restart is configured, and it keeps none but the IDS engine it had. If it goes on past
  -- one turn or more, the engine that it keeps still runs: one that has exited is dropped, and none is
  -- kept after that.
  pub watch_without_ssl :
      (r : Round) (rs : List Round) (s : State)
      → s.supervisor.ssl_proc ≡ none
      → let after = watch c host (r ∷ rs) s in
        NoStart s after.1 × (after.0 ≡ running → OnlyRunning s after.1)
  unfolding watch
  watch_without_ssl r [] s h =
      ground (arith, turn-NoStart r s h, turn-OnlyRunning r s h, turn-differs r s h)
  watch_without_ssl r (r' ∷ rs) s h = ground (
    arith,
    turn-NoStart r s h,
    turn-OnlyRunning r s h,
    turn-differs r s h,
    watch_without_ssl r' rs (turn c host r s).1,
  )

  -- With automatic restart on and the cooldown over, an interceptor that exits while the IDS engine
  -- `p` runs makes the loop start a second engine: the supervisor keeps the new one, and `p` still
  -- runs after a shutdown.
  pub ssl_exit_orphans_engine :
      (r : Round) (s : State) (p q : ℕ) (code : ℤ)
      → let os = (arrive r s).os in
        (arrive r s).supervisor.is_shutdown ≡ false
        → poll os s.supervisor.web_proc ≡ none
        → s.supervisor.web_proc ≢ some p
        → s.supervisor.ids_proc ≡ some p
        → os.status p ≡ none
        → p < s.os.next
        → s.supervisor.ssl_proc ≡ some q
        → os.status q ≡ some code
        → c.auto_restart ≡ true
        → s.last_ids_restart + c.restart_cooldown ≤ r.now
        → host.ids_script ≡ true
        → let s' = (turn c host r s).1 in
          (s'.supervisor.ids_proc ≡ some s.os.next)
          × (s'.os.status p ≡ none)
          × ((shutdown host s').os.status p ≡ none)
  unfolding turn arrive reap_ids reap_ssl start_ids_engine shutdown terminate exit
  ssl_exit_orphans_engine r s p q code up web web_ne ids runs old ssl gone auto cool there =
      ground (arith, next-apply_exits r.exits s.os)
