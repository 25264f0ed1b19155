-- ===== src/Supervisor/Stop.antt =====
-- When `run_forever` returns, no child that it keeps is left running.
use ids_bachelor_thesis.Prelude.{
  ℕ, ℤ, pos, negsuc, ◌≡◌, ◌≢◌, ◌∙◌, true, false, inl, inr, Option-cases, Option, none, some, List,
  [], ◌∷◌, All, arith, number_test,
}
use ids_bachelor_thesis.Dict.{is_some}
use ids_bachelor_thesis.Supervisor.Defs.{
  Os, Host, Config, State, initial, exit, terminate, shutdown, Round, arrive, poll,
  start_web_server, start_ids_engine, start_ssl_interceptor, returned, failure_code, reap_ids,
  reap_ssl, turn, watch, run_forever, after_web_start, with_ssl,
}

abbrev pub IsStopped : Os → Option ℕ → Type 0
IsStopped os none = Unit
IsStopped os (some pid) = is_some (os.status pid) ≡ true

-- No child that the supervisor keeps is running.
pub record AllStopped (s : State) : Type 0 where
  pub web : IsStopped s.os s.supervisor.web_proc
  pub ids : IsStopped s.os s.supervisor.ids_proc
  pub ssl : IsStopped s.os s.supervisor.ssl_proc

module _ (host : Host) where
  terminate_keeps :
      (p p' : Option ℕ) (os : Os) → IsStopped os p → IsStopped (terminate host p' os) p
  unfolding terminate exit
  terminate_keeps none p' os h = tt
  terminate_keeps (some pid) none os h = h
  terminate_keeps (some pid) (some pid') os h = ground arith

  terminate_stops : (p : Option ℕ) (os : Os) → IsStopped (terminate host p os) p
  unfolding terminate exit
  terminate_stops none os = tt
  terminate_stops (some pid) os = ground arith

  pub shutdown-AllStopped : (s : State) → AllStopped (shutdown host s)
  unfolding shutdown
  shutdown-AllStopped s =
      let web = s.supervisor.web_proc in
      let ids = s.supervisor.ids_proc in
      let ssl = s.supervisor.ssl_proc in
      let os1 = terminate host ssl s.os in
      let os2 = terminate host ids os1 in
      record {
        web = terminate_stops web os2;
        ids = terminate_keeps ids web os2 (terminate_stops ids os1);
        ssl = terminate_keeps ssl web os2 (terminate_keeps ssl ids os1 (terminate_stops ssl s.os));
      }

IsStopped-of_poll : (os : Os) (p : Option ℕ) (code : ℤ) → poll os p ≡ some code → IsStopped os p
IsStopped-of_poll os none code e = tt
IsStopped-of_poll os (some pid) code e = rw e

failure_code-ne-zero : (code : ℤ) → failure_code code ≢ pos 0
failure_code-ne-zero (pos n) = ground arith
failure_code-ne-zero (negsuc n) = λ h. cc h

module _ (c : Config) (host : Host) where
  reap_ssl-ne-returned :
      (r : Round) (s : State) (code : ℤ) → (reap_ssl c host r s).0 ≢ some (returned code)
  unfolding reap_ssl
  reap_ssl-ne-returned r s code h = ground arith

  -- A turn that returns has shut down, and returns 0 only on a signal.
  turn_returned :
      (r : Round) (s : State) (code : ℤ)
      → (turn c host r s).0 ≡ some (returned code)
      → ((turn c host r s).1 ≡ shutdown host (arrive r s))
        × (code ≡ pos 0 → (arrive r s).supervisor.is_shutdown ≡ true)
  unfolding turn
  turn_returned r s code h =
      elim (Option-cases (poll (arrive r s).os (arrive r s).supervisor.web_proc)) [
        | inl runs ↦ ground (arith, reap_ssl-ne-returned r (reap_ids (arrive r s)) code)
        | inr (web_code, e) ↦ ground (arith, failure_code-ne-zero web_code)
      ]

  turn_goes_on :
      (r : Round) (s : State)
      → (turn c host r s).0 ≡ none
      → (turn c host r s).1.supervisor.is_shutdown ≡ false
  unfolding turn reap_ids reap_ssl start_ids_engine
  turn_goes_on r s h = ground arith

  abbrev NoSignal : List Round → Type 0
  NoSignal = All (λ r. r.signal ≡ false)

  watch_stops :
      (rs : List Round) (s : State) (code : ℤ)
      → (watch c host rs s).0 ≡ returned code
      → AllStopped (watch c host rs s).1
  unfolding watch
  watch_stops [] s code h = cc h
  watch_stops (r ∷ rs) s code h = elim (Option-cases (turn c host r s).0) [
    | inl goes_on ↦ rw goes_on (watch_stops rs (turn c host r s).1 code (rw goes_on at h))
    | inr (outcome, e) ↦
        rw (e, (turn_returned r s code (cc (e, rw e at h))).0)
          (shutdown-AllStopped host (arrive r s))
  ]

  watch_fails :
      (rs : List Round) (s : State) (code : ℤ)
      → NoSignal rs
      → s.supervisor.is_shutdown ≡ false
      → (watch c host rs s).0 ≡ returned code
      → code ≢ pos 0
  unfolding watch
  watch_fails [] s code quiet up h = λ e. cc h
  watch_fails (r ∷ rs) s code quiet up h = elim (Option-cases (turn c host r s).0) [
    | inl goes_on ↦
        watch_fails rs (turn c host r s).1 code quiet.1 (turn_goes_on r s goes_on) (rw goes_on at h)
    | inr (outcome, e) ↦ λ zero_code.
        let signalled = (turn_returned r s code (cc (e, rw e at h))).1 zero_code in
        unfold arrive in ground (arith, signalled, quiet.0)
  ]

  after_web_start_stops :
      (rounds : List Round) (s : State) (code : ℤ)
      → s.supervisor.ids_proc ≡ none
      → s.supervisor.ssl_proc ≡ none
      → (after_web_start c host rounds s).0 ≡ returned code
      → AllStopped (after_web_start c host rounds s).1
  unfolding after_web_start
  after_web_start_stops rounds s code no_ids no_ssl h =
      elim (Option-cases (poll s.os s.supervisor.web_proc)) [
        | inr (web_code, e) ↦
            rw (e, after_web_start)
              (record {
                web = IsStopped-of_poll s.os s.supervisor.web_proc web_code e;
                ids = rw no_ids tt;
                ssl = rw no_ssl tt;
              })
        | inl runs ↦ elim (Option-cases (start_ids_engine host s)) [
          | inl missing ↦ rw (runs, after_web_start, missing) (shutdown-AllStopped host s)
          | inr (s', e) ↦
              rw (runs, after_web_start, e)
                (watch_stops rounds (with_ssl c host s') code (rw (runs, after_web_start, e) at h))
        ]
      ]

  with_ssl-is_shutdown :
      (s : State) → (with_ssl c host s).supervisor.is_shutdown ≡ s.supervisor.is_shutdown
  unfolding with_ssl start_ssl_interceptor
  with_ssl-is_shutdown s = ground arith

  after_web_start_fails :
      (rounds : List Round) (s : State) (code : ℤ)
      → NoSignal rounds
      → s.supervisor.is_shutdown ≡ false
      → (after_web_start c host rounds s).0 ≡ returned code
      → code ≢ pos 0
  unfolding after_web_start start_ids_engine
  after_web_start_fails rounds s code quiet up h =
      elim (Option-cases (poll s.os s.supervisor.web_proc)) [
        | inr (web_code, e) ↦ ground (arith, failure_code-ne-zero web_code)
        | inl runs ↦ elim (Option-cases (start_ids_engine host s)) [
          | inl missing ↦ ground arith
          | inr (s', e) ↦
              watch_fails rounds (with_ssl c host s') code quiet
                (with_ssl-is_shutdown s' ∙ ground arith) (rw (runs, after_web_start, e) at h)
        ]
      ]

  -- Started on any host, with any exits and signals: if `run_forever` returns a code, the web
  -- server, the IDS engine and the interceptor that the supervisor keeps have all exited; and the
  -- code is not 0 unless a signal arrived.
  pub run_forever_returns :
      (startup : Round) (rounds : List Round) (os : Os) (code : ℤ)
      → (run_forever c host startup rounds (initial os)).0 ≡ returned code
      → AllStopped (run_forever c host startup rounds (initial os)).1
        × (startup.signal ≡ false → NoSignal rounds → code ≢ pos 0)
  unfolding run_forever start_web_server arrive
  run_forever_returns startup rounds os code h =
      elim (Option-cases (start_web_server host (initial os))) [
        | inl missing ↦ cc (rw (missing, run_forever) at h)
        | inr (s', e) ↦
            let s = arrive startup s' in
            let started = rw (e, run_forever) at h in
            (
              rw (e, run_forever)
                  (after_web_start_stops rounds s code (ground arith) (ground arith) started),
              λ quiet_start quiet. after_web_start_fails rounds s code quiet (ground arith) started,
            )
      ]
