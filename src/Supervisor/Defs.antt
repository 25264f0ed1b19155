-- ===== src/Supervisor/Defs.antt =====
-- `ProcessSupervisor` of runtime/process_supervisor.py, over a table of processes.
use ids_bachelor_thesis.Prelude.{
  ℕ, ◌+◌, ℤ, pos, negsuc, Bool, true, false, ◌&&◌, Option, none, some, List, [], ◌∷◌, number_test,
  ◌==◌, leb, if◌then◌else◌,
}

-- The processes by number: `status` is none while one runs, and its exit code after that.
pub record Os : Type 0 where
  pub status : ℕ → Option ℤ
  pub next : ℕ

abbrev pub spawn : Os → Os
spawn os = record { status = λ p. if p == os.next then none else os.status p; next = os.next + 1 }

-- A process that has exited keeps its code.
abbrev first_code : Option ℤ → ℤ → Option ℤ
first_code none code = some code
first_code (some c) code = some c

unfoldable pub exit : ℕ → ℤ → Os → Os
exit pid code os = record os {
  status = λ p. if p == pid then first_code (os.status p) code else os.status p;
}

-- What the host decides: which scripts are there, and with what code a stopped process ends.
pub record Host : Type 0 where
  pub web_script : Bool
  pub ids_script : Bool
  pub ssl_script : Bool
  pub stop_code : ℕ → ℤ

pub record Config : Type 0 where
  pub ssl_enabled : Bool
  pub auto_restart : Bool
  pub restart_cooldown : ℕ

pub record ProcessSupervisor : Type 0 where
  pub is_shutdown : Bool
  pub ids_proc : Option ℕ
  pub web_proc : Option ℕ
  pub ssl_proc : Option ℕ

-- the supervisor, the processes, and `last_ids_restart`
pub record State : Type 0 where
  pub supervisor : ProcessSupervisor
  pub os : Os
  pub last_ids_restart : ℕ

abbrev pub initial : Os → State
initial os = record {
  supervisor = record { is_shutdown = false; ids_proc = none; web_proc = none; ssl_proc = none };
  os = os;
  last_ids_restart = 0;
}

-- `proc and proc.poll()`
abbrev pub poll : Os → Option ℕ → Option ℤ
poll os none = none
poll os (some pid) = os.status pid

module _ (host : Host) where
  -- `none` is `FileNotFoundError`.
  unfoldable pub start_web_server : State → Option State
  start_web_server s =
      if host.web_script
      then some (record s {
        supervisor = record s.supervisor { web_proc = some s.os.next };
        os = spawn s.os;
      })
      else none

  unfoldable pub start_ids_engine : State → Option State
  start_ids_engine s =
      if host.ids_script
      then some (record s {
        supervisor = record s.supervisor { ids_proc = some s.os.next };
        os = spawn s.os;
      })
      else none

  unfoldable pub start_ssl_interceptor : State → Option State
  start_ssl_interceptor s =
      if host.ssl_script
      then some (record s {
        supervisor = record s.supervisor { ssl_proc = some s.os.next };
        os = spawn s.os;
      })
      else none

  -- SIGTERM, and SIGKILL after the timeout: a process that runs ends with its code.
  unfoldable pub terminate : Option ℕ → Os → Os
  terminate none os = os
  terminate (some pid) os = exit pid (host.stop_code pid) os

  unfoldable pub shutdown : State → State
  unfolding terminate exit
  shutdown s = record s {
    supervisor = record s.supervisor { is_shutdown = true };
    os =
        terminate s.supervisor.web_proc
          (terminate s.supervisor.ids_proc (terminate s.supervisor.ssl_proc s.os));
  }

-- What happens before one turn of the loop: processes that exit, and the first signal; then the
-- times that the turn reads.
pub record Round : Type 0 where
  pub exits : List (ℕ × ℤ)
  pub signal : Bool
  pub now : ℕ
  pub after_restart : ℕ

unfoldable pub apply_exits : List (ℕ × ℤ) → Os → Os
apply_exits [] os = os
apply_exits ((pid, code) ∷ rest) os = apply_exits rest (exit pid code os)

-- the signal handler sets the flag, and the loop sees it
unfoldable pub arrive : Round → State → State
arrive r s = record s {
  supervisor = record s.supervisor {
    is_shutdown = if r.signal then true else s.supervisor.is_shutdown;
  };
  os = apply_exits r.exits s.os;
}

-- `running` is a loop that goes on past the rounds given, `raised` an exception that leaves it.
pub data Outcome : Type 0 where
  returned : ℤ → Outcome
  raised running : Outcome

-- `code if code else 1`
abbrev pub failure_code : ℤ → ℤ
failure_code (pos n) = if n == 0 then pos 1 else pos n
failure_code (negsuc n) = negsuc n

-- `if self._ids_proc and self._ids_proc.poll() is not None: self._ids_proc = None`
unfoldable pub reap_ids : State → State
reap_ids s = elim (poll s.os s.supervisor.ids_proc) [
  | none ↦ s
  | some code ↦ record s { supervisor = record s.supervisor { ids_proc = none } }
]

abbrev restarted : ℕ → State → Option State → Option Outcome × State
restarted time s none = (some raised, s)
restarted time s (some s') = (none, record s' { last_ids_restart = time })

abbrev pub finish : Option Outcome → State → Outcome × State → Outcome × State
finish none s rest = rest
finish (some outcome) s rest = (outcome, s)

abbrev or_without : Option State → State → State
or_without none s = s
or_without (some s') s = s'

module _ (c : Config) (host : Host) where
  -- The restart stands under the exit of the interceptor.
  unfoldable pub reap_ssl : Round → State → Option Outcome × State
  unfolding start_ids_engine
  reap_ssl r s = elim (poll s.os s.supervisor.ssl_proc) [
    | none ↦ (none, s)
    | some code ↦
        let s' = record s { supervisor = record s.supervisor { ssl_proc = none } } in
        if c.auto_restart && leb (s.last_ids_restart + c.restart_cooldown) r.now
        then restarted r.after_restart s' (start_ids_engine host s')
        else (none, s')
  ]

  -- One turn of `while not self._shutdown`: an outcome ends the loop.
  unfoldable pub turn : Round → State → Option Outcome × State
  turn r s0 =
      let s = arrive r s0 in
      if s.supervisor.is_shutdown
      then (some (returned (pos 0)), shutdown host s)
      else elim (poll s.os s.supervisor.web_proc) [
        | some code ↦ (some (returned (failure_code code)), shutdown host s)
        | none ↦ reap_ssl r (reap_ids s)
      ]

  unfoldable pub watch : List Round → State → Outcome × State
  watch [] s = (running, s)
  watch (r ∷ rs) s = let (done, s') = turn r s in let rest = watch rs s' in finish done s' rest

  -- The interceptor is started if it is enabled; without it the supervisor goes on.
  unfoldable pub with_ssl : State → State
  with_ssl s = if c.ssl_enabled then or_without (start_ssl_interceptor host s) s else s

  -- `run_forever` from the check of the web server on
  unfoldable pub after_web_start : List Round → State → Outcome × State
  after_web_start rounds s = elim (poll s.os s.supervisor.web_proc) [
    | some code ↦ (returned (failure_code code), s)
    | none ↦ elim (start_ids_engine host s) [
      | none ↦ (returned (pos 1), shutdown host s)
      | some s' ↦ watch rounds (with_ssl s')
    ]
  ]

  -- `run_forever`: `startup` is what happens in the second after the web server starts.
  unfoldable pub run_forever : Round → List Round → State → Outcome × State
  run_forever startup rounds s = elim (start_web_server host s) [
    | none ↦ (raised, s)
    | some s' ↦ after_web_start rounds (arrive startup s')
  ]
