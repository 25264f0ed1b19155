-- ===== src/Lib.antt =====
-- Verification of the intrusion detection system: the engine that captures packets on a sensor,
-- scores them and sends events, the server that stores and shows them, and what runs both.
--
-- A sensor process (ids_engine.py) puts frames into bounded queues (ids/packet_queue.py); workers
-- take them out, keep one record of counters for each flow (engine/flow_manager.py) and a short
-- activity list for each source (engine/behavior.py), and score the packet. A dangerous event may
-- become an email about a burst (alerts/dangerous_burst.py). Sensors post their updates to the
-- server under a signature (intelligence/sensor_auth.py). A supervisor
-- (runtime/process_supervisor.py) starts the server, the engine and the TLS interceptor, and
-- watches them.
--
-- The files, with the code that each is about:
--   Auth         intelligence/sensor_auth.py: canonical payload, signatures, the nonce tracker
--                and verify_request. The requests of a server are a list of calls.
--   Queues       ids/packet_queue.py: PacketQueues, with enqueue_*, dequeue_*, the counters of
--                refused packets, sampling under pressure and process_with_retry.
--   Supervisor   runtime/process_supervisor.py: ProcessSupervisor as explicit state; exits of
--                processes and signals arrive between two turns of the loop of run_forever.
--   Burst        alerts/dangerous_burst.py: the bucket of each source, the two email guards, and
--                the figures of the report that an email carries.
--   Analysis     ids/ai_analysis.py: the heuristics, the fused risk, the classification and
--                analyze_packet.
--   Enrichment   ids/threat_intel.py: when the services are asked, and what is passed on.
--   Mitre        intelligence/mitre.py: the table of techniques and classify.
--   Behavior     engine/behavior.py: floods and port scans in a source's recent activity.
--   Dns          engine/dns_behavior.py: the queries of a source and what they suggest.
--   EventTime    ids/event_timestamp.py: the choice and the unit of an event's time.
--   Flow         engine/flow_manager.py: update_flow, the counters and statistics of a flow.
--   Accounts     uni-srver.py: login, check_totp, the codes by email, totp_qr, the settings of the
--                password, of the second factors and of the profile, and the administration of
--                users; a run is a list of calls, each with its time. storage/models.py: User.
--   Broadcast    ids/websocket_updates.py: the listeners, the broadcast and the streams.
--   Bypass       ssl_inspect/bypass.py: the rules, the needles in the chain of iptables, and the
--                synchronization.
--   Sender       api_client/sender.py: the wait for the web server, and the turns of the loop.
--   Statistics   storage/persistence.py: the counters and their row; uni-srver.py: ids_sensor_update,
--                which ties Auth, the counters and Broadcast together.
--   Workers      ids/worker_monitoring.py and _restart_worker of ids_engine.py: the threads of the
--                workers and their watchdog.
--   Dict, Deque, BoundedQueue, Text, Prelude
--                Python's dict, deque and queue.Queue, the strings that are used, and the shared
--                names and lemmas.
-- In each directory Defs (or the module named for the part) translates the code, the other files
-- prove, and Tests holds concrete runs.
--
-- Values. Times are natural numbers of microseconds and risks are millionths; a Python float that
-- is a quotient is a Ratio, with its denominator kept; in Analysis scores are counted in units that
-- make each division of the code exact. Rounding of floats is not modelled. The environment
-- variables that a module reads at import are fields of its Config. A clock that the
-- code reads is an argument, so a theorem that needs a clock which does not go back says so.
-- Locks are not modelled: a call is one step, so a run is a sequence of calls. Where the clock is
-- read before a lock is taken, both readings are arguments.
--
-- Parameters. The services that enrich asks are a record of functions on a state. SHA-256, HMAC
-- and the conversions int and str are arguments of Auth, with what the code relies on as
-- hypotheses; argon2, pyotp and the fingerprint of a hash are a record of functions of Accounts;
-- the hash of a key is an argument of Behavior and Flow, the entropy of a name one of Dns; the
-- processes that the operating system starts and the signals that it sends are the host of
-- Supervisor. iptables and the matching of patterns are records of functions of Bypass, and the web
-- server with its clock is the host of Sender. Whether a write to the database or a read of it
-- works is an argument of Statistics, the end of a thread one of Workers, and what the checks of
-- an uploaded picture say one of update_profile.
--
-- Fuel. retry_loop runs on max_retries + 1, which is the bound of the code's own loop, and so is
-- enough; wait_loop runs on a turn for each half second of the wait and one more, as each turn
-- sleeps for at least that long. The loop of the supervisor does not end by itself: it runs over a
-- list of what happens in each turn, of any length.
--
-- Not modelled: the pages and the other routes of uni-srver.py, the other stores and their SQL
-- (storage), the models and their training (ai), the TLS interceptor and its redirect
-- (ssl_inspect), the feeds and the Zeek reader (intelligence), the features and signatures of a
-- packet (engine), the providers of reputations, and the HTML of emails.
pub mod Accounts
pub mod Analysis
pub mod Auth
pub mod Behavior
pub mod BoundedQueue
pub mod Broadcast
pub mod Burst
pub mod Bypass
pub mod Deque
pub mod Dict
pub mod Dns
pub mod Enrichment
pub mod EventTime
pub mod Flow
pub mod Mitre
pub mod Prelude
pub mod Queues
pub mod Sender
pub mod Statistics
pub mod Supervisor
pub mod Text
pub mod Workers
