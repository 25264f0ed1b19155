-- ===== src/Burst/Tests.antt =====
-- Burst alerts at small limits.
use ids_bachelor_thesis.Prelude.{
  ℕ, ◌≤◌, ◌≡◌, ◌↔◌, refl, String, true, false, none, some, List, [], ◌∷◌, ◌+◌, arith, map,
  text_test,
}
use ids_bachelor_thesis.Text.{codes, is_lower_of, strip}
use ids_bachelor_thesis.Dict.{get, insert, pop_all, keys_where}
use ids_bachelor_thesis.Burst.Defs.{
  Config, Event, Entry, fast, start, maybe_alert_dangerous_burst, record_event, decide, add_entry,
  count_call, evict_idle, burst_eligible, event_context, threat_types, add_new,
}
use ids_bachelor_thesis.Burst.Run.{Call, run, Spaced, about}
use ids_bachelor_thesis.Burst.Spacing.{email_gap, source_email_gap, Separated}
use ids_bachelor_thesis.Burst.Report.{
  Summary, summarize, count_of, info, severity_tier, suggested_action, log_only,
}
use ids_bachelor_thesis.Burst.ReportLaws.{
  dst_counter_exact, aimed_at, severity_tier_mono, log_only_iff, rank,
}

abbrev config : Config
config = record {
  window = 100;
  threshold = 1;
  dedup = 50;
  dangerous_risk = 780_000;
  slow_risk = 450_000;
  slow_threshold = 3;
  global_dedup = 20;
  evict_every = 3;
}

abbrev attack : String → Event
attack ip = record {
  src_ip = some ip;
  classification = some "Dangerous";
  risk_score = none;
  reasons = codes " port_scan " ∷ codes "  " ∷ [];
  dst_ip = some "10.0.0.5";
  dst_port = some 22;
  url = none;
  techniques = [];
}

abbrev at : ℕ → String → Call
at t ip = record { now = t; event = attack ip }

abbrev calls : List Call
calls =
    at 1000 "1.2.3.4"
    ∷ at 1001 "1.2.3.4"
    ∷ at 1002 "1.2.3.4"
    ∷ at 1030 "5.6.7.8"
    ∷ at 1031 "5.6.7.8"
    ∷ at 1060 "1.2.3.4"
    ∷ []

-- The second event of each source alerts, and the first source again once its interval is over.
alert_times : map (λ a. a.at) (run config calls start).1 ≡ 1001 ∷ 1031 ∷ 1060 ∷ []
unfolding run maybe_alert_dangerous_burst record_event decide add_entry count_call evict_idle
    burst_eligible is_lower_of event_context threat_types add_new strip get insert pop_all
    keys_where
alert_times = refl

email_gap_example : Spaced 20 0 (run config calls start).1
email_gap_example = email_gap config calls

source_email_gap_example : Separated config (about "1.2.3.4" (run config calls start).1)
source_email_gap_example = source_email_gap config "1.2.3.4" calls (omega arith)

abbrev empty_summary : Summary
empty_summary = record { merged = []; dst_counter = []; url_counter = []; mitre_entries = [] }

abbrev bucket : List Entry
bucket =
    record { at = 1; types = []; context = unfold event_context in event_context (attack "a") }
    ∷ record { at = 2; types = []; context = unfold event_context in event_context (attack "a") }
    ∷ []

dst_counter_exact_example :
    count_of (get (summarize empty_summary bucket).dst_counter "10.0.0.5")
    ≡ aimed_at "10.0.0.5" bucket + 0
unfolding get
dst_counter_exact_example = dst_counter_exact empty_summary bucket "10.0.0.5"

severity_tier_mono_example :
    (rank (severity_tier 12 10 (some "safe") true) ≤ rank (severity_tier 31 10 (some "safe") true))
    × (rank (severity_tier 12 10 (some "safe") false)
        ≤ rank (severity_tier 12 10 (some "safe") true))
severity_tier_mono_example = severity_tier_mono 12 31 10 (some "safe") true (omega arith)

log_only_iff_lem :
    (suggested_action info false fast ≡ log_only)
    ↔ ((info ≡ info) × (false ≡ false) × (fast ≡ fast))
log_only_iff_lem = log_only_iff info false fast
