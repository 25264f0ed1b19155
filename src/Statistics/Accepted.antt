-- ===== src/Statistics/Accepted.antt =====
-- Who can change the counters and what the dashboards are shown, and what an update leaves.
use ids_bachelor_thesis.Prelude.{
  ℕ, ◌≡◌, ◌≢◌, ◌⊎◌, refl, ap, sym, ◌∙◌, Bool, true, false, String, text_test, ◌==◌, Option, none,
  some, List, arith, inl, inr, Bool-cases, if◌then◌else◌, not_equal,
}
use ids_bachelor_thesis.Dict.{Dict}
use ids_bachelor_thesis.Auth.Nonces.{NonceTracker}
use ids_bachelor_thesis.Auth.Verify.{
  Primitives, Request, Outcome, accepted, rejected, raised, header, signature, signature_header,
  timestamp_header, nonce_header, verify_request,
}
use ids_bachelor_thesis.Auth.Accept.{accepted_is_signed}
use ids_bachelor_thesis.Broadcast.Defs.{broadcast}
use ids_bachelor_thesis.Statistics.Defs.{
  Stats, Store, Incoming, Payload, no_stats, persist, put_counts, put_sets, apply_telemetry_stats,
  sync_stats_from_persistence, load_statistics_for_api, payload_of, load_from,
}
use ids_bachelor_thesis.Statistics.Update.{
  Server, Answer, deny, show, take_in, after_verify, ids_sensor_update,
}

-- What the sensor sent, merged into the counters; none where a count cannot be read.
abbrev pub merged : Incoming → Stats → Option Stats
merged i t = if (put_counts i t).1 then some (put_sets i (put_counts i t).0) else none

-- The row after an update: the merged counters, if they can be read and the write works.
abbrev pub row_after : Bool → Incoming → Store → Option Stats
row_after true i store = elim (merged i store.live) [ none ↦ store.row | some t ↦ some t ]
row_after false i store = store.row

-- The live counters after an update: those of what was sent that could be read.
abbrev pub counted : Incoming → Stats → Stats
counted i t = if (put_counts i t).1 then put_sets i (put_counts i t).0 else (put_counts i t).0

abbrev shown : Option Stats → Stats
shown none = no_stats
shown (some t) = t

pub record IsTaken (ok : Bool) (i : Incoming) (s s' : Server) : Type 0 where
  pub row : s'.store.row ≡ row_after ok i s.store
  pub live : (s'.store.row ≡ none) ⊎ (s'.store.row ≡ some s'.store.live)
  pub dashboards : s'.dashboards ≡ broadcast (payload_of (shown s'.store.row)) s.dashboards

-- An update after which the row cannot be read: nothing is shown, but the counters have changed.
pub record IsUnshown (ok : Bool) (i : Incoming) (s s' : Server) : Type 0 where
  pub row : s'.store.row ≡ row_after ok i s.store
  pub live : s'.store.live ≡ counted i s.store.live
  pub mirror : s'.store.mirror ≡ counted i s.store.live
  pub dashboards : s'.dashboards ≡ s.dashboards

apply-row :
    (ok : Bool) (i : Incoming) (store : Store)
    → (apply_telemetry_stats ok i store).row ≡ row_after ok i store
unfolding apply_telemetry_stats persist
apply-row true i store = ground arith
apply-row false i store = ground arith

apply-live :
    (ok : Bool) (i : Incoming) (store : Store)
    → (apply_telemetry_stats ok i store).live ≡ counted i store.live
unfolding apply_telemetry_stats persist
apply-live true i store = ground arith
apply-live false i store = ground arith

load_from-row :
    (store : Store) (o : Option Stats)
    → store.row ≡ o
    → ((load_from store o).0.row ≡ store.row)
      × ((store.row ≡ none) ⊎ (store.row ≡ some (load_from store o).0.live))
      × ((load_from store o).1 ≡ some (payload_of (shown o)))
load_from-row store none e = (refl, inl e, refl)
load_from-row store (some row) e = (refl, inr e, refl)

show-some :
    (store : Store) (s : Server) (o : Option Payload) (payload : Payload)
    → o ≡ some payload
    → show store s o
      ≡ (record s { store = store; dashboards = broadcast payload s.dashboards }, Answer.received)
show-some store s o payload e = ap (show store s) e

take_in-IsTaken :
    (ok : Bool) (i : Incoming) (s : Server) (t : NonceTracker)
    → let after = take_in ok true i (record s { tracker = t }) in
      (after.1 ≡ Answer.received) × IsTaken ok i s after.0
unfolding take_in load_statistics_for_api sync_stats_from_persistence
take_in-IsTaken ok i s t =
    let after = sync_stats_from_persistence (apply_telemetry_stats ok i s.store) in
    let (same, live, payload) = load_from-row after after.row refl in
    rw
      (show-some (load_from after after.row).0 (record s { tracker = t })
        (load_from after after.row).1 (payload_of (shown after.row)) payload)
      (
        refl,
        record {
          row = same ∙ apply-row ok i s.store;
          live = live_of same live;
          dashboards = ap (λ o. broadcast (payload_of (shown o)) s.dashboards) (sym same);
        },
      )
  where
    live_of :
        {o o' : Option Stats} {l : Stats}
        → o' ≡ o
        → (o ≡ none) ⊎ (o ≡ some l)
        → (o' ≡ none) ⊎ (o' ≡ some l)
    live_of e (inl h) = inl (e ∙ h)
    live_of e (inr h) = inr (e ∙ h)

take_in-IsUnshown :
    (ok : Bool) (i : Incoming) (s : Server) (t : NonceTracker)
    → let after = take_in ok false i (record s { tracker = t }) in
      (after.1 ≡ Answer.failed) × IsUnshown ok i s after.0
unfolding take_in load_statistics_for_api sync_stats_from_persistence
take_in-IsUnshown ok i s t = (
  refl,
  record {
    row = apply-row ok i s.store;
    live = apply-live ok i s.store;
    mirror = apply-live ok i s.store;
    dashboards = refl;
  },
)

-- What an update that is let in leaves, and what it answers.
abbrev pub IsLetIn : (ok readable : Bool) → Incoming → Server → Server × Answer → Type 0
IsLetIn ok true i s after = (after.1 ≡ Answer.received) × IsTaken ok i s after.0
IsLetIn ok false i s after = (after.1 ≡ Answer.failed) × IsUnshown ok i s after.0

take_in-IsLetIn :
    (ok readable : Bool) (i : Incoming) (s : Server) (t : NonceTracker)
    → IsLetIn ok readable i s (take_in ok readable i (record s { tracker = t }))
take_in-IsLetIn ok true i s t = take_in-IsTaken ok i s t
take_in-IsLetIn ok false i s t = take_in-IsUnshown ok i s t

module _ (p : Primitives) (max_skew : ℕ) (secret : String) (r : Request)
    (headers : Dict String String) where
  -- The signature of the request is the one that the secret gives for it.
  abbrev pub IsSigned : Type 0
  IsSigned =
      header headers signature_header
      ≡ signature p secret r (header headers timestamp_header) (header headers nonce_header)

  after_verify-gate :
      (ip : String) (ok readable : Bool) (i : Incoming) (s : Server) (clock later : ℕ)
      (v : NonceTracker × Outcome)
      → verify_request p max_skew secret r headers none clock later s.tracker ≡ v
      → secret ≢ ""
      → let after = after_verify ip ok readable i s v in
        ((after.1 ≢ Answer.received)
          × (after.0.store ≡ s.store)
          × (after.0.dashboards ≡ s.dashboards))
        ⊎ ((secret ≢ "") × IsSigned × IsLetIn ok readable i s after)
  unfolding deny
  after_verify-gate ip ok readable i s clock later (t, accepted) e set = inr (
    set,
    accepted_is_signed p max_skew secret r headers none clock later s.tracker (ap (λ v. v.1) e),
    take_in-IsLetIn ok readable i s t,
  )
  after_verify-gate ip ok readable i s clock later (t, rejected reason) e set =
      inl (λ h. cc h, refl, refl)
  after_verify-gate ip ok readable i s clock later (t, raised) e set = inl (λ h. cc h, refl, refl)

  -- A request to the route either is not received, and leaves the counters, their row and the
  -- dashboards as they are; or a secret is configured and the request carries its signature. In the
  -- second case the row of the database is what the sensor sent, merged into the counters, if that can
  -- be read and the write works, and the old row otherwise. If the row can then be read, the answer is
  -- received, the live counters are those of the row, if there is one, and the dashboards are sent
  -- just that row, or zeros. If it cannot, the answer is a failure: the dashboards are sent nothing,
  -- but the live counters and their copy have changed to what was sent, as far as it could be read.
  pub ids_sensor_update-gate :
      (stats_of : List ℕ → Incoming) (ip : String) (clock later : ℕ) (ok readable : Bool)
      (s : Server)
      → let after =
          ids_sensor_update p stats_of max_skew secret ip r headers clock later ok readable s in
        ((after.1 ≢ Answer.received)
          × (after.0.store ≡ s.store)
          × (after.0.dashboards ≡ s.dashboards))
        ⊎ ((secret ≢ "") × IsSigned × IsLetIn ok readable (stats_of r.body) s after)
  unfolding ids_sensor_update deny
  ids_sensor_update-gate stats_of ip clock later ok readable s = elim (Bool-cases (secret == "")) [
    | inl unset ↦ rw unset (inl (λ h. cc h, refl, refl))
    | inr set ↦ rw set (
        after_verify-gate ip ok readable (stats_of r.body) s clock later
          (verify_request p max_skew secret r headers none clock later s.tracker) refl
          (not_equal secret "" set))
  ]
