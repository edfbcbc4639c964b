-- ===== src/Gate/Tests.antt =====
-- Runs of the gate, and its theorems at concrete inputs.
use browser_bridge.Prelude.{List, ◌≡◌, ◌≢◌, refl, true, none, some, [], ◌∷◌, nat_key, string_key}
use browser_bridge.Prelude.JsMap.{get, put, delete}
use browser_bridge.Lifetimes.{
  guard, guard_throws, is_over, is_past, key, track, untrack, update, initial as no_lifetimes,
}
use browser_bridge.Gate.{
  Gate, explicit, active, Target, Snapshot, Request, Await, Preparation, settle, handle, reject_tab,
  invalidate, routing, is_explicit, release, assert_both, pin_target, report_ready, stop_waiting,
  check_document, await_grant, prepare_target, prepare, dispatched, failed, not_granted,
  target_changed, step, run, Call, handles, reports, stops, invalidates, releases, still_waiting,
}
use browser_bridge.Gate.Dispatched.{Passed, prepare-Passed, prepare-invalidate}

gate : Unit {0}
unfolding settle handle reject_tab invalidate routing is_explicit release assert_both pin_target
    report_ready stop_waiting check_document await_grant prepare_target prepare step run guard
    guard_throws is_over is_past key track untrack update no_lifetimes get put delete
gate = tt

abbrev idle : Gate
idle = record {
  waiting = [];
  pins = [];
  settled = [];
  next_promise = 0;
  sent = [];
  lifetimes = no_lifetimes 4;
}

abbrev request : Request
request = record { id = "m1"; deadline_ms = none; mutation_schedule = true; tab_id = none }

abbrev target : Target
target = record { tab_id = 5; via = some active }

abbrev page : Snapshot
page = record { document_id = "d1"; url = "https://example.org/" }

abbrev quiet : Await
quiet = record { others = λ st. st; access = true; now = 10 }

abbrev granting : Preparation
granting = record {
  resolving = quiet;
  target = some target;
  granting = record quiet { others = λ st. (handle "host.mutation_granted" (some "m1") st).0 };
  snapshot = some page;
  checking = quiet;
  current = some page;
}

-- Another mutation is reported and granted and the window's first tab navigates; then the tab of
-- the mutation navigates, and its own grant comes after that.
abbrev elsewhere : List Call
elsewhere =
    reports "m2" 6
    ∷ handles "host.mutation_granted" (some "m2")
    ∷ invalidates 1
    ∷ stops "m2" none 1
    ∷ []

abbrev navigating : Preparation
navigating = record granting {
  resolving = record quiet { others = run (releases "m3" ∷ []) };
  granting = record quiet {
    others = λ st.
        run (handles "host.mutation_granted" (some "m1") ∷ []) (invalidate 5 (run elsewhere st));
  };
}

sent : (prepare request granting idle).1 ≡ dispatched (record request { tab_id = some 5 })
unfolding gate
sent = refl

not_sent : (prepare request navigating idle).1 ≡ failed (not_granted target_changed)
unfolding gate
not_sent = refl

-- Until the grant comes the mutation waits.
waits : (prepare request (record granting { granting = quiet }) idle).1 ≡ still_waiting
unfolding gate
waits = refl

-- The routing of the pinned request is reported as the gate chose it, until the release.
pinned :
    (routing "m1"
      (record { tab_id = 5; via = explicit; active_tab_id = none })
      (prepare request granting idle).0).via
    ≡ active
unfolding gate
pinned = refl

prepare-Passed_example :
    Passed request granting target none
      (prepare request granting idle).0
      (record request { tab_id = some 5 })
unfolding gate
prepare-Passed_example =
    prepare-Passed request granting target idle (record request { tab_id = some 5 }) refl refl refl

prepare-invalidate_example :
    (prepare request navigating idle).1 ≢ dispatched (record request { tab_id = some 5 })
unfolding gate
prepare-invalidate_example =
    prepare-invalidate (releases "m3" ∷ []) elsewhere
      (handles "host.mutation_granted" (some "m1") ∷ []) request navigating target idle
      (record request { tab_id = some 5 }) (λ id entry there. absurd cc) refl refl refl refl refl
