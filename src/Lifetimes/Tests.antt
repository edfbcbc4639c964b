-- ===== src/Lifetimes/Tests.antt =====
-- Runs of the requests, and the theorems at concrete inputs.
use browser_bridge.Prelude.{
  ◌≤◌, ◌≡◌, refl, true, false, none, some, [], ◌∷◌, arith, nat_key, string_key,
}
use browser_bridge.Prelude.JsMap.{size, get, put, delete}
use browser_bridge.Lifetimes.{
  Lifetimes, Request, begin, update, abort, cancel, finish, is_current, track, guard, guard_throws,
  is_over, is_past, key, disconnect, cancel_owner, abort_all, begins, finishes, cancels,
  cancels_owner, tracks, disconnects, step, run, initial,
}
use browser_bridge.Lifetimes.Kept.{IsSound}
use browser_bridge.Lifetimes.Running.{
  initial-IsSound, run-Evolves, guard_throws-run, cancel-guard_throws,
}
use browser_bridge.Lifetimes.Capacity.{size-run-initial, run-keeps_active}

lifetimes : Unit {0}
unfolding initial begin update abort cancel finish is_current track guard guard_throws is_over
    is_past key step run get put delete
lifetimes = tt

abbrev request : Request
request = record { id = "r1"; deadline_ms = some 5000; artifact_ack = false; transport_owner = "o" }

abbrev started : Lifetimes
started = (begin request 1000 (initial 2)).0

started-IsSound : IsSound started
unfolding run step
started-IsSound = (run-Evolves (begins request 1000 ∷ []) (initial 2) (initial-IsSound 2)).sound

-- A step of the request, whose id has a suffix, is guarded by the request.
sub_guard : guard "r1#0" started ≡ some 0
unfolding lifetimes
sub_guard = refl

-- The canceler that was tracked is called once.
canceled_once :
    (run (tracks "r1" 7 ∷ cancels "r1" ∷ disconnects ∷ cancels_owner "o" ∷ []) started).called
    ≡ 7 ∷ []
unfolding lifetimes disconnect cancel_owner abort_all
canceled_once = refl

guard_throws-run_example :
    guard_throws (some 0) none 9000 (run (finishes "r1" 0 ∷ begins request 6000 ∷ []) started)
    ≡ true
unfolding lifetimes
guard_throws-run_example =
    guard_throws-run (finishes "r1" 0 ∷ begins request 6000 ∷ []) (some 0) none 5000 9000 started
      started-IsSound (omega arith) refl

cancel-guard_throws_example :
    guard_throws (some 0) none 1001 (run (finishes "r1" 0 ∷ []) (cancel "r1#0" started)) ≡ true
cancel-guard_throws_example =
    cancel-guard_throws (finishes "r1" 0 ∷ []) "r1#0" 0 none 1001 started started-IsSound sub_guard

size-run-initial_example :
    size (run (begins request 1000 ∷ cancels "r1" ∷ begins request 1001 ∷ []) (initial 2)).active
    ≤ 2
size-run-initial_example =
    size-run-initial (begins request 1000 ∷ cancels "r1" ∷ begins request 1001 ∷ []) 2

run-keeps_active_example :
    get "r1" (run (cancels "r1" ∷ disconnects ∷ finishes "r1" 4 ∷ []) started).active ≡ some 0
unfolding lifetimes
run-keeps_active_example =
    run-keeps_active (cancels "r1" ∷ disconnects ∷ finishes "r1" 4 ∷ []) "r1" 0 started
      (tt, (tt, (λ e. absurd (omega arith), tt))) refl
