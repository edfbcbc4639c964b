-- ===== src/Debugger/Sessions/Runs/KeptOut.antt =====
-- A task that has outlived its session keeps every new operation out.
use browser_bridge.Prelude.{ℕ, ◌≡◌, false, Option, some, arith}
use browser_bridge.Debugger.Cancellation.{can_start}
use browser_bridge.Debugger.Cancellation.Stale.{can_start_lem}
use browser_bridge.Debugger.Sessions.{Coordinator, generation_of}
use browser_bridge.Debugger.Sessions.Runs.{Failure, canceled, Meanwhile, start_exclusive, run, Run}

pub start_exclusive-kept_out :
    (tab : ℕ) (turn : Meanwhile) (body : ℕ → Coordinator → Coordinator × Option Failure)
    (s : Coordinator)
    → can_start tab s.cancellation ≡ false
    → start_exclusive tab turn body s ≡ (s, some canceled)
unfolding start_exclusive generation_of
start_exclusive-kept_out tab turn body s h =
    let same = can_start_lem tab s.cancellation in ground arith

pub run_alone-kept_out :
    (tab : ℕ) (r : Run) (s : Coordinator)
    → can_start tab s.cancellation ≡ false
    → run tab r s ≡ (s, some canceled)
unfolding run
run_alone-kept_out tab r s out = start_exclusive-kept_out tab r.turn _ s out
