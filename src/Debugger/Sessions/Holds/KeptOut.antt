-- ===== src/Debugger/Sessions/Holds/KeptOut.antt =====
-- A task that has outlived its session keeps every new operation out.
use browser_bridge.Prelude.{ℕ, ◌<◌, ◌≡◌, ap, ◌∙◌, false, List, some, nat_key}
use browser_bridge.Debugger.Sessions.{Coordinator}
use browser_bridge.Debugger.Sessions.Runs.{canceled, run, Run}
use browser_bridge.Debugger.Sessions.Holds.{Acquire, acquire}
use browser_bridge.Debugger.Cancellation.{
  Cancellation, Call, can_start, get_cancellation_generation, run as run_calls,
}
use browser_bridge.Debugger.Cancellation.Stale.{ends_among, tasks_in_flight, run-can_start_stale}
use browser_bridge.Debugger.Sessions.Runs.KeptOut.{start_exclusive-kept_out, run_alone-kept_out}

-- If the tab's tasks of an earlier generation have not all ended since, then after any calls on the
-- cancellation state both `run` and `acquire` on that tab fail as canceled and change nothing.
pub run-kept_out :
    (calls : List Call) (tab g : ℕ) (c : Cancellation) (r : Run) (w : Acquire) (s : Coordinator)
    → g < get_cancellation_generation tab c
    → ends_among tab g calls < tasks_in_flight tab g c
    → s.cancellation ≡ run_calls calls c
    → (run tab r s ≡ (s, some canceled)) × (acquire tab w s ≡ (s, some canceled))
unfolding acquire
run-kept_out calls tab g c r w s older busy reached =
    let out : can_start tab s.cancellation ≡ false =
      ap (can_start tab) reached ∙ run-can_start_stale calls tab g c older busy in
    (run_alone-kept_out tab r s out, start_exclusive-kept_out tab w.turn _ s out)
