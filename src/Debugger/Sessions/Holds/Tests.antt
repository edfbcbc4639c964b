-- ===== src/Debugger/Sessions/Holds/Tests.antt =====
-- Holds of a tab, and the theorem on what is kept out at a concrete input.
use browser_bridge.Prelude.{◌≡◌, refl, some, [], ◌∷◌, nat_key, arith}
use browser_bridge.Prelude.JsMap.{get, put, delete}
use browser_bridge.Debugger.Cancellation.{
  Cancellation, get_cancellation_generation, is_cancellation_generation_current, cancel, tasks_of,
  has_stale, can_start_work, start_task, put_tasks, end_task, step as step_calls, run as run_calls,
  starts, cancels, initial as nothing_canceled,
}
use browser_bridge.Debugger.Cancellation.Stale.{ends_among}
use browser_bridge.Debugger.Sessions.{
  Coordinator, initial, hold_count, is_current, generation_of, consume_burst_timer, enter_queue,
  leave_queue,
}
use browser_bridge.Debugger.Sessions.Runs.{
  canceled, assert_current, run_tracked_task, attempt, await_attach, attach, run_exclusive,
  start_exclusive, run,
}
use browser_bridge.Debugger.Sessions.Runs.Tests.{idle, fine, attaches, read, start}
use browser_bridge.Debugger.Sessions.Holds.{Acquire, first_hold, acquire_turn, acquire}
use browser_bridge.Debugger.Sessions.Holds.KeptOut.{run-kept_out}

holds : Unit {0}
unfolding initial hold_count is_current generation_of consume_burst_timer enter_queue leave_queue
    assert_current run_tracked_task attempt await_attach attach run_exclusive start_exclusive
    first_hold acquire_turn acquire get_cancellation_generation is_cancellation_generation_current
    cancel tasks_of has_stale can_start_work start_task put_tasks end_task step_calls run_calls
    nothing_canceled ends_among get put delete
holds = tt

abbrev hold : Acquire
hold = record { turn = idle; attachment = attaches; initialize = fine; detaching = idle; now = 0 }

-- Two holds of an idle tab.
held_twice : hold_count 3 (acquire 3 hold (acquire 3 hold start).0).0 ≡ 2
unfolding holds
held_twice = refl

abbrev outlived : Cancellation
outlived = run_calls (starts 3 0 ∷ cancels 3 ∷ []) nothing_canceled

abbrev stuck : Coordinator
stuck = record start { cancellation = run_calls (cancels 3 ∷ []) outlived }

run-kept_out_example :
    (run 3 read stuck ≡ (stuck, some canceled)) × (acquire 3 hold stuck ≡ (stuck, some canceled))
unfolding holds
run-kept_out_example =
    run-kept_out (cancels 3 ∷ []) 3 0 outlived read hold stuck (omega arith) (omega arith) refl
