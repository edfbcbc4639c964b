-- ===== src/Debugger/Sessions/Runs/Tests.antt =====
-- Operations on a tab, and their theorems at concrete inputs.
use browser_bridge.Prelude.{◌≡◌, refl, true, false, none, some, nat_key}
use browser_bridge.Prelude.JsMap.{get, put, delete}
use browser_bridge.Debugger.Cancellation.{
  get_cancellation_generation, is_cancellation_generation_current, cancel, tasks_of, has_stale,
  can_start_work, start_task, put_tasks, end_task, step as step_calls, run as run_calls,
  initial as nothing_canceled,
}
use browser_bridge.Debugger.Sessions.{
  Coordinator, initial, hold_count, is_current, generation_of, mark_detached, discard,
  reset_burst_timer, consume_burst_timer, enter_queue, leave_queue,
}
use browser_bridge.Debugger.Sessions.Dropped.{Dropped}
use browser_bridge.Debugger.Sessions.Runs.{
  canceled, failed, Task, Attachment, Run, assert_current, run_tracked_task, attempt, note_reason,
  await_attach, abandon_attach, attach, first_try, retry_detached, catch_failure, schedule_detach,
  run_turn, run_exclusive, start_exclusive, run, is_debugger_detached_error,
  classify_debugger_failure,
}
use browser_bridge.Debugger.Sessions.Runs.Counted.{counted}
use browser_bridge.Debugger.Sessions.Runs.Balanced.{run-tasks_in_flight}
use browser_bridge.Debugger.Sessions.Runs.Current.{run-generation_of}

sessions : Unit {0}
unfolding initial hold_count is_current generation_of reset_burst_timer consume_burst_timer
    enter_queue leave_queue assert_current run_tracked_task attempt note_reason await_attach
    abandon_attach attach first_try retry_detached catch_failure schedule_detach run_turn
    run_exclusive start_exclusive run get_cancellation_generation is_cancellation_generation_current
    cancel tasks_of has_stale can_start_work start_task put_tasks end_task step_calls run_calls
    nothing_canceled is_debugger_detached_error classify_debugger_failure get put delete
sessions = tt

abbrev pub idle : Coordinator → Coordinator
idle s = s

abbrev pub fine : Task
fine = record { others = idle; error = none; lane = idle }

abbrev pub attaches : Attachment
attaches = record { others = idle; error = none; initialize = fine; detaching = idle; now = 0 }

-- The task fails because Chrome has detached the tab, and the retry succeeds.
abbrev pub read : Run
read = record {
  turn = idle;
  attachment = attaches;
  task = record { others = idle; error = some (failed true none); lane = idle };
  retry_detached = true;
  reattachment = attaches;
  retry = fine;
  release_after_run = false;
  now = 0;
}

abbrev pub start : Coordinator
start = initial 5000

-- A cleanup while Chrome attaches: the call fails as canceled.
abbrev overlapped : Run
overlapped = record read { attachment = record attaches { others = λ s. (discard 3 s).0 } }

discarded : (run 3 overlapped start).1 ≡ some canceled
unfolding sessions discard
discarded = refl

run-tasks_in_flight_example : counted 3 0 (run 3 read start).0 ≡ counted 3 0 start
run-tasks_in_flight_example = run-tasks_in_flight 3 0 3 read start (record {
  turn = λ s. refl;
  attachment = record {
    during = λ s. refl;
    initialize = record { during = λ s. refl; after = λ s. refl };
    detaching = λ s. refl;
  };
  task = record { during = λ s. refl; after = λ s. refl };
  reattachment = record {
    during = λ s. refl;
    initialize = record { during = λ s. refl; after = λ s. refl };
    detaching = λ s. refl;
  };
  retry = record { during = λ s. refl; after = λ s. refl };
})

run-generation_of_example : generation_of 3 (run 3 read start).0 ≡ generation_of 3 start
unfolding sessions mark_detached
run-generation_of_example = run-generation_of 3 read start refl
