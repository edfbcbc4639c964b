-- ===== src/Debugger/Sessions/DialogLane.antt =====
-- packages/extension/src/debugger-coordinator.ts: `runForDialog`, which handles a dialog beside the
-- queue of its tab, since a task of the queue may be blocked by that dialog.
use browser_bridge.Prelude.{
  ℕ, ◌+◌, ◌≡◌, Bool, true, false, not, ◌&&◌, ◌||◌, Option, none, some, eqb, if◌then◌else◌, nat_key,
  arith, Option-cases, inl, inr,
}
use browser_bridge.Prelude.JsMap.{get, has, put, delete}
use browser_bridge.Debugger.Cancellation.{can_start_work}
use browser_bridge.Debugger.Sessions.{
  Coordinator, debugger_detached, hold_count, is_current, generation_of, mark_detached,
  reset_burst_timer, consume_burst_timer,
}
use browser_bridge.Debugger.Sessions.Runs.{
  Meanwhile, Failure, canceled, Task, Run, run, run_tracked_task, assert_current,
  is_debugger_detached_error,
}
use browser_bridge.Debugger.Sessions.Runs.Counted.{
  counted, Keeps, KeepsTask, KeepsRun, run_tracked_task-counted,
}
use browser_bridge.Debugger.Sessions.Runs.Balanced.{run-tasks_in_flight}

pub record DialogRun : Type 0 where
  pub turn : Meanwhile
  pub task : Task
  pub queued : Run
  pub now : ℕ

-- The body of the `try`: the task, and whether the tab's idle timer was taken.
pub dialog_task : ℕ → ℕ → DialogRun → Coordinator → Coordinator × Option Failure
dialog_task tab generation w s =
    let taken = (consume_burst_timer tab s).0 in
    let done =
      run_tracked_task tab generation w.task
        (record taken { dialog_owners = put tab generation taken.dialog_owners }) in
    elim w.task.error [
      | some e ↦ (done, some e)
      | none ↦ (done, assert_current tab generation done)
    ]

-- The `catch`.
pub catch_dialog_failure : ℕ → ℕ → ℕ → Failure → Coordinator → Coordinator × Option Failure
catch_dialog_failure tab generation now e s =
    if not (is_current tab generation s) then (s, some canceled) else (
      if is_debugger_detached_error e then mark_detached tab (some debugger_detached) now s else s,
      some e,
    )

-- The `finally`, where `owns` and `had_burst` tell how far the `try` came.
pub finish_dialog_turn : ℕ → ℕ → ℕ → Bool → Bool → Coordinator → Coordinator
finish_dialog_turn tab generation turn owns had_burst s =
    let owner : Bool = elim (get tab s.dialog_owners) [
      | none ↦ false
      | some g ↦ eqb g generation
    ] in
    let disowned =
      if owns && owner then record s { dialog_owners = delete tab s.dialog_owners } else s in
    let timed =
      if had_burst
        && is_current tab generation disowned
        && has tab disowned.attached_tabs
        && eqb (hold_count tab disowned) 0
        && not (has tab disowned.pending)
      then reset_burst_timer tab true disowned
      else disowned in
    let last : Bool = elim (get tab timed.pending_dialogs) [ none ↦ false | some n ↦ eqb n turn ] in
    if last then record timed { pending_dialogs = delete tab timed.pending_dialogs } else timed

-- The turn on the dialog lane.
pub dialog_turn : ℕ → ℕ → ℕ → DialogRun → Coordinator → Coordinator × Option Failure
dialog_turn tab generation turn w s =
    if not (is_current tab generation s) || not (has tab s.attached_tabs)
    then (finish_dialog_turn tab generation turn false false s, some canceled)
    else let had_burst = has tab s.burst_timers in
      let (tried, error) = dialog_task tab generation w s in
      elim error [
        | none ↦ (finish_dialog_turn tab generation turn true had_burst tried, none)
        | some e ↦
            let (caught, failure) = catch_dialog_failure tab generation w.now e tried in
            (finish_dialog_turn tab generation turn true had_burst caught, failure)
      ]

-- Without an attachment, or with neither a dialog nor queued work, it is an ordinary `run`.
pub run_for_dialog : ℕ → DialogRun → Coordinator → Coordinator × Option Failure
run_for_dialog tab w s =
    let generation = generation_of tab s in
    if not (can_start_work tab generation s.cancellation)
    then (s, some canceled)
    else if not (has tab s.attached_tabs)
        || (not (has tab s.dialogs.by_tab) && not (has tab s.pending))
    then run tab w.queued s
    else dialog_turn tab generation s.next_object w (
        w.turn (record s {
          pending_dialogs = put tab s.next_object s.pending_dialogs;
          next_object = s.next_object + 1;
        }))

module _ (t g : ℕ) where
  finish_dialog_turn-counted :
      (tab generation turn : ℕ) (owns had_burst : Bool) (s : Coordinator)
      → counted t g (finish_dialog_turn tab generation turn owns had_burst s) ≡ counted t g s
  unfolding finish_dialog_turn reset_burst_timer
  finish_dialog_turn-counted tab generation turn owns had_burst s = ground arith

  catch_dialog_failure-counted :
      (tab generation now : ℕ) (e : Failure) (s : Coordinator)
      → counted t g (catch_dialog_failure tab generation now e s).0 ≡ counted t g s
  unfolding catch_dialog_failure mark_detached
  catch_dialog_failure-counted tab generation now e s = ground arith

  dialog_task-counted :
      (tab generation : ℕ) (w : DialogRun) (s : Coordinator)
      → KeepsTask t g w.task
      → counted t g (dialog_task tab generation w s).0 ≡ counted t g s
  unfolding dialog_task consume_burst_timer
  dialog_task-counted tab generation w s keeps =
      let taken = (consume_burst_timer tab s).0 in
      let done =
        run_tracked_task-counted t g tab generation w.task
          (record taken { dialog_owners = put tab generation taken.dialog_owners }) keeps in
      ground arith

  dialog_turn-counted :
      (tab generation turn : ℕ) (w : DialogRun) (s : Coordinator)
      → KeepsTask t g w.task
      → counted t g (dialog_turn tab generation turn w s).0 ≡ counted t g s
  unfolding dialog_turn
  dialog_turn-counted tab generation turn w s keeps =
      let tried = dialog_task tab generation w s in
      let had_burst = has tab s.burst_timers in
      let kept = dialog_task-counted tab generation w s keeps in
      let early = finish_dialog_turn-counted tab generation turn false false s in
      let done = finish_dialog_turn-counted tab generation turn true had_burst tried.0 in
      elim (Option-cases tried.1) [
        | inl fine ↦ ground arith
        | inr (e, bad) ↦
            let caught = catch_dialog_failure-counted tab generation w.now e tried.0 in
            let last =
              finish_dialog_turn-counted tab generation turn true had_burst
                (catch_dialog_failure tab generation w.now e tried.0).0 in
            ground arith
      ]

  -- As for `run`, the count of a generation's tasks on a tab is the same after `runForDialog`, on
  -- every branch, if the others leave it as it is at each await.
  pub run_for_dialog-tasks_in_flight :
      (tab : ℕ) (w : DialogRun) (s : Coordinator)
      → Keeps t g w.turn
      → KeepsTask t g w.task
      → KeepsRun t g w.queued
      → counted t g (run_for_dialog tab w s).0 ≡ counted t g s
  unfolding run_for_dialog
  run_for_dialog-tasks_in_flight tab w s turn task queued =
      let ordinary = run-tasks_in_flight t g tab w.queued s queued in
      let lane = record s {
        pending_dialogs = put tab s.next_object s.pending_dialogs;
        next_object = s.next_object + 1;
      } in
      let waited = turn lane in
      let done = dialog_turn-counted tab (generation_of tab s) s.next_object w (w.turn lane) task in
      ground arith
