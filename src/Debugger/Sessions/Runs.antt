-- ===== src/Debugger/Sessions/Runs.antt =====
-- packages/extension/src/debugger-coordinator.ts: `_attach` and `run`. Each is a function of what
-- its awaits bring: the error they end with, if one, and what others do to the coordinator
-- meanwhile, which may be anything. Waiting for the queue and then the dialog lane is one such
-- await, and so is a lane that is free, where others do nothing.
pub mod Counted
pub mod Balanced
pub mod Current
pub mod KeptOut
pub mod Tests
use browser_bridge.Prelude.{
  ℕ, ◌+◌, ◌-◌, Bool, true, false, not, ◌&&◌, ◌||◌, Option, none, some, List, [], ◌∷◌, ltb, eqb,
  if◌then◌else◌, or_else, Key, nat_key,
}
use browser_bridge.Prelude.JsMap.{JsMap, get, has, put, delete}
use browser_bridge.Debugger.Cancellation.{start_task, end_task, can_start_work}
use browser_bridge.Debugger.Sessions.{
  Coordinator, DebuggerReason, debugger_detached, hold_count, is_current, generation_of,
  mark_detached, reset_burst_timer, consume_burst_timer, enter_queue, leave_queue,
}

abbrev pub Meanwhile : Type 0
Meanwhile = Coordinator → Coordinator

-- An error: the one that the coordinator throws when a tab was canceled, or another, with what
-- `isDebuggerDetachedError` and `classifyDebuggerFailure` make of its message. What a task throws is
-- an Error object: `run` tells an error by its truth, so it would pass over a falsy rejection.
pub data Failure : Type 0 where
  canceled : Failure
  failed : Bool → Option DebuggerReason → Failure

pub is_debugger_detached_error : Failure → Bool
is_debugger_detached_error canceled = false
is_debugger_detached_error (failed detached reason) = detached

pub classify_debugger_failure : Failure → Option DebuggerReason
classify_debugger_failure canceled = none
classify_debugger_failure (failed detached reason) = reason

-- A task that is awaited, and the wait for the dialog lane after it.
pub record Task : Type 0 where
  pub others : Meanwhile
  pub error : Option Failure
  pub lane : Meanwhile

pub record Attachment : Type 0 where
  pub others : Meanwhile
  pub error : Option Failure
  pub initialize : Task
  pub detaching : Meanwhile
  pub now : ℕ

unfoldable pub assert_current : ℕ → ℕ → Coordinator → Option Failure
assert_current tab generation s = if is_current tab generation s then none else some canceled

-- `_runTrackedTask`: the task is counted until it has settled, also when it fails.
unfoldable pub run_tracked_task : ℕ → ℕ → Task → Coordinator → Coordinator
run_tracked_task tab generation task s =
    let begun = record s { cancellation = start_task tab generation s.cancellation } in
    let settled = task.others begun in
    record settled { cancellation = end_task tab generation settled.cancellation }

-- A tracked task, then `_waitForDialogLane` and `_assertCancellationGeneration`.
unfoldable pub attempt : ℕ → ℕ → Task → Coordinator → Coordinator × Option Failure
attempt tab generation task s =
    let settled = run_tracked_task tab generation task s in
    elim task.error [
      | some e ↦ (settled, some e)
      | none ↦ (task.lane settled, assert_current tab generation (task.lane settled))
    ]

pub note_reason : Option DebuggerReason → ℕ → Coordinator → Coordinator
note_reason none now s = s
note_reason (some reason) now s = record s { recent_reason = some (reason, now) }

-- The wait for Chrome in `_attach`, with its `catch` and `finally`.
unfoldable pub await_attach : ℕ → Attachment → Coordinator → Coordinator
await_attach tab w s =
    let attaching = record s {
      attaching = put tab s.next_object s.attaching;
      next_object = s.next_object + 1;
    } in
    let settled = w.others attaching in
    let noted : Coordinator = elim w.error [
      | none ↦ settled
      | some e ↦ note_reason (classify_debugger_failure e) w.now settled
    ] in
    record noted {
      attaching = elim (get tab noted.attaching) [
        | none ↦ noted.attaching
        | some n ↦ if eqb n s.next_object then delete tab noted.attaching else noted.attaching
      ];
    }

-- The `catch` of the initialization in `_attach`.
pub abandon_attach : ℕ → ℕ → Attachment → Failure → Coordinator → Coordinator × Option Failure
abandon_attach tab generation w e s =
    if is_current tab generation s
    then (
      w.detaching (
          let gone = mark_detached tab (classify_debugger_failure e) w.now s in
          record gone { detaches = tab ∷ gone.detaches }),
      some e,
    )
    else (record s { attached_tabs = delete tab s.attached_tabs }, some canceled)

unfoldable pub attach : ℕ → ℕ → Attachment → Coordinator → Coordinator × Option Failure
attach tab generation w s =
    let settled = await_attach tab w s in
    elim w.error [
      | some e ↦ (settled, some e)
      | none ↦
          if not (is_current tab generation settled)
          then (settled, some canceled)
          else let (ready, error) =
              attempt tab generation w.initialize
                (record settled { attached_tabs = put tab tt settled.attached_tabs }) in
            elim error [ none ↦ (ready, none) | some e ↦ abandon_attach tab generation w e ready ]
    ]

pub data Result : Type 0 where
  ended : Coordinator → Option Failure → Bool → Result

-- The first try of `run`: attach unless a session is there, then the task.
pub record Run : Type 0 where
  pub turn : Meanwhile
  pub attachment : Attachment
  pub task : Task
  pub retry_detached : Bool
  pub reattachment : Attachment
  pub retry : Task
  pub release_after_run : Bool
  pub now : ℕ

pub first_try : ℕ → ℕ → Run → Coordinator → Coordinator × Option Failure
first_try tab generation w s =
    let (taken, had_burst) = consume_burst_timer tab s in
    let (ready, error) : Coordinator × Option Failure =
      if ltb 0 (hold_count tab s) || had_burst || has tab s.attached_tabs
      then (taken, none)
      else attach tab generation w.attachment taken in
    elim error [ none ↦ attempt tab generation w.task ready | some e ↦ (ready, some e) ]

-- The retry: the error that the caller gets, and whether the session counts as detached.
pub retry_detached : ℕ → ℕ → Run → Coordinator → Result
retry_detached tab generation w s =
    let (again, attach_error) = attach tab generation w.reattachment s in
    elim attach_error [
      | some e ↦
          ended (record again { reattaches = false ∷ again.reattaches })
            (some (if is_current tab generation again then e else canceled)) true
      | none ↦
          let noted = record again { reattaches = true ∷ again.reattaches } in
          let (done, error) = attempt tab generation w.retry noted in
          elim error [
            | none ↦ ended done none false
            | some e ↦
                ended done (some (if is_current tab generation done then e else canceled)) false
          ]
    ]

-- The `catch` of the first try.
pub catch_failure : ℕ → ℕ → Run → Failure → Coordinator → Result
catch_failure tab generation w e s =
    if not (is_current tab generation s)
    then ended s (some canceled) true
    else if not (is_debugger_detached_error e)
    then ended s (some e) false
    else let gone = mark_detached tab (some debugger_detached) w.now s in
      if w.retry_detached then retry_detached tab generation w gone else ended gone (some e) true

-- The burst-idle detach that `run` schedules at its end.
pub schedule_detach : ℕ → ℕ → Run → Result → Coordinator × Option Failure
schedule_detach tab generation w (ended s error detached) = (
  if eqb (hold_count tab s) 0
        && not detached
        && is_current tab generation s
        && has tab s.attached_tabs
      then reset_burst_timer tab (not w.release_after_run || has tab s.dialogs.by_tab) s
      else s,
  error,
)

pub run_turn : ℕ → ℕ → Run → Coordinator → Coordinator × Option Failure
run_turn tab generation w s =
    if not (is_current tab generation s)
    then (s, some canceled)
    else let (tried, error) = first_try tab generation w s in
      schedule_detach tab generation w (elim error [
        | none ↦ ended tried none false
        | some e ↦ catch_failure tab generation w e tried
      ])

-- `runExclusive` around the turn of an operation.
unfoldable pub run_exclusive :
    ℕ
    → Meanwhile
    → (Coordinator → Coordinator × Option Failure)
    → Coordinator
    → Coordinator × Option Failure
run_exclusive tab turn body s =
    let (queued, n) = enter_queue tab s in
    let (done, error) = body (turn queued) in (leave_queue tab n done, error)

-- `_assertCanStartWork` with the generation of the call, and the turn.
unfoldable pub start_exclusive :
    ℕ
    → Meanwhile
    → (ℕ → Coordinator → Coordinator × Option Failure)
    → Coordinator
    → Coordinator × Option Failure
start_exclusive tab turn body s =
    if can_start_work tab (generation_of tab s) s.cancellation
    then run_exclusive tab turn (body (generation_of tab s)) s
    else (s, some canceled)

pub run : ℕ → Run → Coordinator → Coordinator × Option Failure
run tab w s = start_exclusive tab w.turn (λ generation. run_turn tab generation w) s
