-- ===== src/Debugger/Sessions/Holds.antt =====
-- packages/extension/src/debugger-coordinator.ts: `acquire` and `release`, which keep a session
-- attached across operations by counting holds. Their awaits are as in Runs.
pub mod Acquired
pub mod HoldsBalanced
pub mod KeptOut
pub mod Tests
use browser_bridge.Prelude.{
  ℕ, ◌+◌, ◌-◌, ◌<◌, ◌≡◌, refl, ap, ◌∙◌, sym, Bool, true, false, not, ◌&&◌, ◌||◌, ◌∷◌, List, Option,
  none, some, arith, eqb, ltb, if◌then◌else◌, Bool-cases, Option-cases, inl, inr, nat_key, or_else,
  Key,
}
use browser_bridge.Prelude.JsMap.{JsMap, has, get, put, delete, get-put_self}
use browser_bridge.Debugger.Sessions.{
  Coordinator, hold_count, is_current, generation_of, mark_detached, reset_burst_timer,
  consume_burst_timer, enter_queue, leave_queue,
}
use browser_bridge.Debugger.Sessions.Runs.{
  Meanwhile, Failure, canceled, Task, Attachment, run_tracked_task, attempt, attach, run_exclusive,
  start_exclusive, run, Run,
}

pub record Acquire : Type 0 where
  pub turn : Meanwhile
  pub attachment : Attachment
  pub initialize : Task
  pub detaching : Meanwhile
  pub now : ℕ

-- The `catch` of `acquire`, where `attached` tells that this call has attached the session.
pub abandon_acquire : ℕ → ℕ → Acquire → Bool → Failure → Coordinator → Coordinator × Option Failure
abandon_acquire tab generation w attached e s =
    if not (is_current tab generation s)
    then (s, some canceled)
    else if attached
    then (
      mark_detached tab none w.now (w.detaching (record s { detaches = tab ∷ s.detaches })),
      some e,
    )
    else if has tab s.attached_tabs
    then (reset_burst_timer tab true s, some e)
    else (s, some e)

-- The first hold of a tab: attach unless a session is there, then initialize.
pub first_hold : ℕ → ℕ → Acquire → Coordinator → Coordinator × Option Failure
first_hold tab generation w s =
    let (taken, had_burst) = consume_burst_timer tab s in
    let present = had_burst || has tab s.attached_tabs in
    let (ready, error) : Coordinator × Option Failure =
      if present then (taken, none) else attach tab generation w.attachment taken in
    elim error [
      | some e ↦ abandon_acquire tab generation w false e ready
      | none ↦
          let (done, failure) = attempt tab generation w.initialize ready in
          elim failure [
            | none ↦ (done, none)
            | some e ↦ abandon_acquire tab generation w (not present) e done
          ]
    ]

pub acquire_turn : ℕ → ℕ → Acquire → Coordinator → Coordinator × Option Failure
acquire_turn tab generation w s =
    if not (is_current tab generation s)
    then (s, some canceled)
    else let count = hold_count tab s in
      let (ready, error) : Coordinator × Option Failure =
        if eqb count 0 then first_hold tab generation w s else (s, none) in
      elim error [
        | some e ↦ (ready, some e)
        | none ↦
            if is_current tab generation ready
            then (record ready { holds = put tab (count + 1) ready.holds }, none)
            else (ready, some canceled)
      ]

pub acquire : ℕ → Acquire → Coordinator → Coordinator × Option Failure
acquire tab w s = start_exclusive tab w.turn (λ generation. acquire_turn tab generation w) s

pub record Release : Type 0 where
  pub turn : Meanwhile
  pub cleanup : Task
  pub detaching : Meanwhile
  pub detach_error : Option Failure
  pub now : ℕ

pub release_turn : ℕ → ℕ → Release → Coordinator → Coordinator × Option Failure
release_turn tab generation w s =
    if not (is_current tab generation s)
    then (s, some canceled)
    else let count = hold_count tab s in
      if eqb count 0
      then (s, none)
      else if ltb 1 count
      then (record s { holds = put tab (count - 1) s.holds }, none)
      else let settled =
          w.cleanup.lane
            (run_tracked_task tab generation w.cleanup (record s { holds = delete tab s.holds })) in
        if not (is_current tab generation settled) then (settled, some canceled) else (
          mark_detached tab none w.now
              (w.detaching (record settled { detaches = tab ∷ settled.detaches })),
          elim w.detach_error [ none ↦ w.cleanup.error | some e ↦ some e ],
        )

pub release : ℕ → Release → Coordinator → Coordinator × Option Failure
release tab w s =
    if eqb (hold_count tab s) 0 && not (has tab s.attached_tabs)
    then (s, none)
    else run_exclusive tab w.turn (release_turn tab (generation_of tab s) w) s
