-- ===== src/Debugger/Sessions/Runs/Current.antt =====
-- An operation that a cleanup has overlapped never reports success.
use browser_bridge.Prelude.{
  ℕ, ◌≡◌, refl, ap, ◌∙◌, true, false, ◌∷◌, Option, none, some, arith, Bool-cases, Option-cases, inl,
  inr, nat_key,
}
use browser_bridge.Debugger.Cancellation.{can_start_work}
use browser_bridge.Debugger.Cancellation.Stale.{is_cancellation_generation_current_lem}
use browser_bridge.Debugger.Sessions.{
  Coordinator, hold_count, is_current, generation_of, mark_detached, reset_burst_timer,
  consume_burst_timer, enter_queue, leave_queue, debugger_detached,
}
use browser_bridge.Debugger.Sessions.Runs.{
  Meanwhile, Failure, Task, attempt, assert_current, attach, Result, ended, Run, first_try,
  retry_detached, catch_failure, schedule_detach, run_turn, run_exclusive, start_exclusive, run,
}

attempt-is_current :
    (tab generation : ℕ) (task : Task) (s : Coordinator)
    → (attempt tab generation task s).1 ≡ none
    → is_current tab generation (attempt tab generation task s).0 ≡ true
unfolding attempt assert_current
attempt-is_current tab generation task s h = ground arith

first_try-is_current :
    (tab generation : ℕ) (w : Run) (s : Coordinator)
    → (first_try tab generation w s).1 ≡ none
    → is_current tab generation (first_try tab generation w s).0 ≡ true
unfolding first_try
first_try-is_current tab generation w s h =
    let taken = (consume_burst_timer tab s).0 in
    let there = attempt-is_current tab generation w.task taken in
    let after =
      attempt-is_current tab generation w.task (attach tab generation w.attachment taken).0 in
    ground arith

abbrev error_of : Result → Option Failure
error_of (ended s error detached) = error

abbrev state_of : Result → Coordinator
state_of (ended s error detached) = s

retry_detached-is_current :
    (tab generation : ℕ) (w : Run) (s : Coordinator)
    → error_of (retry_detached tab generation w s) ≡ none
    → is_current tab generation (state_of (retry_detached tab generation w s)) ≡ true
unfolding retry_detached
retry_detached-is_current tab generation w s h =
    let again = (attach tab generation w.reattachment s).0 in
    let after =
      attempt-is_current tab generation w.retry
        (record again { reattaches = true ∷ again.reattaches }) in
    ground arith

catch_failure-is_current :
    (tab generation : ℕ) (w : Run) (e : Failure) (s : Coordinator)
    → error_of (catch_failure tab generation w e s) ≡ none
    → is_current tab generation (state_of (catch_failure tab generation w e s)) ≡ true
unfolding catch_failure
catch_failure-is_current tab generation w e s h =
    let retried =
      retry_detached-is_current tab generation w
        (mark_detached tab (some debugger_detached) w.now s) in
    ground arith

schedule_detach-is_current :
    (tab generation : ℕ) (w : Run) (r : Result)
    → (error_of r ≡ none → is_current tab generation (state_of r) ≡ true)
    → (schedule_detach tab generation w r).1 ≡ none
    → is_current tab generation (schedule_detach tab generation w r).0 ≡ true
unfolding schedule_detach reset_burst_timer is_current
schedule_detach-is_current tab generation w (ended s error detached) current h =
    let now = current h in ground arith

run_turn-is_current :
    (tab generation : ℕ) (w : Run) (s : Coordinator)
    → (run_turn tab generation w s).1 ≡ none
    → is_current tab generation (run_turn tab generation w s).0 ≡ true
unfolding run_turn
run_turn-is_current tab generation w s h =
    let after = (first_try tab generation w s).0 in
    elim (Bool-cases (is_current tab generation s)) [
      | inr stale ↦ absurd (ground arith)
      | inl current ↦ elim (Option-cases (first_try tab generation w s).1) [
        | inl fine ↦
            let tried = first_try-is_current tab generation w s fine in
            let last =
              schedule_detach-is_current tab generation w (ended after none false) (λ _. tried) in
            ground arith
        | inr (e, bad) ↦
            let last =
              schedule_detach-is_current tab generation w (catch_failure tab generation w e after)
                (catch_failure-is_current tab generation w e after) in
            ground arith
      ]
    ]

-- A turn that reports success ends with a property that leaving the queue keeps.
pub start_exclusive_success :
    (tab : ℕ) (turn : Meanwhile) (body : ℕ → Coordinator → Coordinator × Option Failure)
    (s : Coordinator)
    → (start_exclusive tab turn body s).1 ≡ none
    → ((start_exclusive tab turn body s).0
        ≡ leave_queue tab s.next_object (body (generation_of tab s) (turn (enter_queue tab s).0)).0)
      × ((body (generation_of tab s) (turn (enter_queue tab s).0)).1 ≡ none)
unfolding start_exclusive run_exclusive enter_queue
start_exclusive_success tab turn body s h =
    elim (Bool-cases (can_start_work tab (generation_of tab s) s.cancellation)) [
      | inl free ↦ (ground arith, ground arith)
      | inr kept_out ↦ absurd (ground arith)
    ]

pub generation_of-leave_queue :
    (tab t turn : ℕ) (s : Coordinator)
    → generation_of tab (leave_queue t turn s) ≡ generation_of tab s
unfolding leave_queue generation_of
generation_of-leave_queue tab t turn s = refl

pub hold_count-leave_queue :
    (tab t turn : ℕ) (s : Coordinator) → hold_count tab (leave_queue t turn s) ≡ hold_count tab s
unfolding leave_queue hold_count
hold_count-leave_queue tab t turn s = refl

pub is_current-generation :
    (tab generation : ℕ) (s : Coordinator)
    → is_current tab generation s ≡ true
    → generation_of tab s ≡ generation
unfolding is_current generation_of
is_current-generation tab generation s h =
    is_cancellation_generation_current_lem tab generation s.cancellation h

-- `run` reports success only when the tab's generation is still the one of the call: whatever the
-- others did at its awaits, no cleanup of the tab came between.
pub run-generation_of :
    (tab : ℕ) (w : Run) (s : Coordinator)
    → (run tab w s).1 ≡ none
    → generation_of tab (run tab w s).0 ≡ generation_of tab s
unfolding run
run-generation_of tab w s h =
    let g = generation_of tab s in
    let (left, fine) =
      start_exclusive_success tab w.turn (λ generation. run_turn tab generation w) s h in
    let x = w.turn (enter_queue tab s).0 in
    let current = run_turn-is_current tab g w x fine in
    ap (generation_of tab) left
    ∙ generation_of-leave_queue tab tab s.next_object (run_turn tab g w x).0
    ∙ is_current-generation tab g (run_turn tab g w x).0 current
