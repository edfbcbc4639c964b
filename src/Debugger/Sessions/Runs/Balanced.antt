-- ===== src/Debugger/Sessions/Runs/Balanced.antt =====
-- `run` leaves no task counted as in flight.
use browser_bridge.Prelude.{
  ℕ, ◌≡◌, true, false, ◌∷◌, Option, none, some, arith, Bool-cases, Option-cases, inl, inr, nat_key,
}
use browser_bridge.Debugger.Sessions.{
  Coordinator, is_current, generation_of, mark_detached, reset_burst_timer, consume_burst_timer,
  enter_queue, leave_queue, debugger_detached,
}
use browser_bridge.Debugger.Sessions.Runs.{
  Meanwhile, Failure, attach, Result, ended, Run, first_try, retry_detached, catch_failure,
  schedule_detach, run_turn, run_exclusive, start_exclusive, run,
}
use browser_bridge.Debugger.Sessions.Runs.Counted.{
  counted, Keeps, KeepsRun, attempt-counted, attach-counted,
}

module _ (t g : ℕ) where
  abbrev counted_in : Result → ℕ
  counted_in (ended s error detached) = counted t g s

  first_try-counted :
      (tab generation : ℕ) (w : Run) (s : Coordinator)
      → KeepsRun t g w
      → counted t g (first_try tab generation w s).0 ≡ counted t g s
  unfolding first_try consume_burst_timer
  first_try-counted tab generation w s keeps =
      let taken = (consume_burst_timer tab s).0 in
      let joined = attach-counted t g tab generation w.attachment taken keeps.attachment in
      let there = attempt-counted t g tab generation w.task taken keeps.task in
      let after =
        attempt-counted t g tab generation w.task (attach tab generation w.attachment taken).0
          keeps.task in
      ground arith

  retry_detached-counted :
      (tab generation : ℕ) (w : Run) (s : Coordinator)
      → KeepsRun t g w
      → counted_in (retry_detached tab generation w s) ≡ counted t g s
  unfolding retry_detached
  retry_detached-counted tab generation w s keeps =
      let joined = attach-counted t g tab generation w.reattachment s keeps.reattachment in
      let again = (attach tab generation w.reattachment s).0 in
      let after =
        attempt-counted t g tab generation w.retry
          (record again { reattaches = true ∷ again.reattaches }) keeps.retry in
      ground arith

  catch_failure-counted :
      (tab generation : ℕ) (w : Run) (e : Failure) (s : Coordinator)
      → KeepsRun t g w
      → counted_in (catch_failure tab generation w e s) ≡ counted t g s
  unfolding catch_failure mark_detached
  catch_failure-counted tab generation w e s keeps =
      let retried =
        retry_detached-counted tab generation w (mark_detached tab (some debugger_detached) w.now s)
          keeps in
      ground arith

  schedule_detach-counted :
      (tab generation : ℕ) (w : Run) (r : Result)
      → counted t g (schedule_detach tab generation w r).0 ≡ counted_in r
  unfolding schedule_detach reset_burst_timer
  schedule_detach-counted tab generation w (ended s error detached) = ground arith

  run_turn-counted :
      (tab generation : ℕ) (w : Run) (s : Coordinator)
      → KeepsRun t g w
      → counted t g (run_turn tab generation w s).0 ≡ counted t g s
  unfolding run_turn
  run_turn-counted tab generation w s keeps =
      let tried = first_try-counted tab generation w s keeps in
      let after = (first_try tab generation w s).0 in
      elim (Bool-cases (is_current tab generation s)) [
        | inr stale ↦ ground arith
        | inl current ↦ elim (Option-cases (first_try tab generation w s).1) [
          | inl fine ↦
              let last = schedule_detach-counted tab generation w (ended after none false) in
              ground arith
          | inr (e, bad) ↦
              let caught = catch_failure-counted tab generation w e after keeps in
              let last =
                schedule_detach-counted tab generation w (catch_failure tab generation w e after) in
              ground arith
        ]
      ]

  pub run_exclusive-counted :
      (tab : ℕ) (turn : Meanwhile) (body : Coordinator → Coordinator × Option Failure)
      (s : Coordinator)
      → Keeps t g turn
      → ((x : Coordinator) → counted t g (body x).0 ≡ counted t g x)
      → counted t g (run_exclusive tab turn body s).0 ≡ counted t g s
  unfolding run_exclusive enter_queue leave_queue
  run_exclusive-counted tab turn body s waits keeps =
      let queued = (enter_queue tab s).0 in
      let before = waits queued in let after = keeps (turn queued) in ground arith

  pub start_exclusive-counted :
      (tab : ℕ) (turn : Meanwhile) (body : ℕ → Coordinator → Coordinator × Option Failure)
      (s : Coordinator)
      → Keeps t g turn
      → ((x : Coordinator) → counted t g (body (generation_of tab s) x).0 ≡ counted t g x)
      → counted t g (start_exclusive tab turn body s).0 ≡ counted t g s
  unfolding start_exclusive
  start_exclusive-counted tab turn body s waits keeps =
      let taken = run_exclusive-counted tab turn (body (generation_of tab s)) s waits keeps in
      ground arith

  -- As long as the others leave the count of a generation's tasks on a tab as it is at each of its
  -- awaits, `run` leaves it too, on every branch: whether the attachment, the task, the
  -- reattachment or the retry fails, and also when a cleanup has made the call out of date. So a
  -- failed operation never keeps later work out.
  pub run-tasks_in_flight :
      (tab : ℕ) (w : Run) (s : Coordinator)
      → KeepsRun t g w
      → counted t g (run tab w s).0 ≡ counted t g s
  unfolding run
  run-tasks_in_flight tab w s keeps =
      start_exclusive-counted tab w.turn (λ generation. run_turn tab generation w) s keeps.turn
        (λ x. run_turn-counted tab (generation_of tab s) w x keeps)
