-- ===== src/Debugger/Sessions/Holds/HoldsBalanced.antt =====
-- `acquire` and `release` leave no task counted as in flight.
use browser_bridge.Prelude.{
  ℕ, ◌≡◌, Bool, true, false, ◌||◌, ◌∷◌, arith, Bool-cases, Option-cases, inl, inr, nat_key,
}
use browser_bridge.Prelude.JsMap.{has, delete}
use browser_bridge.Debugger.Sessions.{
  Coordinator, generation_of, mark_detached, reset_burst_timer, consume_burst_timer,
}
use browser_bridge.Debugger.Sessions.Runs.{Failure, run_tracked_task, attempt, attach}
use browser_bridge.Debugger.Sessions.Holds.{
  Acquire, abandon_acquire, first_hold, acquire_turn, acquire, Release, release_turn, release,
}
use browser_bridge.Debugger.Sessions.Runs.Counted.{
  counted, Keeps, KeepsTask, KeepsAttachment, attempt-counted, attach-counted,
  run_tracked_task-counted,
}
use browser_bridge.Debugger.Sessions.Runs.Balanced.{run_exclusive-counted, start_exclusive-counted}

module _ (t g : ℕ) where
  pub record KeepsAcquire (w : Acquire) : Type 0 where
    pub turn : Keeps t g w.turn
    pub attachment : KeepsAttachment t g w.attachment
    pub initialize : KeepsTask t g w.initialize
    pub detaching : Keeps t g w.detaching

  pub record KeepsRelease (w : Release) : Type 0 where
    pub turn : Keeps t g w.turn
    pub cleanup : KeepsTask t g w.cleanup
    pub detaching : Keeps t g w.detaching

  abandon_acquire-counted :
      (tab generation : ℕ) (w : Acquire) (attached : Bool) (e : Failure) (s : Coordinator)
      → Keeps t g w.detaching
      → counted t g (abandon_acquire tab generation w attached e s).0 ≡ counted t g s
  unfolding abandon_acquire mark_detached reset_burst_timer
  abandon_acquire-counted tab generation w attached e s keeps =
      let kept = keeps (record s { detaches = tab ∷ s.detaches }) in ground arith

  first_hold-counted :
      (tab generation : ℕ) (w : Acquire) (s : Coordinator)
      → KeepsAcquire w
      → counted t g (first_hold tab generation w s).0 ≡ counted t g s
  unfolding first_hold consume_burst_timer
  first_hold-counted tab generation w s keeps =
      let taken = (consume_burst_timer tab s).0 in
      let joined = attach tab generation w.attachment taken in
      let attached = attach-counted t g tab generation w.attachment taken keeps.attachment in
      let there = attempt tab generation w.initialize taken in
      let after = attempt tab generation w.initialize joined.0 in
      let ready_there = attempt-counted t g tab generation w.initialize taken keeps.initialize in
      let ready_after = attempt-counted t g tab generation w.initialize joined.0 keeps.initialize in
      let failed = λ (mine : Bool) (e : Failure) (x : Coordinator).
        abandon_acquire-counted tab generation w mine e x keeps.detaching in
      elim (Bool-cases (has tab s.burst_timers || has tab s.attached_tabs)) [
        | inl present ↦ elim (Option-cases there.1) [
          | inl fine ↦ ground arith
          | inr (e, bad) ↦ let left = failed false e there.0 in ground arith
        ]
        | inr absent ↦ elim (Option-cases joined.1) [
          | inr (e, bad) ↦ let left = failed false e joined.0 in ground arith
          | inl fine ↦ elim (Option-cases after.1) [
            | inl done ↦ ground arith
            | inr (e, bad) ↦ let left = failed true e after.0 in ground arith
          ]
        ]
      ]

  acquire_turn-counted :
      (tab generation : ℕ) (w : Acquire) (s : Coordinator)
      → KeepsAcquire w
      → counted t g (acquire_turn tab generation w s).0 ≡ counted t g s
  unfolding acquire_turn
  acquire_turn-counted tab generation w s keeps =
      let first = first_hold-counted tab generation w s keeps in ground arith

  -- As for `run`, the count of a generation's tasks on a tab is the same after `acquire`, on every
  -- branch, if the others leave it as it is at each await.
  pub acquire-tasks_in_flight :
      (tab : ℕ) (w : Acquire) (s : Coordinator)
      → KeepsAcquire w
      → counted t g (acquire tab w s).0 ≡ counted t g s
  unfolding acquire
  acquire-tasks_in_flight tab w s keeps =
      start_exclusive-counted t g tab w.turn (λ generation. acquire_turn tab generation w) s
        keeps.turn (λ x. acquire_turn-counted tab (generation_of tab s) w x keeps)

  release_turn-counted :
      (tab generation : ℕ) (w : Release) (s : Coordinator)
      → KeepsRelease w
      → counted t g (release_turn tab generation w s).0 ≡ counted t g s
  unfolding release_turn mark_detached
  release_turn-counted tab generation w s keeps =
      let free = record s { holds = delete tab s.holds } in
      let cleaned = run_tracked_task tab generation w.cleanup free in
      let done = run_tracked_task-counted t g tab generation w.cleanup free keeps.cleanup in
      let settled = w.cleanup.lane cleaned in
      let waited = keeps.cleanup.after cleaned in
      let gone = keeps.detaching (record settled { detaches = tab ∷ settled.detaches }) in
      ground arith

  -- So it is after `release`, also when the cleanup or the detachment fails.
  pub release-tasks_in_flight :
      (tab : ℕ) (w : Release) (s : Coordinator)
      → KeepsRelease w
      → counted t g (release tab w s).0 ≡ counted t g s
  unfolding release
  release-tasks_in_flight tab w s keeps =
      let taken =
        run_exclusive-counted t g tab w.turn (release_turn tab (generation_of tab s) w) s keeps.turn
          (λ x. release_turn-counted tab (generation_of tab s) w x keeps) in
      ground arith
