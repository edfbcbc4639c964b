-- ===== src/Debugger/Sessions/Runs/Counted.antt =====
-- Every task that an operation starts is taken off the count again, whatever fails.
use browser_bridge.Prelude.{ℕ, ◌+◌, ◌≡◌, ◌∷◌, arith, Bool-cases, Option-cases, inl, inr, nat_key}
use browser_bridge.Prelude.JsMap.{put}
use browser_bridge.Debugger.Cancellation.{start_task}
use browser_bridge.Debugger.Cancellation.Stale.{
  tasks_in_flight, start_task-tasks_in_flight, end_task-tasks_in_flight,
}
use browser_bridge.Debugger.Sessions.{Coordinator, is_current, mark_detached}
use browser_bridge.Debugger.Sessions.Runs.{
  Meanwhile, Failure, Task, Attachment, run_tracked_task, attempt, note_reason, await_attach,
  abandon_attach, attach, Run, classify_debugger_failure,
}

module _ (t g : ℕ) where
  -- How many tasks of generation `g` are in flight on tab `t`.
  abbrev pub counted : Coordinator → ℕ
  counted s = tasks_in_flight t g s.cancellation

  abbrev pub Keeps : Meanwhile → Type 0
  Keeps others = (s : Coordinator) → counted (others s) ≡ counted s

  -- While the coordinator waits for a task or Chrome, the others leave the count as it was.
  pub record KeepsTask (task : Task) : Type 0 where
    pub during : Keeps task.others
    pub after : Keeps task.lane

  pub record KeepsAttachment (w : Attachment) : Type 0 where
    pub during : Keeps w.others
    pub initialize : KeepsTask w.initialize
    pub detaching : Keeps w.detaching

  pub record KeepsRun (w : Run) : Type 0 where
    pub turn : Keeps w.turn
    pub attachment : KeepsAttachment w.attachment
    pub task : KeepsTask w.task
    pub reattachment : KeepsAttachment w.reattachment
    pub retry : KeepsTask w.retry

  pub run_tracked_task-counted :
      (tab generation : ℕ) (task : Task) (s : Coordinator)
      → KeepsTask task
      → counted (run_tracked_task tab generation task s) ≡ counted s
  unfolding run_tracked_task
  run_tracked_task-counted tab generation task s keeps =
      let begun = record s { cancellation = start_task tab generation s.cancellation } in
      let settled = task.others begun in
      omega (
        arith,
        keeps.during begun,
        start_task-tasks_in_flight tab generation t g s.cancellation,
        end_task-tasks_in_flight tab generation t g settled.cancellation,
      )

  pub attempt-counted :
      (tab generation : ℕ) (task : Task) (s : Coordinator)
      → KeepsTask task
      → counted (attempt tab generation task s).0 ≡ counted s
  unfolding attempt
  attempt-counted tab generation task s keeps =
      let settled = run_tracked_task-counted tab generation task s keeps in
      let later = keeps.after (run_tracked_task tab generation task s) in ground arith

  await_attach-counted :
      (tab : ℕ) (w : Attachment) (s : Coordinator)
      → Keeps w.others
      → counted (await_attach tab w s) ≡ counted s
  unfolding await_attach note_reason
  await_attach-counted tab w s keeps =
      let kept = keeps (record s {
        attaching = put tab s.next_object s.attaching;
        next_object = s.next_object + 1;
      }) in
      elim (Option-cases w.error) [ inl e ↦ simp e kept | inr (f, e) ↦ simp e (ground arith) ]

  abandon_attach-counted :
      (tab generation : ℕ) (w : Attachment) (e : Failure) (s : Coordinator)
      → Keeps w.detaching
      → counted (abandon_attach tab generation w e s).0 ≡ counted s
  unfolding abandon_attach mark_detached
  abandon_attach-counted tab generation w e s keeps =
      let gone = mark_detached tab (classify_debugger_failure e) w.now s in
      let kept = keeps (record gone { detaches = tab ∷ gone.detaches }) in ground arith

  pub attach-counted :
      (tab generation : ℕ) (w : Attachment) (s : Coordinator)
      → KeepsAttachment w
      → counted (attach tab generation w s).0 ≡ counted s
  unfolding attach
  attach-counted tab generation w s keeps =
      let settled = await_attach tab w s in
      let waited = await_attach-counted tab w s keeps.during in
      let opened = record settled { attached_tabs = put tab tt settled.attached_tabs } in
      let ready = attempt-counted tab generation w.initialize opened keeps.initialize in
      let last = attempt tab generation w.initialize opened in
      elim (Option-cases w.error) [
        | inr (f, e) ↦ ground arith
        | inl e ↦ elim (Bool-cases (is_current tab generation settled)) [
          | inr stale ↦ ground arith
          | inl current ↦ elim (Option-cases last.1) [
            | inl fine ↦ ground arith
            | inr (f, bad) ↦
                let left = abandon_attach-counted tab generation w f last.0 keeps.detaching in
                ground arith
          ]
        ]
      ]
