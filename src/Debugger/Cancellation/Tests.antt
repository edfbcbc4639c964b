-- ===== src/Debugger/Cancellation/Tests.antt =====
-- Runs of the cancellation state, and its theorems at concrete inputs.
use browser_bridge.Prelude.{◌≡◌, ◌↔◌, ℕ, refl, true, false, some, [], ◌∷◌, nat_key}
use browser_bridge.Prelude.JsMap.{get, has, put, delete}
use browser_bridge.Debugger.Cancellation.{
  Cancellation, Release, initial, get_cancellation_generation, cancel, tasks_of, has_stale,
  can_start, can_start_work, start_task, put_tasks, end_task, begin_cleanup, release, stands,
  commit_cleanup, step, run, cancels, starts, ends, begins_cleanup, releases, commits,
}
use browser_bridge.Debugger.Cancellation.Barriers.{IsSound, run-IsSound, initial-IsSound}
use browser_bridge.Debugger.Cancellation.Held.{run-can_start_held, run-barriers_iff}

cancellation : Unit {0}
unfolding initial get_cancellation_generation cancel tasks_of has_stale can_start can_start_work
    start_task put_tasks end_task begin_cleanup release stands commit_cleanup step run get put
    delete
cancellation = tt

-- Two cleanups of one tab share the barrier, and one of them has been released twice.
abbrev cleaning : Cancellation
cleaning = run (begins_cleanup 7 ∷ begins_cleanup 7 ∷ releases 0 ∷ releases 0 ∷ []) initial

cleaning-IsSound : IsSound cleaning
cleaning-IsSound =
    run-IsSound (begins_cleanup 7 ∷ begins_cleanup 7 ∷ releases 0 ∷ releases 0 ∷ []) initial
      initial-IsSound

still_cleaning : can_start 7 cleaning ≡ false
unfolding cancellation
still_cleaning = refl

-- The second release takes the barrier away, and the tab starts again in a new generation.
cleaned : can_start 7 (run (commits 7 ∷ releases 1 ∷ []) cleaning) ≡ true
unfolding cancellation
cleaned = refl

-- A task of the first generation keeps out work until it ends.
outlived : can_start 7 (run (starts 7 0 ∷ cancels 7 ∷ []) initial) ≡ false
unfolding cancellation
outlived = refl

over : can_start 7 (run (starts 7 0 ∷ cancels 7 ∷ ends 7 0 ∷ []) initial) ≡ true
unfolding cancellation
over = refl

run-can_start_held_example :
    can_start 7 (run (commits 7 ∷ releases 0 ∷ cancels 7 ∷ []) cleaning) ≡ false
unfolding cancellation
run-can_start_held_example =
    run-can_start_held (commits 7 ∷ releases 0 ∷ cancels 7 ∷ []) 1
      (record { tab = 7; barrier = 0; released = false }) cleaning cleaning-IsSound refl refl refl

barrier_stands_iff : (has 7 (run (begins_cleanup 7 ∷ releases 0 ∷ []) initial).barriers ≡ true) ↔ (
    (r : ℕ) × (rel : Release) × (get r (run (begins_cleanup 7 ∷ releases 0 ∷ []) initial).releases
      ≡ some rel)
    × (rel.released ≡ false)
    × (rel.tab ≡ 7))
barrier_stands_iff = run-barriers_iff (begins_cleanup 7 ∷ releases 0 ∷ []) 7
