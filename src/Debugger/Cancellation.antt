-- ===== src/Debugger/Cancellation.antt =====
-- packages/extension/src/debugger-coordinator.ts: cancellation generations, the tasks in flight of
-- each generation, and the barriers that a cleanup holds. A barrier is an object that the release
-- closures keep, so the barriers stand in a heap by their number, and so do the closures, with the
-- flag that each captures. The inner map of `inFlightTasksByTab` needs no heap: it leaves the outer
-- map when it is empty, and a task that captured it keeps an entry in it.
pub mod Stale
pub mod Barriers
pub mod Held
pub mod Tests
use browser_bridge.Prelude.{
  ℕ, ◌+◌, ◌-◌, Bool, true, false, not, ◌&&◌, ◌||◌, none, some, List, [], ◌∷◌, ltb, eqb,
  if◌then◌else◌, or_else, nat_key,
}
use browser_bridge.Prelude.JsMap.{JsMap, get, has, put, delete}

pub record CleanupBarrier : Type 0 where
  pub count : ℕ
  pub discarding : Bool

pub record Release : Type 0 where
  pub tab : ℕ
  pub barrier : ℕ
  pub released : Bool

pub record Cancellation : Type 0 where
  pub generations : JsMap ℕ ℕ
  pub in_flight : JsMap ℕ (JsMap ℕ ℕ)
  pub barriers : JsMap ℕ ℕ
  pub heap : JsMap ℕ CleanupBarrier
  pub releases : JsMap ℕ Release
  pub next_barrier : ℕ
  pub next_release : ℕ

unfoldable pub initial : Cancellation
initial = record {
  generations = [];
  in_flight = [];
  barriers = [];
  heap = [];
  releases = [];
  next_barrier = 0;
  next_release = 0;
}

unfoldable pub get_cancellation_generation : ℕ → Cancellation → ℕ
get_cancellation_generation tab c = or_else (get tab c.generations) 0

unfoldable pub is_cancellation_generation_current : ℕ → ℕ → Cancellation → Bool
is_cancellation_generation_current tab generation c =
    eqb (get_cancellation_generation tab c) generation

-- `discard`: what was authorized before is out of date.
unfoldable pub cancel : ℕ → Cancellation → Cancellation
cancel tab c = record c {
  generations = put tab (get_cancellation_generation tab c + 1) c.generations;
}

unfoldable pub tasks_of : ℕ → Cancellation → JsMap ℕ ℕ
tasks_of tab c = or_else (get tab c.in_flight) []

-- A task of another generation is still in flight.
unfoldable pub has_stale : ℕ → JsMap ℕ ℕ → Bool
has_stale generation [] = false
has_stale generation ((g, n) ∷ tasks) =
    (not (eqb g generation) && ltb 0 n) || has_stale generation tasks

-- `_assertCanStartWork`, as whether it passes, and `assertCanStart`.
unfoldable pub can_start_work : ℕ → ℕ → Cancellation → Bool
can_start_work tab generation c =
    not (has tab c.barriers) && not (has_stale generation (tasks_of tab c))

pub can_start : ℕ → Cancellation → Bool
can_start tab c = can_start_work tab (get_cancellation_generation tab c) c

-- `_runTrackedTask`, before the task and when it has settled.
unfoldable pub start_task : ℕ → ℕ → Cancellation → Cancellation
start_task tab generation c =
    let tasks = tasks_of tab c in
    record c {
      in_flight = put tab (put generation (or_else (get generation tasks) 0 + 1) tasks) c.in_flight;
    }

unfoldable pub put_tasks : ℕ → JsMap ℕ ℕ → JsMap ℕ (JsMap ℕ ℕ) → JsMap ℕ (JsMap ℕ ℕ)
put_tasks tab [] in_flight = delete tab in_flight
put_tasks tab (entry ∷ tasks) in_flight = put tab (entry ∷ tasks) in_flight

unfoldable pub end_task : ℕ → ℕ → Cancellation → Cancellation
end_task tab generation c =
    let tasks = tasks_of tab c in
    let remaining = or_else (get generation tasks) 1 - 1 in
    record c {
      in_flight =
          put_tasks tab
            (if ltb 0 remaining then put generation remaining tasks else delete generation tasks)
            c.in_flight;
    }

-- `beginCleanup`, and the number of the closure that it returns.
pub begin_cleanup : ℕ → Cancellation → Cancellation × ℕ
begin_cleanup tab c =
    let fresh : Bool = not (has tab c.barriers) in
    let b = or_else (get tab c.barriers) c.next_barrier in
    let old : CleanupBarrier = or_else (get b c.heap) (record { count = 0; discarding = false }) in
    (
      record c {
        barriers = put tab b c.barriers;
        heap = put b (record old { count = old.count + 1 }) c.heap;
        releases =
            put c.next_release (record { tab = tab; barrier = b; released = false }) c.releases;
        next_barrier = if fresh then c.next_barrier + 1 else c.next_barrier;
        next_release = c.next_release + 1;
      },
      c.next_release,
    )

-- `this.cleanupBarriersByTab.get(tabId) === barrier`
pub stands : ℕ → ℕ → Cancellation → Bool
stands tab b c = elim (get tab c.barriers) [ none ↦ false | some b' ↦ eqb b' b ]

-- The closure that `beginCleanup` returns.
pub release : ℕ → Cancellation → Cancellation
release r c = elim (get r c.releases) [
  | none ↦ c
  | some rel ↦ if rel.released then c else elim (get rel.barrier c.heap) [
    | none ↦ c
    | some barrier ↦ record c {
      releases = put r (record rel { released = true }) c.releases;
      heap = put rel.barrier (record barrier { count = barrier.count - 1 }) c.heap;
      barriers =
          if eqb (barrier.count - 1) 0 && stands rel.tab rel.barrier c
          then delete rel.tab c.barriers
          else c.barriers;
    }
  ]
]

-- `commitCleanup`: whether it calls `discard` itself, or waits for the call of an earlier commit.
pub commit_cleanup : ℕ → Cancellation → Cancellation × Bool
commit_cleanup tab c = elim (get tab c.barriers) [
  | none ↦ (c, true)
  | some b ↦ elim (get b c.heap) [
    | none ↦ (c, true)
    | some barrier ↦
        if barrier.discarding
        then (c, false)
        else (record c { heap = put b (record barrier { discarding = true }) c.heap }, true)
  ]
]

pub data Call : Type 0 where
  cancels : ℕ → Call
  starts ends : ℕ → ℕ → Call
  begins_cleanup releases commits : ℕ → Call

-- A commit calls `discard`, whose first action is `cancel`.
unfoldable pub step : Call → Cancellation → Cancellation
step (cancels tab) c = cancel tab c
step (starts tab generation) c = start_task tab generation c
step (ends tab generation) c = end_task tab generation c
step (begins_cleanup tab) c = (begin_cleanup tab c).0
step (releases r) c = release r c
step (commits tab) c =
    let (after, discards) = commit_cleanup tab c in if discards then cancel tab after else after

unfoldable pub run : List Call → Cancellation → Cancellation
run [] c = c
run (call ∷ calls) c = run calls (step call c)
