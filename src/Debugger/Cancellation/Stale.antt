-- ===== src/Debugger/Cancellation/Stale.antt =====
-- Tasks of an earlier generation keep new work out until they have ended.
use browser_bridge.Prelude.{
  ℕ, ◌+◌, ◌-◌, ◌≤◌, ◌<◌, ◌≡◌, ap, true, false, ◌&&◌, List, [], ◌∷◌, arith, ltb, eqb, if◌then◌else◌,
  or_else, Bool-cases, inl, inr, nat_key,
}
use browser_bridge.Prelude.JsMap.{JsMap, get, put, delete, get-put, get-delete}
use browser_bridge.Debugger.Cancellation.{
  Cancellation, get_cancellation_generation, is_cancellation_generation_current, cancel, tasks_of,
  has_stale, can_start, can_start_work, start_task, put_tasks, end_task, begin_cleanup, release,
  commit_cleanup, Call, cancels, starts, ends, begins_cleanup, releases, commits, step, run,
}

-- How many tasks of the generation are in flight.
abbrev pub tasks_in_flight : ℕ → ℕ → Cancellation → ℕ
tasks_in_flight tab generation c = or_else (get generation (tasks_of tab c)) 0

-- How many of the calls end a task of the generation.
unfoldable pub ends_among : ℕ → ℕ → List Call → ℕ
ends_among tab generation [] = 0
ends_among tab generation (ends t g ∷ calls) =
    ends_among tab generation calls + (if eqb t tab && eqb g generation then 1 else 0)
ends_among tab generation (cancels t ∷ calls) = ends_among tab generation calls
ends_among tab generation (starts t g ∷ calls) = ends_among tab generation calls
ends_among tab generation (begins_cleanup t ∷ calls) = ends_among tab generation calls
ends_among tab generation (releases r ∷ calls) = ends_among tab generation calls
ends_among tab generation (commits t ∷ calls) = ends_among tab generation calls

get-put_tasks :
    (t j : ℕ) (tasks : JsMap ℕ ℕ) (m : JsMap ℕ (JsMap ℕ ℕ))
    → or_else (get j (put_tasks t tasks m)) [] ≡ (if eqb t j then tasks else or_else (get j m) [])
unfolding put_tasks
get-put_tasks t j [] m = ground (arith, get-delete t j m)
get-put_tasks t j (e ∷ tasks) m = ground (arith, get-put t j (e ∷ tasks) m)

-- A task that starts is one more of its generation, and one that ends is one less.
pub start_task-tasks_in_flight :
    (t g tab generation : ℕ) (c : Cancellation)
    → tasks_in_flight tab generation (start_task t g c)
      ≡ tasks_in_flight tab generation c + (if eqb t tab && eqb g generation then 1 else 0)
unfolding start_task tasks_of
start_task-tasks_in_flight t g tab generation c =
    let tasks = or_else (get t c.in_flight) [] in
    let count = or_else (get g tasks) 0 + 1 in
    ground (arith, get-put t tab (put g count tasks) c.in_flight, get-put g generation count tasks)

remaining_tasks :
    (g generation : ℕ) (tasks : JsMap ℕ ℕ)
    → or_else
        (get generation (
          if ltb 0 (or_else (get g tasks) 1 - 1)
          then put g (or_else (get g tasks) 1 - 1) tasks
          else delete g tasks))
        0
      ≡ or_else (get generation tasks) 0 - (if eqb g generation then 1 else 0)
remaining_tasks g generation tasks =
    ground (
      arith,
      get-put g generation (or_else (get g tasks) 1 - 1) tasks,
      get-delete g generation tasks,
    )

pub end_task-tasks_in_flight :
    (t g tab generation : ℕ) (c : Cancellation)
    → tasks_in_flight tab generation (end_task t g c)
      ≡ tasks_in_flight tab generation c - (if eqb t tab && eqb g generation then 1 else 0)
unfolding end_task tasks_of
end_task-tasks_in_flight t g tab generation c =
    let tasks = or_else (get t c.in_flight) [] in
    let remaining = or_else (get g tasks) 1 - 1 in
    let left = if ltb 0 remaining then put g remaining tasks else delete g tasks in
    let kept = remaining_tasks g generation tasks in
    rw (get-put_tasks t tab left c.in_flight) (elim (Bool-cases (eqb t tab)) [
      | inl same ↦
          let here : t ≡ tab = ground arith in
          let found = ap (λ x. or_else (get generation (or_else (get x c.in_flight) [])) 0) here in
          rw same (rw found at kept)
      | inr other ↦ rw other (omega arith)
    ])

step-tasks_in_flight :
    (call : Call) (tab generation : ℕ) (c : Cancellation)
    → tasks_in_flight tab generation c
      ≤ tasks_in_flight tab generation (step call c) + ends_among tab generation (call ∷ [])
unfolding step ends_among tasks_of begin_cleanup cancel release commit_cleanup
step-tasks_in_flight (cancels t) tab generation c = omega arith
step-tasks_in_flight (starts t g) tab generation c =
    omega (arith, start_task-tasks_in_flight t g tab generation c)
step-tasks_in_flight (ends t g) tab generation c =
    omega (arith, end_task-tasks_in_flight t g tab generation c)
step-tasks_in_flight (begins_cleanup t) tab generation c = omega arith
step-tasks_in_flight (releases r) tab generation c = ground arith
step-tasks_in_flight (commits t) tab generation c = ground arith

ends_among-cons :
    (call : Call) (calls : List Call) (tab generation : ℕ)
    → ends_among tab generation (call ∷ calls)
      ≡ ends_among tab generation (call ∷ []) + ends_among tab generation calls
unfolding ends_among
ends_among-cons (ends t g) calls tab generation = omega arith
ends_among-cons (cancels t) calls tab generation = omega arith
ends_among-cons (starts t g) calls tab generation = omega arith
ends_among-cons (begins_cleanup t) calls tab generation = omega arith
ends_among-cons (releases r) calls tab generation = omega arith
ends_among-cons (commits t) calls tab generation = omega arith

run-tasks_in_flight :
    (calls : List Call) (tab generation : ℕ) (c : Cancellation)
    → tasks_in_flight tab generation c
      ≤ tasks_in_flight tab generation (run calls c) + ends_among tab generation calls
unfolding run
run-tasks_in_flight [] tab generation c = omega arith
run-tasks_in_flight (call ∷ calls) tab generation c = omega (
  arith,
  step-tasks_in_flight call tab generation c,
  run-tasks_in_flight calls tab generation (step call c),
  ends_among-cons call calls tab generation,
)

cancel-generation :
    (t tab : ℕ) (c : Cancellation)
    → get_cancellation_generation tab c ≤ get_cancellation_generation tab (cancel t c)
unfolding cancel get_cancellation_generation
cancel-generation t tab c =
    ground (arith, get-put t tab (or_else (get t c.generations) 0 + 1) c.generations)

commit-generation :
    (t tab : ℕ) (c : Cancellation)
    → get_cancellation_generation tab (commit_cleanup t c).0 ≡ get_cancellation_generation tab c
unfolding get_cancellation_generation commit_cleanup
commit-generation t tab c = ground arith

step-generation :
    (call : Call) (tab : ℕ) (c : Cancellation)
    → get_cancellation_generation tab c ≤ get_cancellation_generation tab (step call c)
unfolding step start_task end_task begin_cleanup release get_cancellation_generation
step-generation (cancels t) tab c = cancel-generation t tab c
step-generation (starts t g) tab c = omega arith
step-generation (ends t g) tab c = omega arith
step-generation (begins_cleanup t) tab c = omega arith
step-generation (releases r) tab c = ground arith
step-generation (commits t) tab c = elim (Bool-cases (commit_cleanup t c).1) [
  | inl discards ↦
      rw discards
        (omega (arith, cancel-generation t tab (commit_cleanup t c).0, commit-generation t tab c))
  | inr waits ↦ rw waits (omega (arith, commit-generation t tab c))
]

-- A generation never goes back.
pub run-generation :
    (calls : List Call) (tab : ℕ) (c : Cancellation)
    → get_cancellation_generation tab c ≤ get_cancellation_generation tab (run calls c)
unfolding run
run-generation [] tab c = omega arith
run-generation (call ∷ calls) tab c =
    omega (arith, step-generation call tab c, run-generation calls tab (step call c))

has_stale_of_count :
    (generation g : ℕ) (tasks : JsMap ℕ ℕ)
    → g < generation
    → 0 < or_else (get g tasks) 0
    → has_stale generation tasks ≡ true
unfolding has_stale get
has_stale_of_count generation g [] older busy = absurd (omega arith)
has_stale_of_count generation g ((j, n) ∷ tasks) older busy =
    ground (arith, has_stale_of_count generation g tasks older)

-- As long as the tab's tasks of an earlier generation have not all ended, no work starts on the
-- tab, whatever other calls come: cleanups, new generations, and tasks that start or end.
pub run-can_start_stale :
    (calls : List Call) (tab g : ℕ) (c : Cancellation)
    → g < get_cancellation_generation tab c
    → ends_among tab g calls < tasks_in_flight tab g c
    → can_start tab (run calls c) ≡ false
unfolding can_start can_start_work
run-can_start_stale calls tab g c older busy =
    let later = run-generation calls tab c in
    let left = run-tasks_in_flight calls tab g c in
    rw
      (has_stale_of_count (get_cancellation_generation tab (run calls c)) g
        (tasks_of tab (run calls c)) (omega arith) (omega arith))
      (ground arith)

pub is_cancellation_generation_current_lem :
    (tab generation : ℕ) (c : Cancellation)
    → is_cancellation_generation_current tab generation c ≡ true
    → get_cancellation_generation tab c ≡ generation
unfolding is_cancellation_generation_current
is_cancellation_generation_current_lem tab generation c h = ground arith

pub get_cancellation_generation-cancel :
    (tab t : ℕ) (c : Cancellation)
    → get_cancellation_generation t (cancel tab c)
      ≡ (if eqb tab t then get_cancellation_generation t c + 1 else get_cancellation_generation t c)
unfolding cancel get_cancellation_generation
get_cancellation_generation-cancel tab t c =
    ground (arith, get-put tab t (or_else (get tab c.generations) 0 + 1) c.generations)

pub can_start_lem :
    (tab : ℕ) (c : Cancellation)
    → can_start_work tab (get_cancellation_generation tab c) c ≡ can_start tab c
unfolding can_start
can_start_lem tab c = ground arith
