-- ===== src/Debugger/Dialogs.antt =====
-- packages/extension/src/debugger-coordinator.ts: the JavaScript dialogs that Chrome reports, and
-- the tasks that wait for one or are interrupted by one. A text is its UTF-16 code units. A waiter
-- and a guard are objects, named by a number; `settled` holds what the promise of a waiter resolved
-- to, the first time, and `interrupted` the dialog that a guard was last called with.
pub mod Bounds
pub mod Opened
pub mod Numbered
pub mod Tests
use browser_bridge.Prelude.{
  take, ℕ, zero, suc, ◌+◌, min, Bool, true, false, not, ◌&&◌, Option, none, some, List, [], ◌∷◌,
  ◌++◌, String, leb, eqb, if◌then◌else◌, or_else, filter, length, ◌===◌, nat_key, string_key,
}
use browser_bridge.Prelude.JsMap.{JsMap, size, get, has, put, delete, delete_oldest}

abbrev pub max_tracked_dialogs : ℕ
max_tracked_dialogs = 100

abbrev pub max_dialog_text_length : ℕ
max_dialog_text_length = 4096

abbrev pub max_safe_integer : ℕ
max_safe_integer = 9007199254740991

pub data DialogType : Type 0 where
  alert confirm prompt beforeunload : DialogType

-- `dialog_id` is the number after the prefix of the coordinator, which is the same for each dialog.
pub record TrackedDialog : Type 0 where
  pub dialog_id : ℕ
  pub type : DialogType
  pub message : List ℕ
  pub default_prompt : List ℕ
  pub message_truncated : Bool
  pub default_prompt_truncated : Bool
  pub opened_at : ℕ

pub record DialogEventState : Type 0 where
  pub event_sequence : ℕ
  pub last_opened_dialog_id : Option ℕ

pub record Dialogs : Type 0 where
  pub by_tab : JsMap ℕ TrackedDialog
  pub waiters : JsMap ℕ (List ℕ)
  pub events : JsMap ℕ DialogEventState
  pub guards : JsMap ℕ (List ℕ)
  pub next_generation : ℕ
  pub next_waiter : ℕ
  pub settled : JsMap ℕ (Option TrackedDialog)
  pub interrupted : JsMap ℕ TrackedDialog

pub initial : Dialogs
initial = record {
  by_tab = [];
  waiters = [];
  events = [];
  guards = [];
  next_generation = 0;
  next_waiter = 0;
  settled = [];
  interrupted = [];
}

-- The parameters of an opening event: a field is `none` when it is not a string.
pub record Opening : Type 0 where
  pub type : Option String
  pub message : Option (List ℕ)
  pub default_prompt : Option (List ℕ)

pub normalize_dialog_type : Option String → DialogType
normalize_dialog_type none = alert
normalize_dialog_type (some value) =
    if value === "confirm"
    then confirm
    else if value === "prompt"
    then prompt
    else if value === "beforeunload"
    then beforeunload
    else alert

pub bound_dialog_text : Option (List ℕ) → List ℕ × Bool
bound_dialog_text value =
    let text = or_else value [] in
    if leb (length text) max_dialog_text_length
    then (text, false)
    else (take max_dialog_text_length text, true)

pub next_dialog_id : ℕ → ℕ
next_dialog_id generation = if leb max_safe_integer generation then 1 else generation + 1

-- The oldest entry makes room for a tab that has none.
pub make_room {ℓ} : {V : Type ℓ} → ℕ → JsMap ℕ V → JsMap ℕ V
make_room tab m = if not (has tab m) && leb max_tracked_dialogs (size m) then delete_oldest m else m

-- `m.delete(tab); m.set(tab, v)`: the entry becomes the newest one.
pub renew {ℓ} : {V : Type ℓ} → ℕ → V → JsMap ℕ V → JsMap ℕ V
renew tab v m = put tab v (delete tab m)

pub last_opened : Option ℕ → Option DialogEventState → Option ℕ
last_opened (some id) current = some id
last_opened none none = none
last_opened none (some current) = current.last_opened_dialog_id

pub sequence_of : Option DialogEventState → ℕ
sequence_of none = 0
sequence_of (some current) = current.event_sequence

pub record_dialog_event : ℕ → Option ℕ → JsMap ℕ DialogEventState → JsMap ℕ DialogEventState
record_dialog_event tab opened events =
    let room = make_room tab events in
    let current = get tab room in
    renew tab
      (record {
        event_sequence = sequence_of current + 1;
        last_opened_dialog_id = last_opened opened current;
      })
      room

-- A promise resolves once.
pub resolve :
    Option TrackedDialog → ℕ → JsMap ℕ (Option TrackedDialog) → JsMap ℕ (Option TrackedDialog)
resolve dialog w settled = if has w settled then settled else put w dialog settled

pub resolve_all :
    Option TrackedDialog → List ℕ → JsMap ℕ (Option TrackedDialog) → JsMap ℕ (Option TrackedDialog)
resolve_all dialog [] settled = settled
resolve_all dialog (w ∷ ws) settled = resolve_all dialog ws (resolve dialog w settled)

pub settle_dialog_waiters : ℕ → Option TrackedDialog → Dialogs → Dialogs
settle_dialog_waiters tab dialog ds = elim (get tab ds.waiters) [
  | none ↦ ds
  | some ws ↦ record ds {
    waiters = delete tab ds.waiters;
    settled = resolve_all dialog ws ds.settled;
  }
]

-- `for (const guard of guards) guard(dialog)`
pub interrupt_all : TrackedDialog → List ℕ → JsMap ℕ TrackedDialog → JsMap ℕ TrackedDialog
interrupt_all dialog [] interrupted = interrupted
interrupt_all dialog (g ∷ gs) interrupted = interrupt_all dialog gs (put g dialog interrupted)

-- The dialog that an opening event makes.
pub opened_dialog : Opening → ℕ → Dialogs → TrackedDialog
opened_dialog event now ds =
    let (message, message_truncated) = bound_dialog_text event.message in
    let (default_prompt, default_prompt_truncated) = bound_dialog_text event.default_prompt in
    record {
      dialog_id = next_dialog_id ds.next_generation;
      type = normalize_dialog_type event.type;
      message = message;
      default_prompt = default_prompt;
      message_truncated = message_truncated;
      default_prompt_truncated = default_prompt_truncated;
      opened_at = now;
    }

-- `handleEvent` for `Page.javascriptDialogOpening` with an object for its parameters.
pub dialog_opening : ℕ → Opening → ℕ → Dialogs → Dialogs
dialog_opening tab event now ds =
    let dialog = opened_dialog event now ds in
    let shown = settle_dialog_waiters tab (some dialog) (record ds {
      by_tab = renew tab dialog (make_room tab ds.by_tab);
      events = record_dialog_event tab (some dialog.dialog_id) ds.events;
      next_generation = dialog.dialog_id;
    }) in
    record shown {
      interrupted = interrupt_all dialog (or_else (get tab ds.guards) []) ds.interrupted;
    }

-- `handleEvent` for `Page.javascriptDialogClosed`. Any other event changes nothing.
pub dialog_closed : ℕ → Dialogs → Dialogs
dialog_closed tab ds = record ds {
  by_tab = delete tab ds.by_tab;
  events = record_dialog_event tab none ds.events;
}

pub record Observation : Type 0 where
  pub dialog : Option TrackedDialog
  pub event_sequence : ℕ
  pub last_opened_dialog_id : Option ℕ

pub get_dialog_observation : ℕ → Dialogs → Observation
get_dialog_observation tab ds = record {
  dialog = get tab ds.by_tab;
  event_sequence = sequence_of (get tab ds.events);
  last_opened_dialog_id = last_opened none (get tab ds.events);
}

pub data Waiting : Type 0 where
  observed : TrackedDialog → Waiting
  waits : ℕ → ℕ → Waiting

-- A new waiter, and the delay of its timeout. A negative timeout counts as 0.
pub wait_for_dialog : ℕ → ℕ → Dialogs → Dialogs × Waiting
wait_for_dialog tab timeout_ms ds = elim (get tab ds.by_tab) [
  | some current ↦ (ds, observed current)
  | none ↦ (
    record ds {
      waiters = put tab (or_else (get tab ds.waiters) [] ++ ds.next_waiter ∷ []) ds.waiters;
      next_waiter = ds.next_waiter + 1;
    },
    waits ds.next_waiter (min timeout_ms 1000),
  )
]

pub put_waiters : ℕ → List ℕ → JsMap ℕ (List ℕ) → JsMap ℕ (List ℕ)
put_waiters tab [] waiters = delete tab waiters
put_waiters tab (w ∷ ws) waiters = put tab (w ∷ ws) waiters

-- The callback of the timeout of a waiter.
pub wait_times_out : ℕ → ℕ → Dialogs → Dialogs
wait_times_out tab w ds = record ds {
  waiters = elim (get tab ds.waiters) [
    | none ↦ ds.waiters
    | some ws ↦ put_waiters tab (filter (λ v. not (eqb v w)) ws) ds.waiters
  ];
  settled = resolve none w ds.settled;
}

pub clear_dialog : ℕ → ℕ → Dialogs → Dialogs × Bool
clear_dialog tab dialog_id ds = elim (get tab ds.by_tab) [
  | none ↦ (ds, false)
  | some dialog ↦
      if eqb dialog.dialog_id dialog_id
      then (record ds { by_tab = delete tab ds.by_tab }, true)
      else (ds, false)
]

pub clear_dialog_state : ℕ → Dialogs → Dialogs
clear_dialog_state tab ds =
    settle_dialog_waiters tab none
      (record ds { by_tab = delete tab ds.by_tab; events = delete tab ds.events })

-- `guards.add` and `guards.delete` of `runGuarded`, around its race.
pub add_guard : ℕ → ℕ → Dialogs → Dialogs
add_guard tab g ds = record ds {
  guards =
      put tab (filter (λ h. not (eqb h g)) (or_else (get tab ds.guards) []) ++ g ∷ []) ds.guards;
}

pub remove_guard : ℕ → ℕ → Dialogs → Dialogs
remove_guard tab g ds = record ds {
  guards = elim (get tab ds.guards) [
    | none ↦ ds.guards
    | some gs ↦ put_waiters tab (filter (λ h. not (eqb h g)) gs) ds.guards
  ];
}

-- `assertNoDialog` and the closure `assertActive` of `runGuarded`, as whether they throw.
pub blocked_by_dialog : ℕ → Dialogs → Bool
blocked_by_dialog tab ds = has tab ds.by_tab

pub guard_blocked : ℕ → ℕ → Dialogs → Bool
guard_blocked tab g ds = if has g ds.interrupted then true else has tab ds.by_tab

pub data Call : Type 0 where
  opens : ℕ → Opening → ℕ → Call
  closes : ℕ → Call
  begins_wait : ℕ → ℕ → Call
  times_out : ℕ → ℕ → Call
  clears : ℕ → ℕ → Call
  clears_state : ℕ → Call
  adds_guard removes_guard : ℕ → ℕ → Call

pub step : Call → Dialogs → Dialogs
step (opens tab event now) ds = dialog_opening tab event now ds
step (closes tab) ds = dialog_closed tab ds
step (begins_wait tab timeout_ms) ds = (wait_for_dialog tab timeout_ms ds).0
step (times_out tab w) ds = wait_times_out tab w ds
step (clears tab dialog_id) ds = (clear_dialog tab dialog_id ds).0
step (clears_state tab) ds = clear_dialog_state tab ds
step (adds_guard tab g) ds = add_guard tab g ds
step (removes_guard tab g) ds = remove_guard tab g ds

pub run : List Call → Dialogs → Dialogs
run [] ds = ds
run (c ∷ calls) ds = run calls (step c ds)
