-- ===== src/Debugger/Sessions.antt =====
-- packages/extension/src/debugger-coordinator.ts: attachments, holds, idle timers and the queues of
-- a tab, with the dialogs and the cancellation state. What Chrome is told stands in a log, the last
-- call first: `detaches` the tabs, `reattaches` the outcomes.
pub mod Runs
pub mod Holds
pub mod Dropped
pub mod DialogLane
use browser_bridge.Prelude.{
  ℕ, ◌+◌, ◌-◌, ◌*◌, min, Bool, true, false, not, ◌&&◌, ◌||◌, Option, none, some, List, [], ◌∷◌,
  String, ltb, leb, eqb, if◌then◌else◌, or_else, Key, ◌===◌, nat_key, string_key,
}
use browser_bridge.Prelude.JsMap.{JsMap, size, get, has, put, delete}
use browser_bridge.Debugger.Dialogs.{Dialogs, DialogType, clear_dialog_state, initial as no_dialogs}
use browser_bridge.Debugger.Cancellation.{
  Cancellation, get_cancellation_generation, is_cancellation_generation_current, cancel,
  initial as nothing_canceled,
}

pub data DebuggerReason : Type 0 where
  debugger_conflict debugger_detached debugger_replaced debugger_canceled target_closed :
      DebuggerReason

pub record Timer : Type 0 where
  pub number : ℕ
  pub generation : ℕ
  pub delay : ℕ

pub record Coordinator : Type 0 where
  pub dialogs : Dialogs
  pub cancellation : Cancellation
  pub pending : JsMap ℕ ℕ
  pub pending_dialogs : JsMap ℕ ℕ
  pub dialog_owners : JsMap ℕ ℕ
  pub attaching : JsMap ℕ ℕ
  pub holds : JsMap ℕ ℕ
  pub burst_timers : JsMap ℕ Timer
  pub attached_tabs : JsMap ℕ (Unit {0})
  pub burst_retained_tabs : JsMap ℕ (Unit {0})
  pub recent_reason : Option (DebuggerReason × ℕ)
  pub burst_idle_ms : ℕ
  pub next_object : ℕ
  pub detaches : List ℕ
  pub reattaches : List Bool

pub initial : ℕ → Coordinator
initial burst_idle_ms = record {
  dialogs = no_dialogs;
  cancellation = nothing_canceled;
  pending = [];
  pending_dialogs = [];
  dialog_owners = [];
  attaching = [];
  holds = [];
  burst_timers = [];
  attached_tabs = [];
  burst_retained_tabs = [];
  recent_reason = none;
  burst_idle_ms = burst_idle_ms;
  next_object = 0;
  detaches = [];
  reattaches = [];
}

pub hold_count : ℕ → Coordinator → ℕ
hold_count tab s = or_else (get tab s.holds) 0

pub is_current : ℕ → ℕ → Coordinator → Bool
is_current tab generation s = is_cancellation_generation_current tab generation s.cancellation

pub generation_of : ℕ → Coordinator → ℕ
generation_of tab s = get_cancellation_generation tab s.cancellation

-- `markDetached`
pub mark_detached : ℕ → Option DebuggerReason → ℕ → Coordinator → Coordinator
mark_detached tab reason now s = record s {
  burst_timers = delete tab s.burst_timers;
  holds = delete tab s.holds;
  dialog_owners = delete tab s.dialog_owners;
  attached_tabs = delete tab s.attached_tabs;
  burst_retained_tabs = delete tab s.burst_retained_tabs;
  dialogs = clear_dialog_state tab s.dialogs;
  recent_reason = elim reason [ none ↦ s.recent_reason | some r ↦ some (r, now) ];
}

-- The reason of Chrome's event, `none` when it is not a string.
pub normalize_detach_reason : Option String → DebuggerReason
normalize_detach_reason none = debugger_detached
normalize_detach_reason (some reason) =
    if reason === "replaced_with_devtools"
    then debugger_replaced
    else if reason === "canceled_by_user"
    then debugger_canceled
    else if reason === "target_closed"
    then target_closed
    else debugger_detached

pub handle_detach : ℕ → Option String → ℕ → Coordinator → Coordinator
handle_detach tab reason now s = mark_detached tab (some (normalize_detach_reason reason)) now s

abbrev pub recent_debugger_reason_ttl_ms : ℕ
recent_debugger_reason_ttl_ms = 5 * 60 * 1000

abbrev pub max_diagnostic_count : ℕ
max_diagnostic_count = 10000

pub record Diagnostics : Type 0 where
  pub active : Bool
  pub attached_tab_count : ℕ
  pub held_tab_count : ℕ
  pub pending_tab_count : ℕ
  pub recent_reason : Option DebuggerReason

-- `now - at` is negative when the clock went back, and then the reason is recent.
pub recent_reason_at : ℕ → Option (DebuggerReason × ℕ) → Option DebuggerReason
recent_reason_at now none = none
recent_reason_at now (some (reason, at_)) =
    if leb now (at_ + recent_debugger_reason_ttl_ms) then some reason else none

pub get_diagnostics : ℕ → Coordinator → Diagnostics
get_diagnostics now s = record {
  active = ltb 0 (size s.attached_tabs);
  attached_tab_count = min (size s.attached_tabs) max_diagnostic_count;
  held_tab_count = min (size s.holds) max_diagnostic_count;
  pending_tab_count = min (size s.pending) max_diagnostic_count;
  recent_reason = recent_reason_at now s.recent_reason;
}

pub data DialogStatus : Type 0 where
  open_dialog : DialogType → ℕ → DialogStatus
  no_dialog unknown : DialogStatus

pub get_dialog_status : ℕ → Coordinator → DialogStatus
get_dialog_status tab s = elim (get tab s.dialogs.by_tab) [
  | some dialog ↦ open_dialog dialog.type dialog.opened_at
  | none ↦ if has tab s.attached_tabs then no_dialog else unknown
]

-- `discard` up to its first `await`, and whether it then detaches at once, waits for the attachment
-- that is under way, or has nothing to do.
pub data DiscardStep : Type 0 where
  detaches_now nothing : DiscardStep
  awaits_attach : ℕ → DiscardStep

pub discard : ℕ → Coordinator → Coordinator × DiscardStep
discard tab s = (
  record s {
    cancellation = cancel tab s.cancellation;
    burst_timers = delete tab s.burst_timers;
    holds = delete tab s.holds;
    burst_retained_tabs = delete tab s.burst_retained_tabs;
    dialog_owners = delete tab s.dialog_owners;
    dialogs = clear_dialog_state tab s.dialogs;
    attached_tabs = delete tab s.attached_tabs;
    detaches = if has tab s.attached_tabs then tab ∷ s.detaches else s.detaches;
  },
  if has tab s.attached_tabs
      then detaches_now
      else elim (get tab s.attaching) [ none ↦ nothing | some attempt ↦ awaits_attach attempt ],
)

-- The rest of `discard` when the attachment that it waited for has settled.
pub discard_attached : ℕ → Bool → Coordinator → Coordinator
discard_attached tab attached s = if attached then record s { detaches = tab ∷ s.detaches } else s

pub reset_burst_timer : ℕ → Bool → Coordinator → Coordinator
reset_burst_timer tab retain_burst s =
    let retained =
      if retain_burst then put tab tt s.burst_retained_tabs else s.burst_retained_tabs in
    record s {
      burst_retained_tabs = retained;
      burst_timers =
          put tab
            (record {
              number = s.next_object;
              generation = generation_of tab s;
              delay = if has tab retained then s.burst_idle_ms else 0;
            })
            s.burst_timers;
      next_object = s.next_object + 1;
    }

pub consume_burst_timer : ℕ → Coordinator → Coordinator × Bool
consume_burst_timer tab s =
    (record s { burst_timers = delete tab s.burst_timers }, has tab s.burst_timers)

-- The turn of a timer's callback, when the queue and the dialog lane are free: whether it goes on
-- to detach the tab. `mark_detached` follows once the detachment has settled.
pub burst_expires : ℕ → Timer → Coordinator → Coordinator × Bool
burst_expires tab timer s =
    let current : Bool = elim (get tab s.burst_timers) [
      | none ↦ false
      | some t ↦ eqb t.number timer.number
    ] in
    let fired = record s { burst_timers = delete tab s.burst_timers } in
    if not current
    then (s, false)
    else if not (is_current tab timer.generation s)
    then (fired, false)
    else if ltb 0 (hold_count tab s)
    then (fired, false)
    else if has tab s.dialogs.by_tab
    then (reset_burst_timer tab true fired, false)
    else (record fired { detaches = tab ∷ s.detaches }, true)

-- `runExclusive`: a turn is queued, and leaves the map at its end if no later one stands there.
pub enter_queue : ℕ → Coordinator → Coordinator × ℕ
enter_queue tab s = (
  record s { pending = put tab s.next_object s.pending; next_object = s.next_object + 1 },
  s.next_object,
)

pub leave_queue : ℕ → ℕ → Coordinator → Coordinator
leave_queue tab turn s = record s {
  pending = elim (get tab s.pending) [
    | none ↦ s.pending
    | some last ↦ if eqb last turn then delete tab s.pending else s.pending
  ];
}
