-- ===== src/Debugger/Dialogs/Tests.antt =====
-- Runs of the dialogs of a tab, and their theorems at concrete inputs.
use browser_bridge.Prelude.{◌≡◌, refl, true, false, none, some, [], ◌∷◌, nat_key, string_key, arith}
use browser_bridge.Prelude.JsMap.{get, put, delete}
use browser_bridge.Debugger.Dialogs.{
  TrackedDialog, Dialogs, Opening, prompt, initial, normalize_dialog_type, bound_dialog_text,
  next_dialog_id, make_room, renew, last_opened, sequence_of, record_dialog_event, resolve,
  resolve_all, settle_dialog_waiters, interrupt_all, opened_dialog, dialog_opening, dialog_closed,
  get_dialog_observation, wait_for_dialog, put_waiters, wait_times_out, clear_dialog,
  clear_dialog_state, add_guard, remove_guard, guard_blocked, step, run, opens, closes, begins_wait,
  times_out, adds_guard,
}
use browser_bridge.Debugger.Dialogs.Bounds.{IsSound, run-IsSound, initial-IsSound}
use browser_bridge.Debugger.Dialogs.Opened.{Opened, dialog_opening-Opened}
use browser_bridge.Debugger.Dialogs.Numbered.{dialog_opening-clear_dialog}

dialogs : Unit {0}
unfolding initial normalize_dialog_type bound_dialog_text next_dialog_id make_room renew last_opened
    sequence_of record_dialog_event resolve resolve_all settle_dialog_waiters interrupt_all
    opened_dialog dialog_opening dialog_closed get_dialog_observation wait_for_dialog put_waiters
    wait_times_out clear_dialog clear_dialog_state add_guard remove_guard guard_blocked step run get
    put delete
dialogs = tt

abbrev question : Opening
question = record { type = some "prompt"; message = some (63 ∷ []); default_prompt = none }

abbrev asked : Dialogs
asked = run (adds_guard 3 9 ∷ begins_wait 3 250 ∷ begins_wait 3 5000 ∷ times_out 3 0 ∷ []) initial

-- The first waiter has timed out and the second is told of the dialog.
told : get 0 (dialog_opening 3 question 100 asked).settled ≡ some none
unfolding dialogs
told = refl

told_dialog :
    get 1 (dialog_opening 3 question 100 asked).settled
    ≡ some (
        some (record {
          dialog_id = 1;
          type = prompt;
          message = 63 ∷ [];
          default_prompt = [];
          message_truncated = false;
          default_prompt_truncated = false;
          opened_at = 100;
        }))
unfolding dialogs
told_dialog = refl

-- A guarded task stays blocked after the dialog has closed.
blocked_for_good : guard_blocked 3 9 (dialog_closed 3 (dialog_opening 3 question 100 asked)) ≡ true
unfolding dialogs
blocked_for_good = refl

run-IsSound_example :
    IsSound (run (opens 3 question 100 ∷ begins_wait 4 10 ∷ closes 3 ∷ []) initial)
run-IsSound_example =
    run-IsSound (opens 3 question 100 ∷ begins_wait 4 10 ∷ closes 3 ∷ []) initial initial-IsSound

dialog_opening-Opened_example : Opened 3 question 100 asked
dialog_opening-Opened_example = dialog_opening-Opened 3 question 100 asked

abbrev first_dialog : TrackedDialog
first_dialog = record {
  dialog_id = 1;
  type = prompt;
  message = 63 ∷ [];
  default_prompt = [];
  message_truncated = false;
  default_prompt_truncated = false;
  opened_at = 100;
}

abbrev before : Dialogs
before = run (opens 3 question 100 ∷ []) initial

dialog_opening-clear_dialog_example :
    (clear_dialog 3 1 (dialog_opening 3 question 200 before)
      ≡ (dialog_opening 3 question 200 before, false))
    × (clear_dialog 3
          (opened_dialog question 200 before).dialog_id
          (dialog_opening 3 question 200 before)
        ≡ (
          record (dialog_opening 3 question 200 before) {
            by_tab = delete 3 (dialog_opening 3 question 200 before).by_tab;
          },
          true,
        ))
unfolding dialogs
dialog_opening-clear_dialog_example =
    dialog_opening-clear_dialog (opens 3 question 100 ∷ []) 3 question 200 first_dialog
      (omega arith) refl
