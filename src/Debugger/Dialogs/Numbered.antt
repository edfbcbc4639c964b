-- ===== src/Debugger/Dialogs/Numbered.antt =====
-- The numbers of dialogs are not given twice, so an old number does not clear a new dialog.
use browser_bridge.Prelude.{
  ℕ, ◌+◌, ◌≤◌, ◌<◌, ◌≡◌, ◌⊎◌, refl, ap, sym, ◌∙◌, true, false, Option, none, some, List, [], ◌∷◌,
  arith, eqb, Bool-cases, inl, inr, nat_key, length,
}
use browser_bridge.Prelude.JsMap.{get, delete, get-delete}
use browser_bridge.Debugger.Dialogs.{
  TrackedDialog, Dialogs, initial, make_room, renew, record_dialog_event, settle_dialog_waiters,
  dialog_opening, dialog_closed, wait_for_dialog, wait_times_out, clear_dialog, clear_dialog_state,
  add_guard, remove_guard, Call, opens, closes, begins_wait, times_out, clears, next_dialog_id,
  clears_state, adds_guard, removes_guard, step, run, opened_dialog, Opening, max_safe_integer,
}
use browser_bridge.Debugger.Dialogs.Bounds.{get-make_room, get-renew, settle-by_tab}
use browser_bridge.Debugger.Dialogs.Opened.{dialog_opening-maps}

-- Every dialog that is open has a number up to the last one given, and no two have the same.
pub record IsNumbered (ds : Dialogs) : Type 0 where
  pub given :
      (t : ℕ) (d : TrackedDialog) → get t ds.by_tab ≡ some d → d.dialog_id ≤ ds.next_generation
  pub distinct :
      (t u : ℕ) (d e : TrackedDialog)
      → get t ds.by_tab ≡ some d
      → get u ds.by_tab ≡ some e
      → d.dialog_id ≡ e.dialog_id
      → t ≡ u

kept-IsNumbered :
    (ds ds' : Dialogs)
    → IsNumbered ds
    → ds'.next_generation ≡ ds.next_generation
    → ((t : ℕ) (d : TrackedDialog) → get t ds'.by_tab ≡ some d → get t ds.by_tab ≡ some d)
    → IsNumbered ds'
kept-IsNumbered ds ds' numbered same kept = record {
  given = λ t d h. rw same (numbered.given t d (kept t d h));
  distinct = λ t u d e h k. numbered.distinct t u d e (kept t d h) (kept u e k);
}

settle-next_generation :
    (tab : ℕ) (dialog : Option TrackedDialog) (ds : Dialogs)
    → (settle_dialog_waiters tab dialog ds).next_generation ≡ ds.next_generation
unfolding settle_dialog_waiters
settle-next_generation tab dialog ds = ground arith

dialog_opening-next_generation :
    (tab : ℕ) (event : Opening) (now : ℕ) (ds : Dialogs)
    → ds.next_generation < max_safe_integer
    → ((dialog_opening tab event now ds).next_generation ≡ ds.next_generation + 1)
      × ((opened_dialog event now ds).dialog_id ≡ ds.next_generation + 1)
unfolding dialog_opening opened_dialog next_dialog_id
dialog_opening-next_generation tab event now ds low =
    (rw settle-next_generation (ground arith), ground arith)

-- What an opening leaves open: its own dialog, and on other tabs what was open there.
dialog_opening_cases :
    (tab : ℕ) (event : Opening) (now : ℕ) (ds : Dialogs) (t : ℕ) (d : TrackedDialog)
    → get t (dialog_opening tab event now ds).by_tab ≡ some d
    → ((tab ≡ t) × (d ≡ opened_dialog event now ds)) ⊎ (get t ds.by_tab ≡ some d)
unfolding dialog_opening
dialog_opening_cases tab event now ds t d h =
    let dialog = opened_dialog event now ds in
    let (same, _) = settle-by_tab tab (some dialog) (record ds {
      by_tab = renew tab dialog (make_room tab ds.by_tab);
      events = record_dialog_event tab (some dialog.dialog_id) ds.events;
      next_generation = dialog.dialog_id;
    }) in
    let there : get t (renew tab dialog (make_room tab ds.by_tab)) ≡ some d = rw same at h in
    let renewed = get-renew tab t dialog (make_room tab ds.by_tab) in
    elim (Bool-cases (eqb tab t)) [
      | inl here ↦ inl (ground arith, ground arith)
      | inr other ↦ inr (get-make_room tab t d ds.by_tab (ground arith))
    ]

dialog_opening-IsNumbered :
    (tab : ℕ) (event : Opening) (now : ℕ) (ds : Dialogs)
    → IsNumbered ds
    → ds.next_generation < max_safe_integer
    → IsNumbered (dialog_opening tab event now ds)
dialog_opening-IsNumbered tab event now ds numbered low =
    let (next, id) = dialog_opening-next_generation tab event now ds low in
    let cases = dialog_opening_cases tab event now ds in
    record {
      given = λ t d h. elim (cases t d h) [
        | inl (at_tab, new) ↦ let ids = ap (λ (x : TrackedDialog). x.dialog_id) new in omega arith
        | inr before ↦ let old = numbered.given t d before in omega arith
      ];
      distinct = λ t u d e h k same. elim (cases t d h) [
        | inl (at_tab, new) ↦
            let ids = ap (λ (x : TrackedDialog). x.dialog_id) new in
            elim (cases u e k) [
              | inl (at_u, _) ↦ sym at_tab ∙ at_u
              | inr before ↦ let old = numbered.given u e before in absurd (omega arith)
            ]
        | inr before ↦ elim (cases u e k) [
          | inl (at_u, new) ↦
              let ids = ap (λ (x : TrackedDialog). x.dialog_id) new in
              let old = numbered.given t d before in absurd (omega arith)
          | inr old ↦ numbered.distinct t u d e before old same
        ]
      ];
    }

step-IsNumbered :
    (call : Call) (ds : Dialogs)
    → IsNumbered ds
    → ds.next_generation < max_safe_integer
    → IsNumbered (step call ds)
unfolding step add_guard remove_guard dialog_closed wait_for_dialog wait_times_out clear_dialog
    clear_dialog_state
step-IsNumbered (opens tab event now) ds numbered low =
    dialog_opening-IsNumbered tab event now ds numbered low
step-IsNumbered (closes tab) ds numbered low =
    kept-IsNumbered ds _ numbered refl (λ t d h. ground (arith, get-delete tab t ds.by_tab))
step-IsNumbered (begins_wait tab ms) ds numbered low =
    kept-IsNumbered ds _ numbered (ground arith) (λ t d h. ground arith)
step-IsNumbered (times_out tab w) ds numbered low = kept-IsNumbered ds _ numbered refl (λ t d h. h)
step-IsNumbered (clears tab id) ds numbered low =
    kept-IsNumbered ds _ numbered (ground arith)
      (λ t d h. ground (arith, get-delete tab t ds.by_tab))
step-IsNumbered (clears_state tab) ds numbered low =
    let bare : Dialogs = record ds {
      by_tab = delete tab ds.by_tab;
      events = delete tab ds.events;
    } in
    let (same, _) = settle-by_tab tab none bare in
    kept-IsNumbered ds (settle_dialog_waiters tab none bare) numbered
      (settle-next_generation tab none bare)
      (λ t d h.
        let there : get t (delete tab ds.by_tab) ≡ some d = rw same at h in
        ground (arith, get-delete tab t ds.by_tab))
step-IsNumbered (adds_guard tab g) ds numbered low = kept-IsNumbered ds _ numbered refl (λ t d h. h)
step-IsNumbered (removes_guard tab g) ds numbered low =
    kept-IsNumbered ds _ numbered refl (λ t d h. h)

step-next_generation :
    (call : Call) (ds : Dialogs)
    → ds.next_generation < max_safe_integer
    → (step call ds).next_generation ≤ ds.next_generation + 1
unfolding step add_guard remove_guard dialog_closed wait_for_dialog wait_times_out clear_dialog
    clear_dialog_state
step-next_generation (opens tab event now) ds low =
    let (next, id) = dialog_opening-next_generation tab event now ds low in omega arith
step-next_generation (closes tab) ds low = omega arith
step-next_generation (begins_wait tab ms) ds low = ground arith
step-next_generation (times_out tab w) ds low = omega arith
step-next_generation (clears tab id) ds low = ground arith
step-next_generation (clears_state tab) ds low = rw settle-next_generation (omega arith)
step-next_generation (adds_guard tab g) ds low = omega arith
step-next_generation (removes_guard tab g) ds low = omega arith

pub run-IsNumbered :
    (calls : List Call) (ds : Dialogs)
    → IsNumbered ds
    → ds.next_generation + length calls ≤ max_safe_integer
    → IsNumbered (run calls ds)
unfolding run
run-IsNumbered [] ds numbered room = numbered
run-IsNumbered (call ∷ calls) ds numbered room =
    let low : ds.next_generation < max_safe_integer = omega arith in
    let next = step-next_generation call ds low in
    run-IsNumbered calls (step call ds) (step-IsNumbered call ds numbered low) (omega arith)

pub initial-IsNumbered : IsNumbered initial
unfolding initial get
initial-IsNumbered = record { given = λ t d h. cc; distinct = λ t u d e h k same. cc }

run-next_generation :
    (calls : List Call) (ds : Dialogs)
    → ds.next_generation + length calls ≤ max_safe_integer
    → (run calls ds).next_generation ≤ ds.next_generation + length calls
unfolding run
run-next_generation [] ds room = omega arith
run-next_generation (call ∷ calls) ds room =
    let low : ds.next_generation < max_safe_integer = omega arith in
    let next = step-next_generation call ds low in
    omega (arith, run-next_generation calls (step call ds) (omega arith))

clear_dialog_other :
    (tab id : ℕ) (d : TrackedDialog) (ds : Dialogs)
    → get tab ds.by_tab ≡ some d
    → eqb d.dialog_id id ≡ false
    → clear_dialog tab id ds ≡ (ds, false)
unfolding clear_dialog
clear_dialog_other tab id d ds there other = rw (there, clear_dialog) (rw other refl)

clear_dialog_same :
    (tab : ℕ) (d : TrackedDialog) (ds : Dialogs)
    → get tab ds.by_tab ≡ some d
    → clear_dialog tab d.dialog_id ds ≡ (record ds { by_tab = delete tab ds.by_tab }, true)
unfolding clear_dialog
clear_dialog_same tab d ds there =
    let same : eqb d.dialog_id d.dialog_id ≡ true = ground arith in
    rw (there, clear_dialog) (rw same refl)

-- Up to 2^53 - 2 calls from the start, the id of a dialog that another one has replaced on its tab
-- clears nothing, while the id of the new dialog clears it.
pub dialog_opening-clear_dialog :
    (calls : List Call) (tab : ℕ) (event : Opening) (now : ℕ) (old : TrackedDialog)
    → length calls < max_safe_integer
    → get tab (run calls initial).by_tab ≡ some old
    → (clear_dialog tab old.dialog_id (dialog_opening tab event now (run calls initial))
        ≡ (dialog_opening tab event now (run calls initial), false))
      × (clear_dialog tab
            (opened_dialog event now (run calls initial)).dialog_id
            (dialog_opening tab event now (run calls initial))
          ≡ (
            record (dialog_opening tab event now (run calls initial)) {
              by_tab = delete tab (dialog_opening tab event now (run calls initial)).by_tab;
            },
            true,
          ))
unfolding initial
dialog_opening-clear_dialog calls tab event now old room there =
    let before = run calls initial in
    let shown = (dialog_opening-maps tab event now before).0 in
    let numbered = run-IsNumbered calls initial initial-IsNumbered (omega arith) in
    let bound = run-next_generation calls initial (omega arith) in
    let (next, id) = dialog_opening-next_generation tab event now before (omega arith) in
    let given = numbered.given tab old there in
    (
      clear_dialog_other tab old.dialog_id (opened_dialog event now before)
          (dialog_opening tab event now before) shown (ground arith),
      clear_dialog_same tab (opened_dialog event now before) (dialog_opening tab event now before)
          shown,
    )
