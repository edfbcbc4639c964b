-- ===== src/Debugger/Dialogs/Bounds.antt =====
-- At most a hundred dialogs and event records are kept, and no task waits for a dialog that is open.
use browser_bridge.Prelude.{
  ℕ, ◌-◌, ◌≤◌, ◌<◌, ◌≡◌, refl, true, false, not, Option, none, some, List, [], ◌∷◌, ◌++◌, arith,
  eqb, if◌then◌else◌, or_else, Bool-cases, Option-cases, inl, inr, nat_key, filter,
}
use browser_bridge.Prelude.JsMap.{
  JsMap, size, get, has, delete, delete_oldest, get-put, get-delete, has_first, size-delete-le,
  size-delete-lt, size-put-le,
}
use browser_bridge.Debugger.Dialogs.{
  TrackedDialog, Dialogs, initial, make_room, renew, record_dialog_event, settle_dialog_waiters,
  dialog_opening, dialog_closed, wait_for_dialog, put_waiters, wait_times_out, clear_dialog,
  clear_dialog_state, add_guard, remove_guard, Call, opens, closes, begins_wait, times_out, clears,
  clears_state, adds_guard, removes_guard, step, run, opened_dialog, Opening, max_tracked_dialogs,
}

module _ {ℓ} {V : Type ℓ} where
  size-delete_oldest : (m : JsMap ℕ V) → size (delete_oldest m) ≤ size m - 1
  size-delete_oldest [] = omega arith
  size-delete_oldest ((k, v) ∷ m) =
      let here : has k ((k, v) ∷ m) ≡ true = has_first k v m in
      omega (arith, size-delete-lt k ((k, v) ∷ m) here)

  size-make_room :
      (tab : ℕ) (m : JsMap ℕ V)
      → size m ≤ max_tracked_dialogs
      → has tab m ≡ false
      → size (make_room tab m) < max_tracked_dialogs
  unfolding make_room
  size-make_room tab m few absent = ground (arith, size-delete_oldest m)

  -- Room is made only for a tab that is not there.
  size-renew-make_room :
      (tab : ℕ) (v : V) (m : JsMap ℕ V)
      → size m ≤ max_tracked_dialogs
      → size (renew tab v (make_room tab m)) ≤ max_tracked_dialogs
  unfolding renew make_room
  size-renew-make_room tab v m few = elim (Bool-cases (has tab m)) [
    | inl present ↦
        let less = size-delete-lt tab m present in
        let same : make_room tab m ≡ m = ground arith in
        rw same (omega (arith, size-put-le tab v (delete tab m)))
    | inr absent ↦
        let less = size-make_room tab m few absent in
        let deleted = size-delete-le tab (make_room tab m) in
        omega (arith, size-put-le tab v (delete tab (make_room tab m)))
  ]

  pub get-make_room :
      (tab t : ℕ) (v : V) (m : JsMap ℕ V) → get t (make_room tab m) ≡ some v → get t m ≡ some v
  unfolding make_room
  get-make_room tab t v [] h = ground arith
  get-make_room tab t v ((k, w) ∷ m) h = ground (arith, get-delete k t ((k, w) ∷ m))

  -- What stands after a renewal is the new value or stood before.
  pub get-renew :
      (tab t : ℕ) (v : V) (m : JsMap ℕ V)
      → get t (renew tab v m) ≡ (if eqb tab t then some v else get t m)
  unfolding renew
  get-renew tab t v m = ground (arith, get-put tab t v (delete tab m), get-delete tab t m)

  has-make_room : (tab t : ℕ) (m : JsMap ℕ V) → has t m ≡ false → has t (make_room tab m) ≡ false
  unfolding make_room
  has-make_room tab t [] h = ground arith
  has-make_room tab t ((k, w) ∷ m) h = ground (arith, get-delete k t ((k, w) ∷ m))

  has-renew-make_room :
      (tab t : ℕ) (v : V) (m : JsMap ℕ V)
      → eqb tab t ≡ false
      → has t m ≡ false
      → has t (renew tab v (make_room tab m)) ≡ false
  has-renew-make_room tab t v m other h =
      ground (arith, get-renew tab t v (make_room tab m), has-make_room tab t m h)

pub record IsSound (ds : Dialogs) : Type 0 where
  pub few : size ds.by_tab ≤ max_tracked_dialogs
  pub few_events : size ds.events ≤ max_tracked_dialogs
  pub quiet : (tab : ℕ) → has tab ds.waiters ≡ true → has tab ds.by_tab ≡ false

few_events_after :
    (tab : ℕ) (opened : Option ℕ) (ds : Dialogs)
    → IsSound ds
    → size (record_dialog_event tab opened ds.events) ≤ max_tracked_dialogs
unfolding record_dialog_event
few_events_after tab opened ds sound = size-renew-make_room tab _ ds.events sound.few_events

-- Settling the waiters of a tab takes them all away.
get-settle_dialog_waiters :
    (tab t : ℕ) (dialog : Option TrackedDialog) (ds : Dialogs)
    → get t (settle_dialog_waiters tab dialog ds).waiters
      ≡ (if eqb tab t then none else get t ds.waiters)
unfolding settle_dialog_waiters
get-settle_dialog_waiters tab t dialog ds = ground (arith, get-delete tab t ds.waiters)

pub settle-by_tab :
    (tab : ℕ) (dialog : Option TrackedDialog) (ds : Dialogs)
    → ((settle_dialog_waiters tab dialog ds).by_tab ≡ ds.by_tab)
      × ((settle_dialog_waiters tab dialog ds).events ≡ ds.events)
unfolding settle_dialog_waiters
settle-by_tab tab dialog ds = ground arith

quiet_after_settling :
    (tab t : ℕ) (dialog : Option TrackedDialog) (ds : Dialogs)
    → (eqb tab t ≡ false → has t ds.waiters ≡ true → has t ds.by_tab ≡ false)
    → has t (settle_dialog_waiters tab dialog ds).waiters ≡ true
    → has t (settle_dialog_waiters tab dialog ds).by_tab ≡ false
quiet_after_settling tab t dialog ds others h =
    let after = get-settle_dialog_waiters tab t dialog ds in
    let (same, _) = settle-by_tab tab dialog ds in
    elim (Bool-cases (eqb tab t)) [
      | inl here ↦ absurd (ground arith)
      | inr other ↦ rw same (others other (ground arith))
    ]

dialog_opening-IsSound :
    (tab : ℕ) (event : Opening) (now : ℕ) (ds : Dialogs)
    → IsSound ds
    → IsSound (dialog_opening tab event now ds)
unfolding dialog_opening
dialog_opening-IsSound tab event now ds sound =
    let dialog = opened_dialog event now ds in
    let before : Dialogs = record ds {
      by_tab = renew tab dialog (make_room tab ds.by_tab);
      events = record_dialog_event tab (some dialog.dialog_id) ds.events;
      next_generation = dialog.dialog_id;
    } in
    let (same, same_events) = settle-by_tab tab (some dialog) before in
    record {
      few = rw same (size-renew-make_room tab dialog ds.by_tab sound.few);
      few_events = rw same_events (few_events_after tab (some dialog.dialog_id) ds sound);
      quiet = λ t h.
          quiet_after_settling tab t (some dialog) before
            (λ other waits. has-renew-make_room tab t dialog ds.by_tab other (sound.quiet t waits))
            h;
    }

dialog_closed-IsSound : (tab : ℕ) (ds : Dialogs) → IsSound ds → IsSound (dialog_closed tab ds)
unfolding dialog_closed
dialog_closed-IsSound tab ds sound = record {
  few = omega (arith, size-delete-le tab ds.by_tab, sound.few);
  few_events = few_events_after tab none ds sound;
  quiet = λ t h. ground (arith, sound.quiet t, get-delete tab t ds.by_tab);
}

wait_for_dialog-IsSound :
    (tab timeout_ms : ℕ) (ds : Dialogs) → IsSound ds → IsSound (wait_for_dialog tab timeout_ms ds).0
unfolding wait_for_dialog
wait_for_dialog-IsSound tab timeout_ms ds sound = elim (Option-cases (get tab ds.by_tab)) [
  | inr (d, e) ↦ rw (e, wait_for_dialog) sound
  | inl e ↦
      rw (e, wait_for_dialog)
        (record {
          few = sound.few;
          few_events = sound.few_events;
          quiet = λ t h. ground (
            arith,
            sound.quiet t,
            get-put tab t (or_else (get tab ds.waiters) [] ++ ds.next_waiter ∷ []) ds.waiters,
          );
        })
]

put_waiters-present :
    (tab t : ℕ) (ws : List ℕ) (m : JsMap ℕ (List ℕ))
    → has tab m ≡ true
    → has t (put_waiters tab ws m) ≡ true
    → has t m ≡ true
unfolding put_waiters
put_waiters-present tab t [] m there h = ground (arith, get-delete tab t m)
put_waiters-present tab t (w ∷ ws) m there h = ground (arith, get-put tab t (w ∷ ws) m)

wait_times_out-IsSound : (tab w : ℕ) (ds : Dialogs) → IsSound ds → IsSound (wait_times_out tab w ds)
unfolding wait_times_out
wait_times_out-IsSound tab w ds sound = elim (Option-cases (get tab ds.waiters)) [
  | inl e ↦
      rw (e, wait_times_out)
        (record { few = sound.few; few_events = sound.few_events; quiet = sound.quiet })
  | inr (ws, e) ↦
      rw (e, wait_times_out)
        (record {
          few = sound.few;
          few_events = sound.few_events;
          quiet = λ t h. sound.quiet t (
              put_waiters-present tab t (filter (λ v. not (eqb v w)) ws) ds.waiters (ground arith)
                h);
        })
]

clear_dialog-IsSound : (tab id : ℕ) (ds : Dialogs) → IsSound ds → IsSound (clear_dialog tab id ds).0
unfolding clear_dialog
clear_dialog-IsSound tab id ds sound =
    let cleared : IsSound (record ds { by_tab = delete tab ds.by_tab }) = record {
      few = omega (arith, size-delete-le tab ds.by_tab, sound.few);
      few_events = sound.few_events;
      quiet = λ t h. ground (arith, sound.quiet t, get-delete tab t ds.by_tab);
    } in
    elim (Option-cases (get tab ds.by_tab)) [
      | inl e ↦ rw (e, clear_dialog) sound
      | inr (d, e) ↦ elim (Bool-cases (eqb d.dialog_id id)) [
        | inl same ↦ rw (e, clear_dialog) (rw same cleared)
        | inr other ↦ rw (e, clear_dialog) (rw other sound)
      ]
    ]

clear_dialog_state-IsSound :
    (tab : ℕ) (ds : Dialogs) → IsSound ds → IsSound (clear_dialog_state tab ds)
unfolding clear_dialog_state
clear_dialog_state-IsSound tab ds sound =
    let bare : Dialogs = record ds {
      by_tab = delete tab ds.by_tab;
      events = delete tab ds.events;
    } in
    let (same, same_events) = settle-by_tab tab none bare in
    record {
      few = rw same (omega (arith, size-delete-le tab ds.by_tab, sound.few));
      few_events = rw same_events (omega (arith, size-delete-le tab ds.events, sound.few_events));
      quiet = λ t h.
          quiet_after_settling tab t none bare
            (λ other waits. ground (arith, sound.quiet t waits, get-delete tab t ds.by_tab)) h;
    }

step-IsSound : (call : Call) (ds : Dialogs) → IsSound ds → IsSound (step call ds)
unfolding step add_guard remove_guard
step-IsSound (opens tab event now) ds sound = dialog_opening-IsSound tab event now ds sound
step-IsSound (closes tab) ds sound = dialog_closed-IsSound tab ds sound
step-IsSound (begins_wait tab t) ds sound = wait_for_dialog-IsSound tab t ds sound
step-IsSound (times_out tab w) ds sound = wait_times_out-IsSound tab w ds sound
step-IsSound (clears tab id) ds sound = clear_dialog-IsSound tab id ds sound
step-IsSound (clears_state tab) ds sound = clear_dialog_state-IsSound tab ds sound
step-IsSound (adds_guard tab g) ds sound = record {
  few = sound.few;
  few_events = sound.few_events;
  quiet = sound.quiet;
}
step-IsSound (removes_guard tab g) ds sound = record {
  few = sound.few;
  few_events = sound.few_events;
  quiet = sound.quiet;
}

-- Any calls keep at most a hundred dialogs and at most a hundred event records, and no task waits
-- for a dialog of a tab while one is open there, if this holds at first.
pub run-IsSound : (calls : List Call) (ds : Dialogs) → IsSound ds → IsSound (run calls ds)
unfolding run
run-IsSound [] ds sound = sound
run-IsSound (call ∷ calls) ds sound = run-IsSound calls (step call ds) (step-IsSound call ds sound)

pub initial-IsSound : IsSound initial
unfolding initial get
initial-IsSound = record { few = omega arith; few_events = omega arith; quiet = λ t h. refl }

-- Clearing a tab forgets its dialog and its waiters, and no other tab's.
pub get-clear_dialog_state :
    (tab t : ℕ) (ds : Dialogs)
    → (get t (clear_dialog_state tab ds).by_tab ≡ (if eqb tab t then none else get t ds.by_tab))
      × (get t (clear_dialog_state tab ds).waiters ≡ (if eqb tab t then none else get t ds.waiters))
unfolding clear_dialog_state
get-clear_dialog_state tab t ds =
    let bare : Dialogs = record ds {
      by_tab = delete tab ds.by_tab;
      events = delete tab ds.events;
    } in
    (
      rw (settle-by_tab tab none bare).0 (get-delete tab t ds.by_tab),
      get-settle_dialog_waiters tab t none bare,
    )
