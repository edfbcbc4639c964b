-- ===== src/Debugger/Dialogs/Opened.antt =====
-- What an opening event does for those who look at the tab, wait for a dialog or run on the tab.
use browser_bridge.Prelude.{
  ℕ, ◌+◌, ◌≡◌, refl, ap, ◌∙◌, true, Option, none, some, List, [], ◌∷◌, arith, or_else, Option-cases,
  inl, inr, nat_key, Each,
}
use browser_bridge.Prelude.JsMap.{JsMap, get, has, put, delete, get-put, get-delete, get-put_self}
use browser_bridge.Debugger.Dialogs.{
  TrackedDialog, DialogEventState, Dialogs, make_room, renew, record_dialog_event,
  settle_dialog_waiters, dialog_opening, get_dialog_observation, opened_dialog, Opening, resolve,
  resolve_all, interrupt_all, sequence_of, last_opened,
}
use browser_bridge.Debugger.Dialogs.Bounds.{settle-by_tab}

resolve-has :
    (dialog : Option TrackedDialog) (w v : ℕ) (m : JsMap ℕ (Option TrackedDialog))
    → has v m ≡ true
    → has v (resolve dialog w m) ≡ true
unfolding resolve
resolve-has dialog w v m h = ground (arith, get-put w v dialog m)

resolve_self :
    (dialog : Option TrackedDialog) (w : ℕ) (m : JsMap ℕ (Option TrackedDialog))
    → has w (resolve dialog w m) ≡ true
unfolding resolve
resolve_self dialog w m = ground (arith, get-put w w dialog m)

resolve_all-has :
    (dialog : Option TrackedDialog) (ws : List ℕ) (v : ℕ) (m : JsMap ℕ (Option TrackedDialog))
    → has v m ≡ true
    → has v (resolve_all dialog ws m) ≡ true
unfolding resolve_all
resolve_all-has dialog [] v m h = h
resolve_all-has dialog (w ∷ ws) v m h =
    resolve_all-has dialog ws v (resolve dialog w m) (resolve-has dialog w v m h)

resolve_all-Each :
    (dialog : Option TrackedDialog) (ws : List ℕ) (m : JsMap ℕ (Option TrackedDialog))
    → Each (λ w. has w (resolve_all dialog ws m) ≡ true) ws
unfolding resolve_all
resolve_all-Each dialog [] m = tt
resolve_all-Each dialog (w ∷ ws) m = (
  resolve_all-has dialog ws w (resolve dialog w m) (resolve_self dialog w m),
  resolve_all-Each dialog ws (resolve dialog w m),
)

interrupt_all-has :
    (dialog : TrackedDialog) (gs : List ℕ) (v : ℕ) (m : JsMap ℕ TrackedDialog)
    → has v m ≡ true
    → has v (interrupt_all dialog gs m) ≡ true
unfolding interrupt_all
interrupt_all-has dialog [] v m h = h
interrupt_all-has dialog (g ∷ gs) v m h =
    interrupt_all-has dialog gs v (put g dialog m) (ground (arith, get-put g v dialog m))

interrupt_all-Each :
    (dialog : TrackedDialog) (gs : List ℕ) (m : JsMap ℕ TrackedDialog)
    → Each (λ g. has g (interrupt_all dialog gs m) ≡ true) gs
unfolding interrupt_all
interrupt_all-Each dialog [] m = tt
interrupt_all-Each dialog (g ∷ gs) m = (
  interrupt_all-has dialog gs g (put g dialog m) (ground (arith, get-put g g dialog m)),
  interrupt_all-Each dialog gs (put g dialog m),
)

get_self-make_room {ℓ} :
    {V : Type ℓ} (tab : ℕ) (m : JsMap ℕ V) → get tab (make_room tab m) ≡ get tab m
unfolding make_room
get_self-make_room tab [] = ground arith
get_self-make_room tab ((k, w) ∷ m) = ground (arith, get-delete k tab ((k, w) ∷ m))

get_self-renew {ℓ} :
    {V : Type ℓ} (tab : ℕ) (v : V) (m : JsMap ℕ V) → get tab (renew tab v m) ≡ some v
unfolding renew
get_self-renew tab v m = get-put_self tab v (delete tab m)

get-record_dialog_event :
    (tab : ℕ) (opened : Option ℕ) (events : JsMap ℕ DialogEventState)
    → get tab (record_dialog_event tab opened events)
      ≡ some (record {
        event_sequence = sequence_of (get tab events) + 1;
        last_opened_dialog_id = last_opened opened (get tab events);
      })
unfolding record_dialog_event
get-record_dialog_event tab opened events =
    get_self-renew tab _ (make_room tab events)
    ∙ ap
        (λ (found : Option DialogEventState). some (record {
          event_sequence = sequence_of found + 1;
          last_opened_dialog_id = last_opened opened found;
        }))
        (get_self-make_room tab events)

pub dialog_opening-maps :
    (tab : ℕ) (event : Opening) (now : ℕ) (ds : Dialogs)
    → (get tab (dialog_opening tab event now ds).by_tab ≡ some (opened_dialog event now ds))
      × (get tab (dialog_opening tab event now ds).events
          ≡ some (record {
            event_sequence = sequence_of (get tab ds.events) + 1;
            last_opened_dialog_id = some (opened_dialog event now ds).dialog_id;
          }))
unfolding dialog_opening last_opened
dialog_opening-maps tab event now ds =
    let dialog = opened_dialog event now ds in
    let (same, same_events) = settle-by_tab tab (some dialog) (record ds {
      by_tab = renew tab dialog (make_room tab ds.by_tab);
      events = record_dialog_event tab (some dialog.dialog_id) ds.events;
      next_generation = dialog.dialog_id;
    }) in
    (
      rw same (get_self-renew tab dialog (make_room tab ds.by_tab)),
      rw same_events (get-record_dialog_event tab (some dialog.dialog_id) ds.events),
    )

dialog_opening-woken :
    (tab : ℕ) (event : Opening) (now : ℕ) (ds : Dialogs)
    → Each
        (λ w. has w (dialog_opening tab event now ds).settled ≡ true)
        (or_else (get tab ds.waiters) [])
unfolding dialog_opening settle_dialog_waiters
dialog_opening-woken tab event now ds = elim (Option-cases (get tab ds.waiters)) [
  | inl e ↦ rw (e, dialog_opening, settle_dialog_waiters) tt
  | inr (ws, e) ↦
      rw (e, dialog_opening, settle_dialog_waiters)
        (resolve_all-Each (some (opened_dialog event now ds)) ws ds.settled)
]

dialog_opening-shown :
    (tab : ℕ) (event : Opening) (now : ℕ) (ds : Dialogs)
    → get_dialog_observation tab (dialog_opening tab event now ds) ≡ record {
      dialog = some (opened_dialog event now ds);
      event_sequence = (get_dialog_observation tab ds).event_sequence + 1;
      last_opened_dialog_id = some (opened_dialog event now ds).dialog_id;
    }
unfolding get_dialog_observation last_opened sequence_of
dialog_opening-shown tab event now ds =
    let (d, e) = dialog_opening-maps tab event now ds in rw (d, get_dialog_observation) (rw e refl)

-- What one tab has after an opening event, in terms of what it had before.
pub record Opened (tab : ℕ) (event : Opening) (now : ℕ) (ds : Dialogs) : Type 0 where
  pub shown : get_dialog_observation tab (dialog_opening tab event now ds) ≡ record {
    dialog = some (opened_dialog event now ds);
    event_sequence = (get_dialog_observation tab ds).event_sequence + 1;
    last_opened_dialog_id = some (opened_dialog event now ds).dialog_id;
  }
  pub woken :
      Each
        (λ w. has w (dialog_opening tab event now ds).settled ≡ true)
        (or_else (get tab ds.waiters) [])
  pub nobody_waits : get tab (dialog_opening tab event now ds).waiters ≡ none
  pub stopped :
      Each
        (λ g. has g (dialog_opening tab event now ds).interrupted ≡ true)
        (or_else (get tab ds.guards) [])

-- After an opening event the tab shows the dialog of that event, its sequence number is one more
-- and the last opened id is that dialog's; each task that waited for a dialog of the tab has been
-- resolved and none waits any more, and each guarded task of the tab has been interrupted.
pub dialog_opening-Opened :
    (tab : ℕ) (event : Opening) (now : ℕ) (ds : Dialogs) → Opened tab event now ds
unfolding dialog_opening settle_dialog_waiters
dialog_opening-Opened tab event now ds = record {
  shown = dialog_opening-shown tab event now ds;
  woken = dialog_opening-woken tab event now ds;
  nobody_waits = ground (arith, get-delete tab tab ds.waiters);
  stopped =
      interrupt_all-Each (opened_dialog event now ds) (or_else (get tab ds.guards) [])
        ds.interrupted;
}
