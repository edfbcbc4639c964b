-- ===== src/Patch/Rollback.antt =====
-- Applying a patch by its id and rolling it back.
use browser_bridge.Prelude.{
  ℕ, ◌≡◌, refl, sym, subst, true, some, String, leb, if◌then◌else◌, Bool-cases, inl, inr, nat_key,
  string_key,
}
use browser_bridge.Prelude.JsMap.{size, get, has, get-put_self}
use browser_bridge.Patch.{
  Dom, TogglesOne, Element, Operation, Params, Previous, Attempt, patched, class_name_missing,
  dom_exception, Patches, StoredPatch, Applied, applied, duplicate_patch_id, registry_full,
  rolled_back, apply_operation, roll_back, store_patch, apply_dom_patch, rollback_patch,
  max_patch_registry_size,
}
use browser_bridge.Patch.Attributes.{LooksLike, Restores, is_restorable}
use browser_bridge.Patch.Undoing.{apply_operation-roll_back}

-- The rollback of the id succeeds, and leaves an element that looks like this.
abbrev pub RollsBack : Dom → String → ℕ → Operation → Element → Patches → Type 0
RollsBack dom patch_id target operation e st =
    ((rollback_patch dom patch_id st).1 ≡ rolled_back)
    × ((back : Element) × ((get target (rollback_patch dom patch_id st).0.elements ≡ some back)
          × LooksLike dom operation back e))

rollback_stored :
    (dom : Dom) (patch_id : String) (patch : StoredPatch) (e now : Element) (st : Patches)
    → get patch_id st.patch_registry ≡ some patch
    → get patch.element st.elements ≡ some now
    → Restores dom patch.operation e (roll_back dom patch.operation patch.previous now)
    → RollsBack dom patch_id patch.element patch.operation e st
unfolding rollback_patch
rollback_stored dom patch_id patch e now st stored here (back, (undone, looks)) = (
  rw (stored, rollback_patch) (rw here (rw undone refl)),
  (
    back,
    (
      rw (stored, rollback_patch)
          (rw here (rw undone (get-put_self patch.element back st.elements))),
      looks,
    ),
  ),
)

-- After a patch that was applied, its id rolls back.
abbrev Restored : Dom → String → ℕ → Operation → Element → Patches × Applied → Type 0
Restored dom patch_id target operation e o =
    o.1 ≡ applied → RollsBack dom patch_id target operation e o.0

store_patch-Restored :
    (dom : Dom) (patch_id : String) (target : ℕ) (operation : Operation) (e : Element) (o : Attempt)
    (st : Patches)
    → ((now : Element) (previous : Previous)
        → o ≡ patched now previous
        → Restores dom operation e (roll_back dom operation previous now))
    → Restored dom patch_id target operation e (store_patch patch_id target operation o st)
unfolding store_patch
store_patch-Restored dom patch_id target operation e class_name_missing st undone = λ h. cc
store_patch-Restored dom patch_id target operation e dom_exception st undone = λ h. cc
store_patch-Restored dom patch_id target operation e (patched now previous) st undone = λ ok.
    let patch : StoredPatch = record {
      element = target;
      operation = operation;
      previous = previous;
    } in
    rollback_stored dom patch_id patch e now _ (get-put_self patch_id patch st.patch_registry)
      (get-put_self target now st.elements) (undone now previous refl)

apply_dom_patch-Restored :
    (dom : Dom) (patch_id : String) (target : ℕ) (operation : Operation) (params : Params)
    (e : Element) (st : Patches)
    → TogglesOne dom
    → is_restorable dom operation params ≡ true
    → get target st.elements ≡ some e
    → Restored dom patch_id target operation e
        (apply_dom_patch dom patch_id target operation params st)
unfolding apply_dom_patch
apply_dom_patch-Restored dom patch_id target operation params e st toggles ok here =
    let P = Restored dom patch_id target operation e in
    let tail : Patches × Applied =
      if has patch_id st.patch_registry
      then (st, duplicate_patch_id)
      else if leb max_patch_registry_size (size st.patch_registry)
      then (st, registry_full)
      else store_patch patch_id target operation (apply_operation dom operation params e) st in
    let same : apply_dom_patch dom patch_id target operation params st ≡ tail =
      rw (here, apply_dom_patch) refl in
    let answer : P tail = elim (Bool-cases (has patch_id st.patch_registry)) [
      | inl taken ↦ rw taken (λ h. cc)
      | inr fresh ↦ elim (Bool-cases (leb max_patch_registry_size (size st.patch_registry))) [
        | inl full ↦ rw (fresh, full) (λ h. cc)
        | inr room ↦
            rw (fresh, room)
              (store_patch-Restored dom patch_id target operation e _ st (λ now previous h.
                apply_operation-roll_back dom toggles operation params e now previous ok h))
      ]
    ] in
    subst P (sym same) answer

-- For a DOM in which a toggle changes the one class: when `applyDomPatch` has applied a patch and,
-- for an attribute operation, the attribute is not named `__proto__` and, for a removal,
-- `setAttribute` takes its name, `rollbackPatch` of its id does not throw, reports the rollback, and
-- leaves the element with the same child nodes, the same classes, and the same value or absence of
-- every attribute as before, but that the text of the `class` attribute itself may differ after a
-- class operation.
pub apply_dom_patch-rollback_patch :
    (dom : Dom) (patch_id : String) (target : ℕ) (operation : Operation) (params : Params)
    (e : Element) (st : Patches)
    → TogglesOne dom
    → is_restorable dom operation params ≡ true
    → get target st.elements ≡ some e
    → (apply_dom_patch dom patch_id target operation params st).1 ≡ applied
    → RollsBack dom patch_id target operation e
        (apply_dom_patch dom patch_id target operation params st).0
apply_dom_patch-rollback_patch dom patch_id target operation params e st toggles ok here =
    apply_dom_patch-Restored dom patch_id target operation params e st toggles ok here
