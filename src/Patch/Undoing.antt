-- ===== src/Patch/Undoing.antt =====
-- Rolling a patch back gives the element that it was applied to.
use browser_bridge.Prelude.{
  ◌≡◌, refl, ap, subst, Bool, true, false, not, ◌||◌, Option, none, some, String, arith,
  if◌then◌else◌, or_else, Bool-cases, inl, inr, ◌===◌, string_key, ◌∙◌,
}
use browser_bridge.Prelude.JsMap.{eq_refl}
use browser_bridge.Patch.{
  Dom, TogglesOne, Element, Operation, Params, Previous, Attempt, patched, class_name_missing,
  dom_exception, nothing, class_of, contains, write_attribute, toggle, set_text_content,
  get_class_patch_value, apply_class, toggle_operation, apply_operation, with_class, name_of,
  restore_class, roll_back, set_text, set_attribute, remove_attribute, toggle_class, add_class,
  remove_class,
}
use browser_bridge.Patch.Attributes.{
  is_class_operation, is_restorable, LooksLike, Restores, get-write_attribute,
  children-write_attribute, same-LooksLike, restore_attribute,
}

-- What an operation that succeeds is undone to.
abbrev Undone : Dom → Operation → Element → Attempt → Type 0
Undone dom operation e class_name_missing = Unit
Undone dom operation e dom_exception = Unit
Undone dom operation e (patched now previous) =
    Restores dom operation e (roll_back dom operation previous now)

module _ (dom : Dom) (toggles : TogglesOne dom) where
  abbrev flipped : String → Element → Element
  flipped c e = write_attribute "class" (dom.toggled c (class_of e)) e

  contains-flipped :
      (c d : String) (e : Element)
      → dom.is_valid_token c ≡ true
      → contains dom d (flipped c e)
        ≡ (if c === d then not (contains dom d e) else contains dom d e)
  contains-flipped c d e valid =
      ap (λ value. dom.has_class value d)
        (get-write_attribute "class" "class" (dom.toggled c (class_of e)) e)
      ∙ toggles c d (class_of e) valid

  contains-flipped_self :
      (c : String) (e : Element)
      → dom.is_valid_token c ≡ true
      → contains dom c (flipped c e) ≡ not (contains dom c e)
  contains-flipped_self c e valid = contains-flipped c c e valid ∙ rw (eq_refl c) refl

  flipped_twice :
      (operation : Operation) (c : String) (e : Element)
      → is_class_operation operation ≡ true
      → dom.is_valid_token c ≡ true
      → LooksLike dom operation (flipped c (flipped c e)) e
  flipped_twice operation c e of_class valid =
      let now = flipped c e in
      record {
        same_children =
            children-write_attribute "class" (dom.toggled c (class_of now)) now
            ∙ children-write_attribute "class" (dom.toggled c (class_of e)) e;
        same_attributes = λ name other. ground (
          arith,
          get-write_attribute "class" name (dom.toggled c (class_of now)) now,
          get-write_attribute "class" name (dom.toggled c (class_of e)) e,
          string_key.same_iff "class" name,
          string_key.same_iff name "class",
        );
        same_classes = λ d.
            contains-flipped c d now valid
            ∙ (let once = contains-flipped c d e valid in ground arith);
      }

  LooksLike-refl : (operation : Operation) (e : Element) → LooksLike dom operation e e
  LooksLike-refl operation e = same-LooksLike dom operation e e refl (λ name. refl)

  -- The rollback of a toggle that was made.
  restore_flipped :
      (operation : Operation) (always : Bool) (c : String) (e : Element) (previous : Previous)
      → is_class_operation operation ≡ true
      → dom.is_valid_token c ≡ true
      → previous.toggled_class ≡ some c
      → previous.had_class ≡ contains dom c e
      → previous.changed ≡ true
      → Restores dom operation e (restore_class dom always previous (flipped c e))
  unfolding restore_class toggle
  restore_flipped operation always c e previous of_class valid toggled had changed =
      let after = contains-flipped_self c e valid in
      let differs : (if contains dom c (flipped c e)
            then not previous.had_class
            else previous.had_class)
          ≡ true =
        ground arith in
      let made : (always || previous.changed) ≡ true = ground arith in
      (
        flipped c (flipped c e),
        (
          rw (toggled, restore_class) (rw (differs, made) (rw (valid, toggle) refl)),
          flipped_twice operation c e of_class valid,
        ),
      )

  toggle_operation-Undone :
      (c : String) (e : Element) → Undone dom toggle_class e (toggle_operation dom c e)
  unfolding toggle_operation toggle roll_back
  toggle_operation-Undone c e = elim (Bool-cases (dom.is_valid_token c)) [
    | inr bad ↦ rw bad tt
    | inl valid ↦ rw valid (restore_flipped toggle_class true c e _ refl valid refl refl refl)
  ]

  apply_class-Undone :
      (operation : Operation) (should : Bool) (c : String) (e : Element)
      → is_class_operation operation ≡ true
      → ((previous : Previous) (now : Element)
          → roll_back dom operation previous now ≡ restore_class dom false previous now)
      → Undone dom operation e (apply_class dom should c e)
  unfolding apply_class toggle restore_class
  apply_class-Undone operation should c e of_class rolls =
      elim (Bool-cases (if contains dom c e then not should else should)) [
        | inr kept ↦ rw kept (rw (rolls _ e) (e, (refl, LooksLike-refl operation e)))
        | inl changed ↦ elim (Bool-cases (dom.is_valid_token c)) [
          | inr bad ↦ rw (changed, bad) tt
          | inl valid ↦
              rw (changed, valid)
                (rw (rolls _ (flipped c e)) (
                  restore_flipped operation false c e
                    (record nothing {
                      toggled_class = some c;
                      had_class = contains dom c e;
                      changed = true;
                    })
                    of_class valid refl refl refl))
        ]
      ]

  with_class-Undone :
      (operation : Operation) (e : Element) (f : String → Attempt) (c : Option String)
      → ((name : String) → Undone dom operation e (f name))
      → Undone dom operation e (with_class f c)
  with_class-Undone operation e f none h = tt
  with_class-Undone operation e f (some c) h = h c

  apply_operation-Undone :
      (operation : Operation) (params : Params) (e : Element)
      → is_restorable dom operation params ≡ true
      → Undone dom operation e (apply_operation dom operation params e)
  unfolding apply_operation roll_back set_text_content
  apply_operation-Undone set_text params e ok = (e, (refl, LooksLike-refl set_text e))
  apply_operation-Undone set_attribute params e ok =
      let plain : (name_of params === "__proto__") ≡ false = ground arith in
      elim (Bool-cases (dom.is_valid_name (name_of params))) [
        | inr bad ↦ rw bad tt
        | inl valid ↦
            rw (valid, plain)
              (restore_attribute dom set_attribute (name_of params) (some (or_else params.value ""))
                e valid)
      ]
  apply_operation-Undone remove_attribute params e ok =
      let plain : (name_of params === "__proto__") ≡ false = ground arith in
      let valid : dom.is_valid_name (name_of params) ≡ true = ground arith in
      rw plain (restore_attribute dom remove_attribute (name_of params) none e valid)
  apply_operation-Undone toggle_class params e ok =
      with_class-Undone toggle_class e _ (get_class_patch_value params)
        (λ c. toggle_operation-Undone c e)
  apply_operation-Undone add_class params e ok =
      with_class-Undone add_class e _ (get_class_patch_value params)
        (λ c. apply_class-Undone add_class true c e refl (λ previous now. refl))
  apply_operation-Undone remove_class params e ok =
      with_class-Undone remove_class e _ (get_class_patch_value params)
        (λ c. apply_class-Undone remove_class false c e refl (λ previous now. refl))

  -- For a DOM in which a toggle changes the one class: when an operation was applied and, for an
  -- attribute operation, the attribute is not named `__proto__` and, for a removal, `setAttribute`
  -- takes its name, the rollback right after it does not throw, and gives an element with the same
  -- child nodes, the same classes, and the same value or absence of every attribute, but that the
  -- text of the `class` attribute itself may differ after a class operation.
  pub apply_operation-roll_back :
      (operation : Operation) (params : Params) (e now : Element) (previous : Previous)
      → is_restorable dom operation params ≡ true
      → apply_operation dom operation params e ≡ patched now previous
      → Restores dom operation e (roll_back dom operation previous now)
  apply_operation-roll_back operation params e now previous ok h =
      subst (Undone dom operation e) h (apply_operation-Undone operation params e ok)
