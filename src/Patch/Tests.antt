-- ===== src/Patch/Tests.antt =====
-- Runs of DOM patches, and the theorems at concrete inputs.
use browser_bridge.Prelude.{
  ◌≡◌, refl, Bool, true, false, not, Option, none, some, [], ◌∷◌, String, arith, if◌then◌else◌,
  ◌===◌, string_key, nat_key,
}
use browser_bridge.Prelude.JsMap.{get, put, delete}
use browser_bridge.Patch.{
  Dom, TogglesOne, Element, Previous, child, patched, dom_exception, apply_operation, apply_class,
  toggle_operation, toggle, get_class_patch_value, set_text_content, roll_back, restore_class,
  restore_attributes, add_class, set_attribute, Params, Patches, apply_dom_patch, store_patch,
  rollback_patch,
}
use browser_bridge.Patch.Rollback.{RollsBack, apply_dom_patch-rollback_patch}
use browser_bridge.Patch.Attributes.{Restores}
use browser_bridge.Patch.Undoing.{apply_operation-roll_back}

patches : Unit {0}
unfolding apply_operation apply_class toggle_operation toggle get_class_patch_value set_text_content
    roll_back restore_class restore_attributes get put delete apply_dom_patch store_patch
    rollback_patch
patches = tt

-- A class list with the classes `hot` and `wide` only, which writes the empty text when no class is
-- left.
abbrev text_of : Bool → Bool → String
text_of hot wide =
    if hot then (if wide then "wide hot" else "hot") else (if wide then "wide" else "")

abbrev is_hot : Option String → Bool
is_hot none = false
is_hot (some s) = if s === "hot" then true else (s === "wide hot")

abbrev is_wide : Option String → Bool
is_wide none = false
is_wide (some s) = if s === "wide" then true else (s === "wide hot")

abbrev dom : Dom
dom = record {
  attribute_name = λ name. name;
  is_valid_name = λ name. not (name === "@click");
  is_valid_token = λ c. if c === "hot" then true else (c === "wide");
  has_class = λ value c.
      if c === "hot" then is_hot value else if c === "wide" then is_wide value else false;
  toggled = λ c value. some (
      if c === "hot"
      then text_of (not (is_hot value)) (is_wide value)
      else text_of (is_hot value) (not (is_wide value)));
}

reads :
    (hot wide : Bool)
    → (is_hot (some (text_of hot wide)) ≡ hot) × (is_wide (some (text_of hot wide)) ≡ wide)
reads false false = (refl, refl)
reads false true = (refl, refl)
reads true false = (refl, refl)
reads true true = (refl, refl)

dom-TogglesOne : TogglesOne dom
dom-TogglesOne c d value valid = ground (
  arith,
  reads (not (is_hot value)) (is_wide value),
  reads (is_hot value) (not (is_wide value)),
  string_key.same_iff c "hot",
  string_key.same_iff c "wide",
  string_key.same_iff d "hot",
  string_key.same_iff d "wide",
  string_key.same_iff c d,
)

abbrev button : Element
button = record { children = child 1 ∷ []; attributes = ("type", "submit") ∷ [] }

abbrev marked : Element
marked = record button { attributes = ("type", "submit") ∷ ("class", "hot") ∷ [] }

abbrev previous : Previous
previous = record {
  children = none;
  attributes = [];
  toggled_class = some "hot";
  had_class = false;
  changed = true;
}

abbrev hot : Params
hot = record { name = none; value = some "hot" }

applied : apply_operation dom add_class hot button ≡ patched marked previous
unfolding patches
applied = refl

-- The rollback leaves an empty `class` attribute where there was none.
left_behind :
    roll_back dom add_class previous marked
    ≡ some (record button { attributes = ("type", "submit") ∷ ("class", "") ∷ [] })
unfolding patches
left_behind = refl

-- A name that `setAttribute` does not take, and a class name with a blank.
refused :
    (apply_operation dom set_attribute (record { name = some "@click"; value = none }) button
      ≡ dom_exception)
    × (apply_operation dom add_class (record { name = some "a b"; value = none }) button
        ≡ dom_exception)
unfolding patches
refused = (refl, refl)

apply_operation-roll_back_example :
    Restores dom add_class button (roll_back dom add_class previous marked)
apply_operation-roll_back_example =
    apply_operation-roll_back dom dom-TogglesOne add_class hot button marked previous refl applied

abbrev with_button : Patches
with_button = record { elements = (3, button) ∷ []; patch_registry = [] }

apply_dom_patch-rollback_patch_example :
    RollsBack dom "p" 3 add_class button (apply_dom_patch dom "p" 3 add_class hot with_button).0
unfolding patches
apply_dom_patch-rollback_patch_example =
    apply_dom_patch-rollback_patch dom "p" 3 add_class hot button with_button dom-TogglesOne refl
      refl refl
