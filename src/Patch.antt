-- ===== src/Patch.antt =====
-- packages/extension/src/content-patch.ts: reversible DOM patches of an element, which is its child
-- nodes and its attributes, with the `class` attribute that the class list reads and writes. What
-- the DOM does with attribute names and class names is a parameter. Style patches, which depend on
-- the browser's CSSOM, and what observers of the page do meanwhile are left out.
pub mod Attributes
pub mod Undoing
pub mod Rollback
pub mod Tests
use browser_bridge.Prelude.{
  ℕ, ◌≡◌, Bool, true, false, not, ◌&&◌, ◌||◌, Option, none, some, List, [], ◌∷◌, ◌++◌, String, leb,
  if◌then◌else◌, or_else, any, filter, Key, ◌===◌, string_key, nat_key,
}
use browser_bridge.Prelude.JsMap.{JsMap, size, get, has, put, delete}

pub data Node : Type 0 where
  child : ℕ → Node
  text : String → Node

pub record Element : Type 0 where
  pub children : List Node
  pub attributes : JsMap String String

-- What the DOM decides: the name under which an attribute is kept, the names that `setAttribute`
-- takes and the ones that `classList.toggle` takes, where they do not throw, and the class list of a
-- value of the `class` attribute: what it contains, and the value after a toggle.
pub record Dom : Type 0 where
  pub attribute_name : String → String
  pub is_valid_name : String → Bool
  pub is_valid_token : String → Bool
  pub has_class : Option String → String → Bool
  pub toggled : String → Option String → Option String

-- A toggle changes whether the list contains the one class, and no other.
abbrev pub TogglesOne : Dom → Type 0
TogglesOne dom =
    (c d : String) (value : Option String)
    → dom.is_valid_token c ≡ true
    → dom.has_class (dom.toggled c value) d
      ≡ (if c === d then not (dom.has_class value d) else dom.has_class value d)

-- Any other operation is refused before anything changes.
pub data Operation : Type 0 where
  set_text set_attribute remove_attribute toggle_class add_class remove_class : Operation

pub record Params : Type 0 where
  pub name : Option String
  pub value : Option String

pub record Previous : Type 0 where
  pub children : Option (List Node)
  pub attributes : JsMap String (Option String)
  pub toggled_class : Option String
  pub had_class : Bool
  pub changed : Bool

abbrev nothing : Previous
nothing = record {
  children = none;
  attributes = [];
  toggled_class = none;
  had_class = false;
  changed = false;
}

-- A result of the switch: the patched element with what its rollback needs, or an error.
pub data Attempt : Type 0 where
  patched : Element → Previous → Attempt
  class_name_missing dom_exception : Attempt

abbrev pub class_of : Element → Option String
class_of e = get "class" e.attributes

-- `element.classList.contains`
abbrev pub contains : Dom → String → Element → Bool
contains dom c e = dom.has_class (class_of e) c

-- `setAttribute` or `removeAttribute` of the attribute that is kept under the name.
abbrev pub write_attribute : String → Option String → Element → Element
write_attribute name none e = record e { attributes = delete name e.attributes }
write_attribute name (some value) e = record e { attributes = put name value e.attributes }

-- `element.classList.toggle`; `none` is its exception.
pub toggle : Dom → String → Element → Option Element
toggle dom c e =
    if dom.is_valid_token c
    then some (write_attribute "class" (dom.toggled c (class_of e)) e)
    else none

-- `element.textContent = value`: no node for the empty text.
pub set_text_content : String → Element → Element
set_text_content value e = record e { children = if value === "" then [] else text value ∷ [] }

pub get_class_patch_value : Params → Option String
get_class_patch_value params =
    let class_name = or_else params.value (or_else params.name "") in
    if class_name === "" then none else some class_name

abbrev pub or_exception : Previous → Option Element → Attempt
or_exception previous none = dom_exception
or_exception previous (some e) = patched e previous

-- `add_class` and `remove_class`, by whether the element should have the class.
pub apply_class : Dom → Bool → String → Element → Attempt
apply_class dom should c e =
    let had = contains dom c e in
    let changed = if had then not should else should in
    or_exception (record nothing { toggled_class = some c; had_class = had; changed = changed })
      (if changed then toggle dom c e else some e)

pub toggle_operation : Dom → String → Element → Attempt
toggle_operation dom c e =
    or_exception
      (record nothing { toggled_class = some c; had_class = contains dom c e; changed = true })
      (toggle dom c e)

abbrev pub with_class : (String → Attempt) → Option String → Attempt
with_class f none = class_name_missing
with_class f (some c) = f c

-- `previous.attributes[name] = …`: an object takes no field of the name `__proto__`.
abbrev pub attribute_before : Dom → String → Element → Previous
attribute_before dom name e = record nothing {
  attributes =
      if name === "__proto__" then [] else (name, get (dom.attribute_name name) e.attributes) ∷ [];
}

abbrev pub name_of : Params → String
name_of params = or_else params.name ""

-- The switch of `applyDomPatch`.
pub apply_operation : Dom → Operation → Params → Element → Attempt
apply_operation dom set_text params e =
    patched (set_text_content (or_else params.value "") e)
      (record nothing { children = some e.children })
apply_operation dom set_attribute params e =
    if dom.is_valid_name (name_of params)
    then patched
        (write_attribute (dom.attribute_name (name_of params)) (some (or_else params.value "")) e)
        (attribute_before dom (name_of params) e)
    else dom_exception
apply_operation dom remove_attribute params e =
    patched (write_attribute (dom.attribute_name (name_of params)) none e)
      (attribute_before dom (name_of params) e)
apply_operation dom toggle_class params e =
    with_class (λ c. toggle_operation dom c e) (get_class_patch_value params)
apply_operation dom add_class params e =
    with_class (λ c. apply_class dom true c e) (get_class_patch_value params)
apply_operation dom remove_class params e =
    with_class (λ c. apply_class dom false c e) (get_class_patch_value params)

-- `none` is the exception of `setAttribute`.
pub restore_attributes : Dom → JsMap String (Option String) → Element → Option Element
restore_attributes dom [] e = some e
restore_attributes dom ((name, none) ∷ rest) e =
    restore_attributes dom rest (write_attribute (dom.attribute_name name) none e)
restore_attributes dom ((name, some value) ∷ rest) e =
    let restored =
      restore_attributes dom rest (write_attribute (dom.attribute_name name) (some value) e) in
    if dom.is_valid_name name then restored else none

pub restore_class : Dom → Bool → Previous → Element → Option Element
restore_class dom always previous e = elim previous.toggled_class [
  | none ↦ restore_attributes dom previous.attributes e
  | some c ↦
      let now = contains dom c e in
      let differs = if now then not previous.had_class else previous.had_class in
      if (always || previous.changed) && differs then toggle dom c e else some e
]

-- The part of `rollbackPatch` for DOM patches; `none` is an exception of the DOM.
pub roll_back : Dom → Operation → Previous → Element → Option Element
roll_back dom set_text previous e = elim previous.children [
  | none ↦ restore_attributes dom previous.attributes e
  | some children ↦ some (record e { children = children })
]
roll_back dom set_attribute previous e = restore_attributes dom previous.attributes e
roll_back dom remove_attribute previous e = restore_attributes dom previous.attributes e
roll_back dom toggle_class previous e = restore_class dom true previous e
roll_back dom add_class previous e = restore_class dom false previous e
roll_back dom remove_class previous e = restore_class dom false previous e

abbrev pub max_patch_registry_size : ℕ
max_patch_registry_size = 2000

pub record StoredPatch : Type 0 where
  pub element : ℕ
  pub operation : Operation
  pub previous : Previous

-- The elements of the page by their identity, and the active patches.
pub record Patches : Type 0 where
  pub elements : JsMap ℕ Element
  pub patch_registry : JsMap String StoredPatch

pub data Applied : Type 0 where
  applied not_found duplicate_patch_id registry_full class_name_required exception : Applied

-- The end of `applyDomPatch`, behind the checks. An error leaves the element as it was.
pub store_patch : String → ℕ → Operation → Attempt → Patches → Patches × Applied
store_patch patch_id target operation class_name_missing st = (st, class_name_required)
store_patch patch_id target operation dom_exception st = (st, exception)
store_patch patch_id target operation (patched e previous) st = (
  record {
    elements = put target e st.elements;
    patch_registry =
        put patch_id (record { element = target; operation = operation; previous = previous })
          st.patch_registry;
  },
  applied,
)

-- The target is an element that has been resolved; the id is the caller's or a generated one.
pub apply_dom_patch : Dom → String → ℕ → Operation → Params → Patches → Patches × Applied
apply_dom_patch dom patch_id target operation params st = elim (get target st.elements) [
  | none ↦ (st, not_found)
  | some e ↦
      if has patch_id st.patch_registry
      then (st, duplicate_patch_id)
      else if leb max_patch_registry_size (size st.patch_registry)
      then (st, registry_full)
      else store_patch patch_id target operation (apply_operation dom operation params e) st
]

pub data RolledBack : Type 0 where
  rolled_back not_rolled_back threw : RolledBack

-- A stored patch holds its element, so the element is always there. An exception of the DOM leaves
-- the patch in the registry.
pub rollback_patch : Dom → String → Patches → Patches × RolledBack
rollback_patch dom patch_id st = elim (get patch_id st.patch_registry) [
  | none ↦ (st, not_rolled_back)
  | some patch ↦ elim (get patch.element st.elements) [
    | none ↦ (record st { patch_registry = delete patch_id st.patch_registry }, rolled_back)
    | some e ↦ elim (roll_back dom patch.operation patch.previous e) [
      | none ↦ (st, threw)
      | some restored ↦ (
        record {
          elements = put patch.element restored st.elements;
          patch_registry = delete patch_id st.patch_registry;
        },
        rolled_back,
      )
    ]
  ]
]

pub commit_session_baseline : Patches → Patches
commit_session_baseline st = record st { patch_registry = [] }
