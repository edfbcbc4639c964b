-- ===== src/Patch/Attributes.antt =====
-- What a rollback has to restore, and that it restores an attribute.
use browser_bridge.Prelude.{
  ◌≡◌, refl, sym, ap, subst, Bool, true, false, not, ◌&&◌, Option, none, some, [], ◌∷◌, String,
  arith, if◌then◌else◌, Bool-cases, Option-cases, inl, inr, ◌===◌, string_key, ◌∙◌,
}
use browser_bridge.Prelude.JsMap.{get, get-put, get-delete, get-put_self, get-delete_self}
use browser_bridge.Patch.{
  Dom, Element, Operation, Params, contains, write_attribute, name_of, restore_attributes,
  set_attribute, remove_attribute, toggle_class, add_class, remove_class,
}

abbrev pub is_class_operation : Operation → Bool
is_class_operation toggle_class = true
is_class_operation add_class = true
is_class_operation remove_class = true
is_class_operation _ = false

-- Whether the attribute that an operation writes can be written back: `setAttribute` takes its
-- name, and the object of the former values takes it as well.
abbrev pub is_restorable : Dom → Operation → Params → Bool
is_restorable dom set_attribute params = not (name_of params === "__proto__")
is_restorable dom remove_attribute params =
    dom.is_valid_name (name_of params) && not (name_of params === "__proto__")
is_restorable dom _ params = true

-- The same children, the same classes, and the same value or absence of every attribute, but that
-- the value of the `class` attribute may differ after an operation on a class.
pub record LooksLike (dom : Dom) (operation : Operation) (e e' : Element) : Type 0 where
  pub same_children : e.children ≡ e'.children
  pub same_attributes :
      (name : String)
      → (is_class_operation operation && name === "class") ≡ false
      → get name e.attributes ≡ get name e'.attributes
  pub same_classes : (c : String) → contains dom c e ≡ contains dom c e'

-- The rollback succeeds, and its element looks like the one before.
abbrev pub Restores : Dom → Operation → Element → Option Element → Type 0
Restores dom operation e o = (back : Element) × ((o ≡ some back) × LooksLike dom operation back e)

pub get-write_attribute :
    (name other : String) (value : Option String) (e : Element)
    → get other (write_attribute name value e).attributes
      ≡ (if name === other then value else get other e.attributes)
get-write_attribute name other none e = elim (Bool-cases (name === other)) [
  | inl same ↦
      rw (same, sym ((string_key.same_iff name other).0 same)) (get-delete_self name e.attributes)
  | inr differs ↦ rw differs (ground (arith, get-delete name other e.attributes))
]
get-write_attribute name other (some value) e = elim (Bool-cases (name === other)) [
  | inl same ↦
      rw (same, sym ((string_key.same_iff name other).0 same))
        (get-put_self name value e.attributes)
  | inr differs ↦ rw differs (ground (arith, get-put name other value e.attributes))
]

pub children-write_attribute :
    (name : String) (value : Option String) (e : Element)
    → (write_attribute name value e).children ≡ e.children
children-write_attribute name none e = refl
children-write_attribute name (some value) e = refl

-- Elements with the same children and attributes.
pub same-LooksLike :
    (dom : Dom) (operation : Operation) (e e' : Element)
    → e.children ≡ e'.children
    → ((name : String) → get name e.attributes ≡ get name e'.attributes)
    → LooksLike dom operation e e'
same-LooksLike dom operation e e' children attributes = record {
  same_children = children;
  same_attributes = λ name other. attributes name;
  same_classes = λ c. ap (λ value. dom.has_class value c) (attributes "class");
}

-- Writing an attribute and then its former value gives the former attributes.
write_attribute_twice :
    (dom : Dom) (operation : Operation) (name : String) (value : Option String) (e : Element)
    → LooksLike dom operation
        (write_attribute name (get name e.attributes) (write_attribute name value e))
        e
write_attribute_twice dom operation name value e =
    let now = write_attribute name value e in
    let before = get name e.attributes in
    same-LooksLike dom operation (write_attribute name before now) e
      (children-write_attribute name before now ∙ children-write_attribute name value e)
      (λ other. ground (
        arith,
        get-write_attribute name other before now,
        get-write_attribute name other value e,
        string_key.same_iff name other,
      ))

pub restore_attribute :
    (dom : Dom) (operation : Operation) (name : String) (value : Option String) (e : Element)
    → dom.is_valid_name name ≡ true
    → Restores dom operation e (
        restore_attributes dom
          ((name, get (dom.attribute_name name) e.attributes) ∷ [])
          (write_attribute (dom.attribute_name name) value e))
unfolding restore_attributes
restore_attribute dom operation name value e valid =
    let key = dom.attribute_name name in
    let now = write_attribute key value e in
    let undone = write_attribute_twice dom operation key value e in
    elim (Option-cases (get key e.attributes)) [
      | inl gone ↦ (
        write_attribute key none now,
        (
          rw (gone, restore_attributes) refl,
          subst (λ before. LooksLike dom operation (write_attribute key before now) e) gone undone,
        ),
      )
      | inr (old, held) ↦ (
        write_attribute key (some old) now,
        (
          rw (held, valid, restore_attributes) refl,
          subst (λ before. LooksLike dom operation (write_attribute key before now) e) held undone,
        ),
      )
    ]
