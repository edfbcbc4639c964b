-- ===== src/Nodes.antt =====
-- The nodes of a DOM snapshot, as packages/extension/src/background-dom-baselines.ts reads them:
-- JSON values and their canonical text, and the normalized node. A field that may be undefined is
-- an option, and a number is a whole number, or inside JSON the text that JSON prints for it.
pub mod Values
pub mod Unchanged
use browser_bridge.Prelude.{
  ℕ, ◌+◌, Bool, true, false, ◌&&◌, ◌||◌, Option, none, some, List, [], ◌∷◌, String, eqb,
  if◌then◌else◌, or_else, Key, ◌===◌, string_key, filter,
}
use browser_bridge.Prelude.JsMap.{JsMap, get, put}
pub use browser_bridge.Nodes.Values.{Json, Items, Fields, stable_stringify}

-- A node as the content script sends it.
pub record DomNode : Type 0 where
  pub node_id : String
  pub parent_id : Option String
  pub parent_node_id : Option String
  pub sibling_index : Option ℕ
  pub index : Option ℕ
  pub tag : Option Json
  pub tag_name : Option Json
  pub role : Option Json
  pub role_fingerprint : Option Json
  pub name : Option Json
  pub name_fingerprint : Option Json
  pub text : Option Json
  pub text_excerpt : Option Json
  pub text_fingerprint : Option Json
  pub attrs : Option Json
  pub attrs_fingerprint : Option Json
  pub attributes_fingerprint : Option Json
  pub state : Option Json
  pub state_fingerprint : Option Json
  pub depth : Option ℕ
  pub order : Option ℕ
  pub ancestor_ids : List String

-- A node of which only the id is known.
abbrev pub blank_node : String → DomNode
blank_node id = record {
  node_id = id;
  parent_id = none;
  parent_node_id = none;
  sibling_index = none;
  index = none;
  tag = none;
  tag_name = none;
  role = none;
  role_fingerprint = none;
  name = none;
  name_fingerprint = none;
  text = none;
  text_excerpt = none;
  text_fingerprint = none;
  attrs = none;
  attrs_fingerprint = none;
  attributes_fingerprint = none;
  state = none;
  state_fingerprint = none;
  depth = none;
  order = none;
  ancestor_ids = [];
}

pub record NormalizedNode : Type 0 where
  pub id : String
  pub parent_id : Option String
  pub sibling_index : ℕ
  pub source_index : ℕ
  pub tag : Json
  pub role : Json
  pub name : Json
  pub text : Json
  pub attrs : Json
  pub state : Json
  pub state_evidence : List (String × Json)
  pub display_name : Option String
  pub text_excerpt : String
  pub attributes : List (String × String)
  pub depth : ℕ
  pub ancestry : List String
  pub order : ℕ

pub record NodeEvidence : Type 0 where
  pub tag : String
  pub role : Option String
  pub name : Option String
  pub text : String
  pub attributes : List (String × String)
  pub depth : ℕ
  pub state : List (String × Json)

pub first_defined : List (Option Json) → Json
first_defined [] = Json.null
first_defined (none ∷ values) = first_defined values
first_defined (some value ∷ values) = value

-- `typeof value === 'string' ? value : …`
abbrev pub as_string : Option Json → Option String
as_string (some (Json.text s)) = some s
as_string _ = none

-- `a ?? b`
abbrev pub either {ℓ} : {A : Type ℓ} → Option A → Option A → Option A
either (some a) b = some a
either none b = b

abbrev may_mix : String → Bool
may_mix name = (name === "checked") || (name === "pressed")

-- Which entry of the state is passed on, as evidence.
pub is_evidence : String → Json → Bool
is_evidence name (Json.boolean b) = true
is_evidence name (Json.text s) = may_mix name && (s === "mixed")
is_evidence name _ = false

-- `Reflect.get` of a value that `JSON.parse` made; the names of its fields are distinct.
pub field_value : String → Fields → Option Json
field_value key Fields.end = none
field_value key (Fields.field name value rest) =
    if name === key then some value else field_value key rest

abbrev semantic_flags : List String
semantic_flags = "disabled" ∷ "checked" ∷ "selected" ∷ "expanded" ∷ "pressed" ∷ "hidden" ∷ []

pub evidence_fields : List String → Fields → List (String × Json)
evidence_fields [] fields = []
evidence_fields (name ∷ names) fields = elim (field_value name fields) [
  | none ↦ evidence_fields names fields
  | some value ↦
      if is_evidence name value
      then (name, value) ∷ evidence_fields names fields
      else evidence_fields names fields
]

pub normalize_evidence_state : Option Json → List (String × Json)
normalize_evidence_state (some (Json.object fields)) = evidence_fields semantic_flags fields
normalize_evidence_state _ = []

pub value_of : Fields → Option String
value_of Fields.end = none
value_of (Fields.field name value rest) =
    if name === "value" then as_string (some value) else value_of rest

pub displayed : Json → Option String
displayed (Json.text s) = some s
displayed (Json.object fields) = value_of fields
displayed _ = none

pub displayed_fields : Fields → List (String × String)
displayed_fields Fields.end = []
displayed_fields (Fields.field name value rest) = elim (displayed value) [
  | none ↦ displayed_fields rest
  | some s ↦ (name, s) ∷ displayed_fields rest
]

pub normalize_evidence_attributes : Option Json → List (String × String)
normalize_evidence_attributes (some (Json.object fields)) = displayed_fields fields
normalize_evidence_attributes _ = []

abbrev pub parent_key : Option String → String
parent_key parent = or_else parent "__root__"

-- `normalizeNodeId`; `none` is its TypeError.
unfoldable pub normalize_node_id : String → Option String
normalize_node_id id = if id === "" then none else some id

abbrev pub parent_value : DomNode → Option String
parent_value node = either node.parent_id node.parent_node_id

-- `parentValue === null ? null : normalizeNodeId(parentValue)`
unfoldable pub normalize_parent_id : Option String → Option (Option String)
normalize_parent_id none = some none
normalize_parent_id (some id) = elim (normalize_node_id id) [
  | none ↦ none
  | some normalized ↦ some (some normalized)
]

-- The object that the map returns for a node, given its normalized ids.
unfoldable pub node_object : String → Option String → DomNode → ℕ → ℕ → NormalizedNode
node_object id parent_id node source_index fallback = record {
  id = id;
  parent_id = parent_id;
  sibling_index = or_else (either node.sibling_index node.index) fallback;
  source_index = source_index;
  tag = Json.text (or_else (as_string (some (first_defined (node.tag ∷ node.tag_name ∷ [])))) "");
  role = first_defined (node.role_fingerprint ∷ node.role ∷ []);
  name = first_defined (node.name_fingerprint ∷ node.name ∷ []);
  text = first_defined (node.text_fingerprint ∷ node.text_excerpt ∷ node.text ∷ []);
  attrs = first_defined (node.attrs_fingerprint ∷ node.attributes_fingerprint ∷ node.attrs ∷ []);
  state = first_defined (node.state_fingerprint ∷ node.state ∷ []);
  state_evidence = normalize_evidence_state node.state;
  display_name = as_string node.name;
  text_excerpt = or_else (as_string node.text_excerpt) "";
  attributes = normalize_evidence_attributes node.attrs;
  depth = or_else node.depth 0;
  ancestry = node.ancestor_ids;
  order = or_else node.order source_index;
}

-- One node, with its place in the source and the fallback for its index among its siblings. The
-- ids of the node and of its parent must not be empty.
unfoldable pub normalize_node : DomNode → ℕ → ℕ → Option NormalizedNode
normalize_node node source_index fallback = elim (normalize_parent_id (parent_value node)) [
  | none ↦ none
  | some parent_id ↦ elim (normalize_node_id node.node_id) [
    | none ↦ none
    | some id ↦ some (node_object id parent_id node source_index fallback)
  ]
]

-- The map of `normalizeNodes`, with the next index of each parent. An error of one node ends it.
unfoldable pub normalize_from : ℕ → JsMap String ℕ → List DomNode → Option (List NormalizedNode)
normalize_from source_index next [] = some []
normalize_from source_index next (node ∷ nodes) =
    let key = parent_key (parent_value node) in
    let fallback = or_else (get key next) 0 in
    let rest = normalize_from (source_index + 1) (put key (fallback + 1) next) nodes in
    elim (normalize_node node source_index fallback) [
      | none ↦ none
      | some n ↦ elim rest [ none ↦ none | some ns ↦ some (n ∷ ns) ]
    ]

unfoldable pub normalize_nodes : List DomNode → Option (List NormalizedNode)
normalize_nodes nodes = normalize_from 0 [] nodes

pub semantic_equal : Json → Json → Bool
semantic_equal left right = stable_stringify left === stable_stringify right

pub data Field : Type 0 where
  tag role name text attrs state : Field

abbrev pub field_of : Field → NormalizedNode → Json
field_of Field.tag n = n.tag
field_of Field.role n = n.role
field_of Field.name n = n.name
field_of Field.text n = n.text
field_of Field.attrs n = n.attrs
field_of Field.state n = n.state

abbrev pub all_fields : List Field
all_fields = Field.tag ∷ Field.role ∷ Field.name ∷ Field.text ∷ Field.attrs ∷ Field.state ∷ []

pub changed_fields : NormalizedNode → NormalizedNode → List Field
changed_fields before after =
    filter (λ f. if semantic_equal (field_of f before) (field_of f after) then false else true)
      all_fields

pub to_evidence : NormalizedNode → NodeEvidence
to_evidence n = record {
  tag = or_else (as_string (some n.tag)) "";
  role = as_string (some n.role);
  name = n.display_name;
  text = n.text_excerpt;
  attributes = n.attributes;
  depth = n.depth;
  state = n.state_evidence;
}
