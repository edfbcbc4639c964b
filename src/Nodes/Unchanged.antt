-- ===== src/Nodes/Unchanged.antt =====
-- A node has no changed fields against itself, and normalization keeps the ids.
use browser_bridge.Prelude.{
  List, [], ◌∷◌, ℕ, String, ◌+◌, map, ◌≡◌, refl, true, false, Bool, filter, Bool-cases, inl, inr,
  arith, [], filter_none, if◌then◌else◌, Option, none, some, or_else, any, ◌===◌, string_key,
}
use browser_bridge.Prelude.JsMap.{JsMap, get, put, eq_refl}
use browser_bridge.Nodes.{
  NormalizedNode, Field, DomNode, parent_value, parent_key, normalize_parent_id, normalize_node_id,
  node_object, normalize_node, normalize_from, normalize_nodes, Json, stable_stringify,
  changed_fields, semantic_equal, field_of, all_fields,
}

semantic_equal_refl : (value : Json) → semantic_equal value value ≡ true
unfolding semantic_equal
semantic_equal_refl value = eq_refl (stable_stringify value)

pub changed_fields_refl : (n : NormalizedNode) → changed_fields n n ≡ []
unfolding changed_fields
changed_fields_refl n =
    filter_none (λ f. if semantic_equal (field_of f n) (field_of f n) then false else true)
      all_fields (λ f. rw (semantic_equal_refl (field_of f n)) refl)

abbrev is_empty_id : Option String → Bool
is_empty_id none = false
is_empty_id (some id) = id === ""

-- A node whose parent id is the empty text.
abbrev pub has_empty_parent : DomNode → Bool
has_empty_parent node = is_empty_id (parent_value node)

normalize_parent_id_same :
    (id : Option String) → is_empty_id id ≡ false → normalize_parent_id id ≡ some id
unfolding normalize_parent_id normalize_node_id
normalize_parent_id_same none h = refl
normalize_parent_id_same (some id) h = rw (h, normalize_parent_id, normalize_node_id) refl

-- What nodes without an empty id or parent id are normalized to: as many nodes, with the same ids.
abbrev pub Normal : List DomNode → Option (List NormalizedNode) → Type 0
Normal nodes o =
    (ns : List NormalizedNode) × ((o ≡ some ns) × (map (λ n. n.id) ns ≡ map (λ n. n.node_id) nodes))

id-normalize_node :
    (node : DomNode) (index fallback : ℕ)
    → has_empty_parent node ≡ false
    → (node.node_id === "") ≡ false
    → (n : NormalizedNode) × ((normalize_node node index fallback ≡ some n) × (n.id ≡ node.node_id))
unfolding normalize_node normalize_node_id node_object
id-normalize_node node index fallback parent named = (
  node_object node.node_id (parent_value node) node index fallback,
  (
    rw
        (
          normalize_parent_id_same (parent_value node) parent,
          named,
          normalize_node,
          normalize_node_id,
        )
        refl,
    refl,
  ),
)

normalize_from-Normal :
    (index : ℕ) (next : JsMap String ℕ) (nodes : List DomNode)
    → any has_empty_parent nodes ≡ false
    → any (λ n. n.node_id === "") nodes ≡ false
    → Normal nodes (normalize_from index next nodes)
unfolding normalize_from
normalize_from-Normal index next [] parents ids = ([], (refl, refl))
normalize_from-Normal index next (node ∷ nodes) parents ids =
    let key = parent_key (parent_value node) in
    let fallback = or_else (get key next) 0 in
    let (n, (here, id)) = id-normalize_node node index fallback (ground arith) (ground arith) in
    let (ns, (later, rest)) =
      normalize_from-Normal (index + 1) (put key (fallback + 1) next) nodes (ground arith)
        (ground arith) in
    (n ∷ ns, (rw (here, later, normalize_from) refl, cc))

-- Without empty ids and parent ids, normalization succeeds and keeps the nodes' ids and their order.
pub normalize_nodes-Normal :
    (nodes : List DomNode)
    → any has_empty_parent nodes ≡ false
    → any (λ n. n.node_id === "") nodes ≡ false
    → (ns : List NormalizedNode) × ((normalize_nodes nodes ≡ some ns)
        × (map (λ n. n.id) ns ≡ map (λ n. n.node_id) nodes))
unfolding normalize_nodes
normalize_nodes-Normal nodes parents ids = normalize_from-Normal 0 [] nodes parents ids

semantic_equal_same :
    (left right : Json)
    → semantic_equal left right ≡ true
    → stable_stringify left ≡ stable_stringify right
unfolding semantic_equal
semantic_equal_same left right h =
    (string_key.same_iff (stable_stringify left) (stable_stringify right)).0 h

-- A field that a test keeps is in the list that is left.
filter_nil {ℓ} :
    {A : Type ℓ} (p : A → Bool) (x : A) (xs : List A)
    → filter p (x ∷ xs) ≡ []
    → (p x ≡ false) × (filter p xs ≡ [])
filter_nil p x xs h = elim (Bool-cases (p x)) [
  | inl kept ↦ absurd (ground arith)
  | inr left ↦ (left, ground arith)
]

equal_field :
    (f : Field) (before after : NormalizedNode)
    → (if semantic_equal (field_of f before) (field_of f after) then false else true) ≡ false
    → stable_stringify (field_of f before) ≡ stable_stringify (field_of f after)
equal_field f before after h =
    semantic_equal_same (field_of f before) (field_of f after) (ground arith)

-- Nodes without a changed field have the same canonical JSON of each field.
pub unchanged_fields :
    (before after : NormalizedNode)
    → changed_fields before after ≡ []
    → (stable_stringify before.tag ≡ stable_stringify after.tag)
      × (stable_stringify before.role ≡ stable_stringify after.role)
      × (stable_stringify before.name ≡ stable_stringify after.name)
      × (stable_stringify before.text ≡ stable_stringify after.text)
      × (stable_stringify before.attrs ≡ stable_stringify after.attrs)
      × (stable_stringify before.state ≡ stable_stringify after.state)
unfolding changed_fields
unchanged_fields before after h =
    let test = λ (f : Field).
      if semantic_equal (field_of f before) (field_of f after) then false else true in
    let (tag, h1) =
      filter_nil test Field.tag
        (Field.role ∷ Field.name ∷ Field.text ∷ Field.attrs ∷ Field.state ∷ []) h in
    let (role, h2) =
      filter_nil test Field.role (Field.name ∷ Field.text ∷ Field.attrs ∷ Field.state ∷ []) h1 in
    let (name, h3) = filter_nil test Field.name (Field.text ∷ Field.attrs ∷ Field.state ∷ []) h2 in
    let (text, h4) = filter_nil test Field.text (Field.attrs ∷ Field.state ∷ []) h3 in
    let (attrs, h5) = filter_nil test Field.attrs (Field.state ∷ []) h4 in
    let (state, _) = filter_nil test Field.state [] h5 in
    (
      equal_field Field.tag before after tag,
      equal_field Field.role before after role,
      equal_field Field.name before after name,
      equal_field Field.text before after text,
      equal_field Field.attrs before after attrs,
      equal_field Field.state before after state,
    )
