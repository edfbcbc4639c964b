-- ===== src/Compare/Equal.antt =====
-- What an equal comparison says of the two snapshots.
use browser_bridge.Prelude.{
  ℕ, ◌≡◌, refl, true, not, some, List, [], ◌∷◌, String, arith, ltb, filter, length, Each,
  Bool-cases, Option-cases, inl, inr, string_key,
}
use browser_bridge.Prelude.JsMap.{JsMap, get, has}
use browser_bridge.Nodes.{NormalizedNode, Field, changed_fields, stable_stringify}
use browser_bridge.Nodes.Unchanged.{unchanged_fields}
use browser_bridge.Compare.{
  Nodes, by_id, survivors, changed_evidence, find_differences, bound_differences, compare_nodes,
}

-- Two nodes with the same value, as canonical JSON, of each semantic field.
pub record SameFields (before after : NormalizedNode) : Type 0 where
  pub tag : stable_stringify before.tag ≡ stable_stringify after.tag
  pub role : stable_stringify before.role ≡ stable_stringify after.role
  pub name : stable_stringify before.name ≡ stable_stringify after.name
  pub text : stable_stringify before.text ≡ stable_stringify after.text
  pub attrs : stable_stringify before.attrs ≡ stable_stringify after.attrs
  pub state : stable_stringify before.state ≡ stable_stringify after.state

-- The node survives with the same fields.
abbrev pub Survives : JsMap String NormalizedNode → NormalizedNode → Type 0
Survives after_by_id n =
    (after : NormalizedNode) × (get n.id after_by_id ≡ some after) × SameFields n after

none_new :
    (m : JsMap String NormalizedNode) (nodes : Nodes)
    → length (filter (λ n. not (has n.id m)) nodes) ≡ 0
    → Each (λ n. has n.id m ≡ true) nodes
none_new m [] h = tt
none_new m (n ∷ nodes) h = elim (Bool-cases (has n.id m)) [
  | inl here ↦ (here, none_new m nodes (ground arith))
  | inr gone ↦ absurd (ground arith)
]

no_fields : (fields : List Field) → length fields ≡ 0 → fields ≡ []
no_fields [] h = refl
no_fields (f ∷ fields) h = absurd (omega arith)

unchanged-SameFields :
    (before after : NormalizedNode) → changed_fields before after ≡ [] → SameFields before after
unchanged-SameFields before after h =
    let (tag, role, name, text, attrs, state) = unchanged_fields before after h in
    record { tag = tag; role = role; name = name; text = text; attrs = attrs; state = state }

all_survive :
    (m : JsMap String NormalizedNode) (nodes : Nodes)
    → Each (λ n. has n.id m ≡ true) nodes
    → length (changed_evidence m (survivors true m nodes)) ≡ 0
    → Each (Survives m) nodes
unfolding survivors changed_evidence
all_survive m [] here h = tt
all_survive m (n ∷ nodes) here h = elim (Option-cases (get n.id m)) [
  | inl e ↦ absurd (ground arith)
  | inr (after, e) ↦
      let left = rw (e, survivors) at h in
      elim (Bool-cases (ltb 0 (length (changed_fields n after)))) [
        | inl changed ↦
            let found = rw changed at left in
            let counted = rw (e, changed_evidence) at found in absurd (omega arith)
        | inr same ↦ (
          (
            after,
            e,
            unchanged-SameFields n after (no_fields (changed_fields n after) (ground arith)),
          ),
          all_survive m nodes here.1 (rw same at left),
        )
      ]
]

-- A comparison that reports the snapshots as equal is right: every node of the current snapshot was
-- there before, and every node of the baseline is still there, with the same canonical JSON of each
-- of its tag, role, name, text, attributes and state.
pub compare_nodes-equal :
    (before after : Nodes) (limit : ℕ)
    → (compare_nodes before after limit).equal ≡ true
    → Each (λ n. has n.id (by_id before) ≡ true) after × Each (Survives (by_id after)) before
unfolding compare_nodes bound_differences find_differences
compare_nodes-equal before after limit h =
    let new = none_new (by_id before) after (ground arith) in
    let here = none_new (by_id after) before (ground arith) in
    (new, all_survive (by_id after) before here (ground arith))
