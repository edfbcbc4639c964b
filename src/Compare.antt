-- ===== src/Compare.antt =====
-- packages/extension/src/background-dom-baselines.ts: `compare`, which describes the changes from a
-- stored snapshot to a current one. A set of ids is the list of what was added to it, since it is
-- only asked for its members. The guidance, a text for each of two tests that are reported beside
-- it, is left out.
pub mod Moves
pub mod Limit
pub mod Ranks
pub mod Groups
pub mod Unchanged
pub mod Equal
pub mod Tests
use browser_bridge.Prelude.{
  ℕ, zero, suc, ◌+◌, ◌-◌, min, max, Bool, true, false, not, ◌&&◌, ◌||◌, Option, none, some, List,
  [], ◌∷◌, ◌++◌, map, String, ltb, leb, eqb, if◌then◌else◌, or_else, length, filter, any, Key,
  ◌===◌, string_key,
}
use browser_bridge.Prelude.JsMap.{JsMap, size, get, has, put}
use browser_bridge.Nodes.{
  NormalizedNode, NodeEvidence, Field, parent_key, changed_fields, to_evidence, Json, Items,
  stable_stringify,
}

abbrev pub Nodes : Type 0
Nodes = List NormalizedNode

abbrev pub ids_of : Nodes → List String
ids_of nodes = map (λ n. n.id) nodes

abbrev pub contains : List String → String → Bool
contains ids id = any (λ other. other === id) ids

-- `new Map(nodes.map((node) => [node.id, node]))`
pub index_from : JsMap String NormalizedNode → Nodes → JsMap String NormalizedNode
index_from m [] = m
index_from m (n ∷ nodes) = index_from (put n.id n m) nodes

pub by_id : Nodes → JsMap String NormalizedNode
by_id nodes = index_from [] nodes

abbrev pub same_parent : Option String → Option String → Bool
same_parent none none = true
same_parent (some a) (some b) = a === b
same_parent _ _ = false

-- `left.siblingIndex - right.siblingIndex || left.sourceIndex - right.sourceIndex`
abbrev pub comes_first : NormalizedNode → NormalizedNode → Bool
comes_first l r =
    ltb l.sibling_index r.sibling_index
    || (eqb l.sibling_index r.sibling_index && leb l.source_index r.source_index)

pub insert_sibling : NormalizedNode → Nodes → Nodes
insert_sibling n [] = n ∷ []
insert_sibling n (x ∷ xs) = if comes_first n x then n ∷ x ∷ xs else x ∷ insert_sibling n xs

pub sort_siblings : Nodes → Nodes
sort_siblings [] = []
sort_siblings (n ∷ nodes) = insert_sibling n (sort_siblings nodes)

-- The first loop of `groupOrderedIds`.
pub group_nodes : List String → Nodes → JsMap String Nodes → JsMap String Nodes
group_nodes included [] groups = groups
group_nodes included (n ∷ nodes) groups =
    let key = parent_key n.parent_id in
    let grown =
      group_nodes included nodes (put key (or_else (get key groups) [] ++ n ∷ []) groups) in
    let same = group_nodes included nodes groups in if contains included n.id then grown else same

pub order_groups : JsMap String Nodes → JsMap String (List String)
order_groups [] = []
order_groups ((key, group) ∷ groups) = (key, ids_of (sort_siblings group)) ∷ order_groups groups

pub group_ordered_ids : Nodes → List String → JsMap String (List String)
group_ordered_ids nodes included = order_groups (group_nodes included nodes [])

-- `new Map(ids.map((id, index) => [id, index]))`
pub rank_from : ℕ → List String → JsMap String ℕ → JsMap String ℕ
rank_from index [] m = m
rank_from index (id ∷ ids) m = rank_from (index + 1) ids (put id index m)

-- Ranks are held one higher than in the source, so that its -1 is 0.
abbrev pub rank_in : JsMap String ℕ → String → ℕ
rank_in old_rank id = elim (get id old_rank) [ none ↦ 0 | some rank ↦ rank + 1 ]

-- The loop with `prefixMax`.
pub moved_by_prior : ℕ → List ℕ → List Bool
moved_by_prior prefix_max [] = []
moved_by_prior prefix_max (rank ∷ ranks) =
    ltb rank prefix_max ∷ moved_by_prior (max prefix_max rank) ranks

-- `rank > suffixMin`, where no minimum is the infinite one.
abbrev pub above : ℕ → Option ℕ → Bool
above rank none = false
above rank (some least) = ltb least rank

abbrev pub lower : ℕ → Option ℕ → ℕ
lower rank none = rank
lower rank (some least) = min least rank

-- The loop with `suffixMin`, from the last id to the first.
pub mark_moved : List String → List ℕ → List Bool → Option ℕ × List String
mark_moved (id ∷ ids) (rank ∷ ranks) (moved ∷ prior) =
    let (suffix_min, found) = mark_moved ids ranks prior in
    (
      some (lower rank suffix_min),
      if above rank suffix_min || moved then found ++ id ∷ [] else found,
    )
mark_moved _ _ _ = (none, [])

pub moved_in_group : List String → List String → List String
moved_in_group before_ids after_ids =
    let ranks = map (rank_in (rank_from 0 before_ids [])) after_ids in
    (mark_moved after_ids ranks (moved_by_prior 0 ranks)).1

pub moved_in_groups : JsMap String (List String) → JsMap String (List String) → List String
moved_in_groups [] after_groups = []
moved_in_groups ((parent, before_ids) ∷ groups) after_groups =
    moved_in_group before_ids (or_else (get parent after_groups) [])
    ++ moved_in_groups groups after_groups

-- What a surviving node has for a parent, compared with before.
abbrev pub keeps_parent : JsMap String NormalizedNode → NormalizedNode → Bool
keeps_parent after_by_id n = elim (get n.id after_by_id) [
  | none ↦ false
  | some after ↦ same_parent after.parent_id n.parent_id
]

abbrev pub changes_parent : JsMap String NormalizedNode → NormalizedNode → Bool
changes_parent after_by_id n = elim (get n.id after_by_id) [
  | none ↦ false
  | some after ↦ not (same_parent after.parent_id n.parent_id)
]

pub find_moved_roots : Nodes → Nodes → JsMap String NormalizedNode → List String
find_moved_roots before after after_by_id =
    let stable = ids_of (filter (keeps_parent after_by_id) before) in
    ids_of (filter (changes_parent after_by_id) before)
    ++ moved_in_groups (group_ordered_ids before stable) (group_ordered_ids after stable)

pub record Changed : Type 0 where
  pub before : NodeEvidence
  pub after : NodeEvidence
  pub fields : List Field

pub record Moved : Type 0 where
  pub node : NodeEvidence
  pub from_ancestry : List String
  pub from_order : ℕ
  pub to_ancestry : List String
  pub to_order : ℕ

-- The survivors with a changed field, and the others.
pub survivors : Bool → JsMap String NormalizedNode → Nodes → Nodes
survivors changed after_by_id [] = []
survivors changed after_by_id (n ∷ nodes) = elim (get n.id after_by_id) [
  | none ↦ survivors changed after_by_id nodes
  | some after ↦
      if (if ltb 0 (length (changed_fields n after)) then changed else not changed)
      then n ∷ survivors changed after_by_id nodes
      else survivors changed after_by_id nodes
]

pub changed_evidence : JsMap String NormalizedNode → Nodes → List Changed
changed_evidence after_by_id [] = []
changed_evidence after_by_id (n ∷ nodes) = elim (get n.id after_by_id) [
  | none ↦ changed_evidence after_by_id nodes
  | some after ↦
      record { before = to_evidence n; after = to_evidence after; fields = changed_fields n after }
      ∷ changed_evidence after_by_id nodes
]

pub moved_evidence : JsMap String NormalizedNode → Nodes → List Moved
moved_evidence before_by_id [] = []
moved_evidence before_by_id (n ∷ nodes) = elim (get n.id before_by_id) [
  | none ↦ moved_evidence before_by_id nodes
  | some before ↦
      record {
        node = to_evidence n;
        from_ancestry = before.ancestry;
        from_order = before.order;
        to_ancestry = n.ancestry;
        to_order = n.order;
      }
      ∷ moved_evidence before_by_id nodes
]

abbrev ancestry_items : List String → Items
ancestry_items [] = Items.nil
ancestry_items (id ∷ ids) = Items.cons (Json.text id) (ancestry_items ids)

pub signature : NormalizedNode → String
signature n = stable_stringify (
    Json.array (
      Items.cons n.tag (
        Items.cons n.role (
          Items.cons n.name (
            Items.cons n.text (
              Items.cons n.attrs (
                Items.cons n.state
                  (Items.cons (Json.array (ancestry_items n.ancestry)) Items.nil))))))))

pub add_signatures : Nodes → JsMap String Nodes → JsMap String Nodes
add_signatures [] target = target
add_signatures (n ∷ nodes) target =
    let s = signature n in add_signatures nodes (put s (or_else (get s target) [] ++ n ∷ []) target)

-- `items.slice(0, Math.max(0, limit))`
pub take_bounded {ℓ} : {A : Type ℓ} → List A → ℕ → List A
take_bounded items zero = []
take_bounded [] (suc limit) = []
take_bounded (item ∷ items) (suc limit) = item ∷ take_bounded items limit

pub record Ambiguity : Type 0 where
  pub count : ℕ
  pub examples : List NodeEvidence

pub pair_signatures : JsMap String Nodes → JsMap String Nodes → Ambiguity
pair_signatures [] added = record { count = 0; examples = [] }
pair_signatures ((s, removed_nodes) ∷ removed) added =
    let added_nodes = or_else (get s added) [] in
    let candidates = min (length removed_nodes) (length added_nodes) in
    let rest = pair_signatures removed added in
    record {
      count = candidates + rest.count;
      examples = map to_evidence (take_bounded added_nodes candidates) ++ rest.examples;
    }

pub find_ambiguities : Nodes → Nodes → Ambiguity
find_ambiguities removed added =
    pair_signatures (add_signatures removed []) (add_signatures added [])

abbrev pub ambiguity_example_limit : ℕ
ambiguity_example_limit = 5

pub record Counts : Type 0 where
  pub added : ℕ
  pub removed : ℕ
  pub changed : ℕ
  pub moved : ℕ

abbrev pub sum_counts : Counts → ℕ
sum_counts c = c.added + (c.removed + (c.changed + c.moved))

pub record Comparison : Type 0 where
  pub equal : Bool
  pub counts : Counts
  pub unchanged : ℕ
  pub total : ℕ
  pub returned_counts : Counts
  pub added : List NodeEvidence
  pub removed : List NodeEvidence
  pub changed : List Changed
  pub moved : List Moved
  pub truncated : Bool
  pub omitted_changes : ℕ
  pub ambiguity : Ambiguity

-- What is found, before the limit is applied.
pub record Differences : Type 0 where
  pub added : Nodes
  pub removed : Nodes
  pub changed : List Changed
  pub moved : List Moved
  pub unchanged : ℕ
  pub total : ℕ

pub find_differences : Nodes → Nodes → Differences
find_differences before after =
    let before_by_id = by_id before in
    let after_by_id = by_id after in
    let added = filter (λ n. not (has n.id before_by_id)) after in
    let changed = survivors true after_by_id before in
    let moved_ids = find_moved_roots before after after_by_id in
    let touched = ids_of changed ++ moved_ids in
    record {
      added = added;
      removed = filter (λ n. not (has n.id after_by_id)) before;
      changed = changed_evidence after_by_id changed;
      moved = moved_evidence before_by_id (filter (λ n. contains moved_ids n.id) after);
      unchanged =
          length (filter (λ n. not (contains touched n.id)) (survivors false after_by_id before));
      total = size (index_from before_by_id after);
    }

-- The counts, and as much of the evidence as the limit allows.
pub bound_differences : Differences → ℕ → Comparison
bound_differences d limit =
    let added = take_bounded d.added limit in
    let removed = take_bounded d.removed (limit - length added) in
    let changed = take_bounded d.changed (limit - length added - length removed) in
    let moved = take_bounded d.moved (limit - length added - length removed - length changed) in
    let remaining = limit - length added - length removed - length changed - length moved in
    let counts : Counts = record {
      added = length d.added;
      removed = length d.removed;
      changed = length d.changed;
      moved = length d.moved;
    } in
    let returned : Counts = record {
      added = length added;
      removed = length removed;
      changed = length changed;
      moved = length moved;
    } in
    let omitted = sum_counts counts - sum_counts returned in
    let ambiguity = find_ambiguities d.removed d.added in
    record {
      equal = eqb (sum_counts counts) 0;
      counts = counts;
      unchanged = d.unchanged;
      total = d.total;
      returned_counts = returned;
      added = map to_evidence added;
      removed = map to_evidence removed;
      changed = changed;
      moved = moved;
      truncated = ltb 0 omitted;
      omitted_changes = omitted;
      ambiguity = record {
        count = ambiguity.count;
        examples = take_bounded ambiguity.examples (min ambiguity_example_limit remaining);
      };
    }

pub compare_nodes : Nodes → Nodes → ℕ → Comparison
compare_nodes before after limit = bound_differences (find_differences before after) limit
