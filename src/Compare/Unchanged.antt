-- ===== src/Compare/Unchanged.antt =====
-- Comparing a snapshot with itself, and what an equal comparison says.
use browser_bridge.Prelude.{
  ℕ, ◌≡◌, refl, true, false, not, Option, none, some, List, [], ◌∷◌, String, arith, filter,
  filter_none, Each, string_key,
}
use browser_bridge.Prelude.JsMap.{JsMap, get, has, eq_refl, Distinct, Entries}
use browser_bridge.Nodes.{NormalizedNode}
use browser_bridge.Nodes.Unchanged.{changed_fields_refl}
use browser_bridge.Compare.{
  Nodes, ids_of, contains, by_id, group_ordered_ids, moved_in_groups, find_moved_roots, same_parent,
  changes_parent, keeps_parent, survivors, changed_evidence, moved_evidence, find_differences,
  bound_differences, compare_nodes, sum_counts,
}
use browser_bridge.Compare.Ranks.{IsUnique, by_id-Each, moved_in_group-same}
use browser_bridge.Compare.Groups.{group_ordered_ids-Entries, group_ordered_ids-Distinct}

get_below :
    (k : String) (ids : List String) (m all : JsMap String (List String))
    → Entries (λ j v. get j all ≡ some v) m
    → has k m ≡ false
    → Entries (λ j v. get j ((k, ids) ∷ all) ≡ some v) m
unfolding get
get_below k ids [] all h fresh = tt
get_below k ids ((j, v) ∷ m) all h fresh =
    let here = h.0 in
    (
      ground (arith, string_key.same_iff k j, string_key.same_iff j k),
      get_below k ids m all h.1 (ground arith),
    )

-- With one group for each parent, the lookup of a parent gives its own group.
Entries-get :
    (m : JsMap String (List String)) → Distinct m → Entries (λ k ids. get k m ≡ some ids) m
unfolding get
Entries-get [] d = tt
Entries-get ((k, ids) ∷ m) d =
    (ground (arith, eq_refl k), get_below k ids m m (Entries-get m d.1) d.0)

moved_in_groups-same :
    (groups all : JsMap String (List String))
    → Entries (λ k ids. IsUnique ids) groups
    → Entries (λ k ids. get k all ≡ some ids) groups
    → moved_in_groups groups all ≡ []
unfolding moved_in_groups
moved_in_groups-same [] all u h = refl
moved_in_groups-same ((k, ids) ∷ groups) all u h =
    rw (h.0, moved_in_group-same ids u.0) (moved_in_groups-same groups all u.1 h.1)

same_parent_refl : (p : Option String) → same_parent p p ≡ true
same_parent_refl none = refl
same_parent_refl (some a) = eq_refl a

no_parent_changes :
    (m : JsMap String NormalizedNode) (nodes : Nodes)
    → Each (λ n. get n.id m ≡ some n) nodes
    → filter (changes_parent m) nodes ≡ []
no_parent_changes m [] h = refl
no_parent_changes m (n ∷ nodes) h =
    let rest = no_parent_changes m nodes h.1 in
    let here = h.0 in rw (here, changes_parent) (rw (same_parent_refl n.parent_id) rest)

find_moved_roots-same :
    (nodes : Nodes) → IsUnique (ids_of nodes) → find_moved_roots nodes nodes (by_id nodes) ≡ []
unfolding find_moved_roots
find_moved_roots-same nodes u =
    let stable = ids_of (filter (keeps_parent (by_id nodes)) nodes) in
    let groups = group_ordered_ids nodes stable in
    rw (no_parent_changes (by_id nodes) nodes (by_id-Each nodes u)) (
      moved_in_groups-same groups groups (group_ordered_ids-Entries nodes stable u)
        (Entries-get groups (group_ordered_ids-Distinct nodes stable)))

nothing_new :
    (m : JsMap String NormalizedNode) (nodes : Nodes)
    → Each (λ n. get n.id m ≡ some n) nodes
    → filter (λ n. not (has n.id m)) nodes ≡ []
nothing_new m [] h = refl
nothing_new m (n ∷ nodes) h =
    let here : has n.id m ≡ true = rw h.0 refl in rw here (nothing_new m nodes h.1)

none_changed :
    (m : JsMap String NormalizedNode) (nodes : Nodes)
    → Each (λ n. get n.id m ≡ some n) nodes
    → survivors true m nodes ≡ []
unfolding survivors
none_changed m [] h = refl
none_changed m (n ∷ nodes) h =
    rw (h.0, survivors) (rw (changed_fields_refl n) (none_changed m nodes h.1))

-- Comparing a snapshot whose node ids are unique with itself finds it equal: nothing is added,
-- removed, changed or moved, whatever the limit is.
pub compare_nodes-same :
    (nodes : Nodes) (limit : ℕ)
    → IsUnique (ids_of nodes)
    → ((compare_nodes nodes nodes limit).equal ≡ true)
      × (sum_counts (compare_nodes nodes nodes limit).counts ≡ 0)
unfolding compare_nodes bound_differences find_differences changed_evidence moved_evidence
compare_nodes-same nodes limit u =
    let all = by_id-Each nodes u in
    let new = nothing_new (by_id nodes) nodes all in
    let changed = none_changed (by_id nodes) nodes all in
    let moved = find_moved_roots-same nodes u in
    let unmoved = filter_none (λ n. contains [] n.id) nodes (λ n. refl) in
    rw (new, changed, moved, unmoved) (refl, refl)
