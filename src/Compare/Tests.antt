-- ===== src/Compare/Tests.antt =====
-- Runs of the comparison, and the theorems at concrete inputs.
use browser_bridge.Prelude.{none, ◌≡◌, refl, true, [], ◌∷◌, Each, string_key}
use browser_bridge.Prelude.JsMap.{get, put, has}
use browser_bridge.Nodes.{blank_node, node_object}
use browser_bridge.Compare.{
  Nodes, sum_counts, ids_of, by_id, index_from, rank_from, moved_by_prior, mark_moved,
  moved_in_group, compare_nodes,
}
use browser_bridge.Compare.Ranks.{IsUnique}
use browser_bridge.Compare.Moves.{inverted_ids, inverted, moved_in_group-inverted_ids}
use browser_bridge.Compare.Unchanged.{compare_nodes-same}
use browser_bridge.Compare.Equal.{Survives, compare_nodes-equal}

comparisons : Unit {0}
unfolding index_from by_id rank_from moved_by_prior mark_moved moved_in_group get put inverted_ids
comparisons = tt

-- The last sibling has come to the front, and so all three have changed places.
rotated : moved_in_group ("a" ∷ "b" ∷ "c" ∷ []) ("c" ∷ "a" ∷ "b" ∷ []) ≡ "b" ∷ "a" ∷ "c" ∷ []
unfolding comparisons inverted
rotated = refl

-- A removed sibling moves nobody.
removed : moved_in_group ("a" ∷ "b" ∷ "c" ∷ []) ("a" ∷ "c" ∷ []) ≡ []
unfolding comparisons inverted
removed = refl

-- The first and the last of four change places.
ends_swapped :
    moved_in_group ("a" ∷ "b" ∷ "c" ∷ "d" ∷ []) ("b" ∷ "a" ∷ "c" ∷ "d" ∷ []) ≡ "a" ∷ "b" ∷ []
unfolding comparisons inverted
ends_swapped = refl

abbrev two_nodes : Nodes
two_nodes =
    node_object "a" none (blank_node "a") 0 0 ∷ node_object "b" none (blank_node "b") 1 1 ∷ []

moved_in_group-inverted_ids_example :
    moved_in_group ("a" ∷ "b" ∷ []) ("b" ∷ "a" ∷ []) ≡ "a" ∷ "b" ∷ []
unfolding comparisons inverted
moved_in_group-inverted_ids_example = moved_in_group-inverted_ids ("a" ∷ "b" ∷ []) ("b" ∷ "a" ∷ [])

two_nodes-IsUnique : IsUnique (ids_of two_nodes)
unfolding node_object
two_nodes-IsUnique = (refl, (refl, tt))

compare_nodes-same_example :
    ((compare_nodes two_nodes two_nodes 50).equal ≡ true)
    × (sum_counts (compare_nodes two_nodes two_nodes 50).counts ≡ 0)
compare_nodes-same_example = compare_nodes-same two_nodes 50 two_nodes-IsUnique

compare_nodes-equal_example :
    Each (λ n. has n.id (by_id two_nodes) ≡ true) two_nodes
    × Each (Survives (by_id two_nodes)) two_nodes
compare_nodes-equal_example =
    compare_nodes-equal two_nodes two_nodes 50 compare_nodes-same_example.0
