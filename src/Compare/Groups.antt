-- ===== src/Compare/Groups.antt =====
-- The groups of siblings: each holds its ids once, and each parent has one group.
use browser_bridge.Prelude.{
  ◌≡◌, refl, ◌∙◌, false, ◌||◌, List, [], ◌∷◌, ◌++◌, String, arith, or_else, Each, Bool-cases,
  Option-cases, inl, inr, ◌===◌, string_key,
}
use browser_bridge.Prelude.JsMap.{
  JsMap, get, has, Distinct, put-Distinct, Entries, put-Entries, get-Entries,
}
use browser_bridge.Nodes.{NormalizedNode, parent_key}
use browser_bridge.Compare.{
  Nodes, ids_of, contains, insert_sibling, sort_siblings, group_nodes, order_groups,
  group_ordered_ids,
}
use browser_bridge.Compare.Ranks.{IsUnique}

contains-insert_sibling :
    (id : String) (n : NormalizedNode) (nodes : Nodes)
    → contains (ids_of (insert_sibling n nodes)) id ≡ contains (ids_of (n ∷ nodes)) id
unfolding insert_sibling
contains-insert_sibling id n [] = refl
contains-insert_sibling id n (x ∷ nodes) = ground (arith, contains-insert_sibling id n nodes)

insert_sibling-IsUnique :
    (n : NormalizedNode) (nodes : Nodes)
    → contains (ids_of nodes) n.id ≡ false
    → IsUnique (ids_of nodes)
    → IsUnique (ids_of (insert_sibling n nodes))
unfolding insert_sibling
insert_sibling-IsUnique n [] h u = (refl, tt)
insert_sibling-IsUnique n (x ∷ nodes) h u = ground (
  arith,
  insert_sibling-IsUnique n nodes,
  contains-insert_sibling x.id n nodes,
  string_key.same_iff n.id x.id,
  string_key.same_iff x.id n.id,
)

contains-sort_siblings :
    (id : String) (nodes : Nodes)
    → contains (ids_of (sort_siblings nodes)) id ≡ contains (ids_of nodes) id
unfolding sort_siblings
contains-sort_siblings id [] = refl
contains-sort_siblings id (n ∷ nodes) =
    let rest = contains-sort_siblings id nodes in
    ground (arith, contains-insert_sibling id n (sort_siblings nodes))

sort_siblings-IsUnique :
    (nodes : Nodes) → IsUnique (ids_of nodes) → IsUnique (ids_of (sort_siblings nodes))
unfolding sort_siblings
sort_siblings-IsUnique [] u = tt
sort_siblings-IsUnique (n ∷ nodes) u =
    insert_sibling-IsUnique n (sort_siblings nodes) (contains-sort_siblings n.id nodes ∙ u.0)
      (sort_siblings-IsUnique nodes u.1)

-- A group that none of the remaining nodes is in yet.
abbrev Fits : Nodes → String → Nodes → Type 0
Fits remaining key g = IsUnique (ids_of g) × Each (λ n. contains (ids_of g) n.id ≡ false) remaining

Entries-map :
    (P Q : String → Nodes → Type 0) (m : JsMap String Nodes)
    → ((k : String) (g : Nodes) → P k g → Q k g)
    → Entries P m
    → Entries Q m
Entries-map P Q [] f h = tt
Entries-map P Q ((k, g) ∷ m) f h = (f k g h.0, Entries-map P Q m f h.1)

contains-append :
    (id : String) (n : NormalizedNode) (g : Nodes)
    → contains (ids_of (g ++ n ∷ [])) id ≡ (contains (ids_of g) id || (n.id === id))
contains-append id n [] = ground arith
contains-append id n (x ∷ g) = let rest = contains-append id n g in ground arith

IsUnique-append :
    (n : NormalizedNode) (g : Nodes)
    → contains (ids_of g) n.id ≡ false
    → IsUnique (ids_of g)
    → IsUnique (ids_of (g ++ n ∷ []))
IsUnique-append n [] h u = (refl, tt)
IsUnique-append n (x ∷ g) h u = ground (
  arith,
  IsUnique-append n g,
  contains-append x.id n g,
  string_key.same_iff n.id x.id,
  string_key.same_iff x.id n.id,
)

-- A remaining node has another id than the one that was put into the group.
append-Fits :
    (n : NormalizedNode) (g nodes : Nodes)
    → Each (λ r. contains (ids_of g) r.id ≡ false) nodes
    → contains (ids_of nodes) n.id ≡ false
    → Each (λ r. contains (ids_of (g ++ n ∷ [])) r.id ≡ false) nodes
append-Fits n g [] h other = tt
append-Fits n g (r ∷ nodes) h other =
    let here : contains (ids_of g) r.id ≡ false = h.0 in
    let differs : (r.id === n.id) ≡ false = ground arith in
    let rest : contains (ids_of nodes) n.id ≡ false = ground arith in
    (
      ground (
        arith,
        contains-append r.id n g,
        string_key.same_iff n.id r.id,
        string_key.same_iff r.id n.id,
      ),
      append-Fits n g nodes h.1 rest,
    )

nothing-Fits : (nodes : Nodes) → Each (λ r. contains [] r.id ≡ false) nodes
nothing-Fits [] = tt
nothing-Fits (n ∷ nodes) = (refl, nothing-Fits nodes)

old_group :
    (key : String) (remaining : Nodes) (groups : JsMap String Nodes)
    → Entries (Fits remaining) groups
    → Fits remaining key (or_else (get key groups) [])
old_group key remaining groups h = elim (Option-cases (get key groups)) [
  | inl e ↦ rw e (tt, nothing-Fits remaining)
  | inr (g, e) ↦ rw e (get-Entries (Fits remaining) key groups h e)
]

group_nodes-Entries :
    (included : List String) (nodes : Nodes) (groups : JsMap String Nodes)
    → IsUnique (ids_of nodes)
    → Entries (Fits nodes) groups
    → Entries (λ k g. IsUnique (ids_of g)) (group_nodes included nodes groups)
unfolding group_nodes
group_nodes-Entries included [] groups u h =
    Entries-map (Fits []) (λ k g. IsUnique (ids_of g)) groups (λ k g f. f.0) h
group_nodes-Entries included (n ∷ nodes) groups u h =
    let key = parent_key n.parent_id in
    let narrower = Entries-map (Fits (n ∷ nodes)) (Fits nodes) groups (λ k g f. (f.0, f.1.1)) h in
    let old = old_group key (n ∷ nodes) groups h in
    let g = or_else (get key groups) [] in
    let grown : Fits nodes key (g ++ n ∷ []) =
      (IsUnique-append n g old.1.0 old.0, append-Fits n g nodes old.1.1 u.0) in
    elim (Bool-cases (contains included n.id)) [
      | inl inside ↦ rw inside (
          group_nodes-Entries included nodes _ u.1
            (put-Entries (Fits nodes) key _ groups grown narrower))
      | inr outside ↦ rw outside (group_nodes-Entries included nodes groups u.1 narrower)
    ]

group_nodes-Distinct :
    (included : List String) (nodes : Nodes) (groups : JsMap String Nodes)
    → Distinct groups
    → Distinct (group_nodes included nodes groups)
unfolding group_nodes
group_nodes-Distinct included [] groups d = d
group_nodes-Distinct included (n ∷ nodes) groups d = elim (Bool-cases (contains included n.id)) [
  | inl inside ↦ rw inside (group_nodes-Distinct included nodes _ (put-Distinct _ _ groups d))
  | inr outside ↦ rw outside (group_nodes-Distinct included nodes groups d)
]

has-order_groups :
    (k : String) (groups : JsMap String Nodes) → has k (order_groups groups) ≡ has k groups
unfolding order_groups get
has-order_groups k [] = refl
has-order_groups k ((j, g) ∷ groups) = let rest = has-order_groups k groups in ground arith

order_groups-Distinct :
    (groups : JsMap String Nodes) → Distinct groups → Distinct (order_groups groups)
unfolding order_groups
order_groups-Distinct [] d = tt
order_groups-Distinct ((k, g) ∷ groups) d =
    (has-order_groups k groups ∙ d.0, order_groups-Distinct groups d.1)

order_groups-Entries :
    (groups : JsMap String Nodes)
    → Entries (λ k g. IsUnique (ids_of g)) groups
    → Entries (λ k ids. IsUnique ids) (order_groups groups)
unfolding order_groups
order_groups-Entries [] h = tt
order_groups-Entries ((k, g) ∷ groups) h =
    (sort_siblings-IsUnique g h.0, order_groups-Entries groups h.1)

-- The groups of nodes with unique ids.
pub group_ordered_ids-Entries :
    (nodes : Nodes) (included : List String)
    → IsUnique (ids_of nodes)
    → Entries (λ k ids. IsUnique ids) (group_ordered_ids nodes included)
unfolding group_ordered_ids
group_ordered_ids-Entries nodes included u =
    order_groups-Entries (group_nodes included nodes [])
      (group_nodes-Entries included nodes [] u tt)

pub group_ordered_ids-Distinct :
    (nodes : Nodes) (included : List String) → Distinct (group_ordered_ids nodes included)
unfolding group_ordered_ids
group_ordered_ids-Distinct nodes included =
    order_groups-Distinct (group_nodes included nodes [])
      (group_nodes-Distinct included nodes [] tt)
