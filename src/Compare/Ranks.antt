-- ===== src/Compare/Ranks.antt =====
-- Unique ids: the index by id, and the ranks of a group in an unchanged order.
use browser_bridge.Prelude.{
  ℕ, ◌+◌, ◌≤◌, ◌<◌, ◌≡◌, refl, ◌∙◌, false, some, List, [], ◌∷◌, map, String, arith, ltb, any, Each,
  string_key,
}
use browser_bridge.Prelude.JsMap.{JsMap, get, put, get-put, get-put_self}
use browser_bridge.Nodes.{NormalizedNode}
use browser_bridge.Compare.{
  Nodes, ids_of, contains, index_from, by_id, rank_from, rank_in, moved_in_group,
}
use browser_bridge.Compare.Moves.{inverted_ids, inverted, moved_in_group-inverted_ids}

abbrev pub IsUnique : List String → Type 0
IsUnique [] = Unit
IsUnique (id ∷ ids) = (contains ids id ≡ false) × IsUnique ids

-- An id that is not among them is left alone by the index.
get-index_from :
    (id : String) (m : JsMap String NormalizedNode) (nodes : Nodes)
    → contains (ids_of nodes) id ≡ false
    → get id (index_from m nodes) ≡ get id m
unfolding index_from
get-index_from id m [] h = refl
get-index_from id m (n ∷ nodes) h =
    let rest = get-index_from id (put n.id n m) nodes (ground arith) in
    ground (arith, rest, get-put n.id id n m)

index_from-Each :
    (m : JsMap String NormalizedNode) (nodes : Nodes)
    → IsUnique (ids_of nodes)
    → Each (λ n. get n.id (index_from m nodes) ≡ some n) nodes
unfolding index_from
index_from-Each m [] u = tt
index_from-Each m (n ∷ nodes) u = (
  rw (get-index_from n.id (put n.id n m) nodes u.0) (get-put_self n.id n m),
  index_from-Each (put n.id n m) nodes u.1,
)

-- With unique ids the index gives each node back.
pub by_id-Each :
    (nodes : Nodes) → IsUnique (ids_of nodes) → Each (λ n. get n.id (by_id nodes) ≡ some n) nodes
unfolding by_id
by_id-Each nodes u = index_from-Each [] nodes u

get-rank_from :
    (id : String) (index : ℕ) (ids : List String) (m : JsMap String ℕ)
    → contains ids id ≡ false
    → get id (rank_from index ids m) ≡ get id m
unfolding rank_from
get-rank_from id index [] m h = refl
get-rank_from id index (i ∷ ids) m h =
    let rest = get-rank_from id (index + 1) ids (put i index m) (ground arith) in
    ground (arith, rest, get-put i id index m)

abbrev up_from : ℕ → List String → List ℕ
up_from index [] = []
up_from index (id ∷ ids) = (index + 1) ∷ up_from (index + 1) ids

rank_in-found :
    (id : String) (rank : ℕ) (m : JsMap String ℕ) → get id m ≡ some rank → rank_in m id ≡ rank + 1
rank_in-found id rank m h = rw (h, rank_in) refl

-- The ranks of unique ids in their own order go up by one.
rank_from-up_from :
    (index : ℕ) (ids : List String) (m : JsMap String ℕ)
    → IsUnique ids
    → map (rank_in (rank_from index ids m)) ids ≡ up_from index ids
unfolding rank_from
rank_from-up_from index [] m u = refl
rank_from-up_from index (id ∷ ids) m u =
    let first = get-rank_from id (index + 1) ids (put id index m) u.0 in
    let rest = rank_from-up_from (index + 1) ids (put id index m) u.1 in
    let here =
      rank_in-found id index (rank_from (index + 1) ids (put id index m))
        (first ∙ get-put_self id index m) in
    cc

-- Ranks that go up from a bound have nothing inverted.
abbrev Above : ℕ → List ℕ → Type 0
Above b ranks = Each (λ r. b < r) ranks

abbrev Below : ℕ → List ℕ → Type 0
Below b ranks = Each (λ r. r ≤ b) ranks

up_from-Above : (b index : ℕ) (ids : List String) → b ≤ index → Above b (up_from index ids)
up_from-Above b index [] h = tt
up_from-Above b index (id ∷ ids) h = (omega arith, up_from-Above b (index + 1) ids (omega arith))

any-Above :
    (b r : ℕ) (ranks : List ℕ) → Above b ranks → r ≤ b + 1 → any (λ s. ltb s r) ranks ≡ false
any-Above b r [] h le = refl
any-Above b r (s ∷ ranks) h le =
    let rest = any-Above b r ranks h.1 le in let low = h.0 in ground arith

any-Below : (b r : ℕ) (ranks : List ℕ) → Below b ranks → b ≤ r → any (λ s. ltb r s) ranks ≡ false
any-Below b r [] h le = refl
any-Below b r (s ∷ ranks) h le =
    let rest = any-Below b r ranks h.1 le in let low = h.0 in ground arith

Below-le : (b c : ℕ) (ranks : List ℕ) → b ≤ c → Below b ranks → Below c ranks
Below-le b c [] le h = tt
Below-le b c (r ∷ ranks) le h = let low = h.0 in (omega arith, Below-le b c ranks le h.1)

none_inverted :
    (rank : String → ℕ) (seen : List ℕ) (index : ℕ) (ids : List String)
    → map rank ids ≡ up_from index ids
    → Below index seen
    → inverted_ids rank seen ids ≡ []
unfolding inverted_ids inverted
none_inverted rank seen index [] h below = refl
none_inverted rank seen index (id ∷ ids) h below =
    let here : rank id ≡ index + 1 = ground arith in
    let rest : map rank ids ≡ up_from (index + 1) ids = ground arith in
    let grown : Below (index + 1) (rank id ∷ seen) =
      (omega arith, Below-le index (index + 1) seen (omega arith) below) in
    let none_later = none_inverted rank (rank id ∷ seen) (index + 1) ids rest grown in
    let later : any (λ s. ltb s (rank id)) (map rank ids) ≡ false = rw rest (
      any-Above (index + 1) (rank id) (up_from (index + 1) ids)
        (up_from-Above (index + 1) (index + 1) ids (omega arith)) (omega arith)) in
    let earlier = any-Below index (rank id) seen below (omega arith) in
    rw (later, earlier, none_later) refl

-- A group in an unchanged order has no moves.
pub moved_in_group-same : (ids : List String) → IsUnique ids → moved_in_group ids ids ≡ []
moved_in_group-same ids u =
    moved_in_group-inverted_ids ids ids
    ∙ none_inverted (rank_in (rank_from 0 ids [])) [] 0 ids (rank_from-up_from 0 ids [] u) tt
