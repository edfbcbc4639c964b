-- ===== src/Compare/Moves.antt =====
-- A survivor is marked as moved exactly if it changed places with another survivor.
use browser_bridge.Prelude.{
  ℕ, ◌≡◌, refl, ap, max, Bool, ◌||◌, Option, none, some, List, [], ◌∷◌, ◌++◌, map, String, arith,
  ltb, if◌then◌else◌, any,
}
use browser_bridge.Compare.{
  moved_by_prior, above, lower, mark_moved, moved_in_group, rank_in, rank_from,
}

abbrev top : List ℕ → ℕ
top [] = 0
top (r ∷ ranks) = max (top ranks) r

abbrev least : List ℕ → Option ℕ
least [] = none
least (r ∷ ranks) = some (lower r (least ranks))

ltb-top : (r : ℕ) (ranks : List ℕ) → ltb r (top ranks) ≡ any (λ s. ltb r s) ranks
ltb-top r [] = ground arith
ltb-top r (s ∷ ranks) = let rest = ltb-top r ranks in ground arith

above-lower : (r s : ℕ) (m : Option ℕ) → above r (some (lower s m)) ≡ (ltb s r || above r m)
above-lower r s none = ground arith
above-lower r s (some l) = ground arith

above-least : (r : ℕ) (ranks : List ℕ) → above r (least ranks) ≡ any (λ s. ltb s r) ranks
above-least r [] = refl
above-least r (s ∷ ranks) = rw (above-lower r s (least ranks), above-least r ranks) refl

-- Did it overtake one that stood before it, or fall behind one that stood after it?
unfoldable pub inverted : List ℕ → ℕ → List ℕ → Bool
inverted seen r rest = any (λ s. ltb s r) rest || any (λ s. ltb r s) seen

-- The ids whose rank is inverted against the ranks seen so far or those to come, the last first.
unfoldable pub inverted_ids : (String → ℕ) → List ℕ → List String → List String
inverted_ids rank seen [] = []
inverted_ids rank seen (id ∷ ids) =
    let found = inverted_ids rank (rank id ∷ seen) ids in
    if inverted seen (rank id) (map rank ids) then found ++ id ∷ [] else found

mark_moved_lem :
    (rank : String → ℕ) (seen : List ℕ) (ids : List String)
    → mark_moved ids (map rank ids) (moved_by_prior (top seen) (map rank ids))
      ≡ (least (map rank ids), inverted_ids rank seen ids)
unfolding mark_moved moved_by_prior inverted_ids inverted
mark_moved_lem rank seen [] = refl
mark_moved_lem rank seen (id ∷ ids) =
    let rest = mark_moved_lem rank (rank id ∷ seen) ids in rw (rest, above-least, ltb-top) refl

-- The two sweeps of `findMovedRoots` over the ranks of a group of siblings mark exactly those ids
-- that overtook a sibling or fell behind one: the ids whose rank is below that of an id before them
-- or above that of an id after them.
pub moved_in_group-inverted_ids :
    (before_ids after_ids : List String)
    → moved_in_group before_ids after_ids
      ≡ inverted_ids (rank_in (rank_from 0 before_ids [])) [] after_ids
unfolding moved_in_group
moved_in_group-inverted_ids before_ids after_ids =
    ap (λ o. o.1) (mark_moved_lem (rank_in (rank_from 0 before_ids [])) [] after_ids)
