-- ===== src/Baselines/Comparing.antt =====
-- `compare` of the controller: a stored baseline against a current snapshot.
use browser_bridge.Prelude.{
  ℕ, ◌+◌, ◌≡◌, ◌<◌, refl, sym, subst, true, false, Option, none, some, List, [], ◌∷◌, map, String,
  arith, any, ltb, ◌===◌, string_key, ◌||◌, Bool-cases, inl, inr,
}
use browser_bridge.Prelude.JsMap.{get, eq_refl}
use browser_bridge.Nodes.{DomNode, NormalizedNode, normalize_nodes}
use browser_bridge.Compare.{Comparison, sum_counts, compare_nodes, contains}
use browser_bridge.Nodes.Unchanged.{normalize_nodes-Normal, has_empty_parent}
use browser_bridge.Compare.Ranks.{IsUnique}
use browser_bridge.Compare.Unchanged.{compare_nodes-same}
use browser_bridge.Baselines.{
  BaselineRecord, Store, Snapshot, SnapshotScope, CreateInput, Outcome, ok, throws, type_error,
  ◌>>=◌, ◌>>◌, require, invalidated, same_selector, check_node_ids, validate_snapshot,
  read_snapshot_scope, get_record, create, check_input, store_record, dom_baseline_ttl_ms,
}
use browser_bridge.Baselines.Invariant.{IsOk, prune_expired-Shrinks}
use browser_bridge.Baselines.Quota.{check_input-bytes}
use browser_bridge.Baselines.Creating.{create_cases, issue_cases, admit-issue}
use browser_bridge.Baselines.Reading.{create-get_record}

-- `assertSameScope`
unfoldable pub assert_same_scope : SnapshotScope → SnapshotScope → Outcome (Unit {0})
assert_same_scope expected current = do
  require (expected.document_token === current.document_token)
      (invalidated "document_token_mismatch")
  require (same_selector expected.selector current.selector) (invalidated "selector_mismatch")
  require (expected.representation === current.representation)
      (invalidated "representation_mismatch")

-- The result of `normalizeNodes`, or its TypeError.
unfoldable pub or_type_error {ℓ} : {A : Type ℓ} → Option A → Outcome A
or_type_error none = throws type_error
or_type_error (some a) = ok a

-- What follows the lookup of the record.
unfoldable pub compare_record : BaselineRecord → Snapshot → ℕ → Outcome Comparison
compare_record r current limit = do
  validate_snapshot current
  scope ← read_snapshot_scope current
  assert_same_scope r.scope.snapshot_scope scope
  before ← or_type_error (normalize_nodes r.snapshot.nodes)
  after ← or_type_error (normalize_nodes current.nodes)
  ok (compare_nodes before after limit)

unfoldable pub compare : String → Snapshot → ℕ → ℕ → Store → Store × Outcome Comparison
compare id current limit at st =
    let (st', found) = get_record id at st in (st', found >>= λ r. compare_record r current limit)

-- Ids that pass the check are unique.
check_node_ids-IsUnique :
    (seen ids : List String)
    → check_node_ids seen ids ≡ ok tt
    → IsUnique ids × ((other : String) → contains seen other ≡ true → contains ids other ≡ false)
unfolding check_node_ids
check_node_ids-IsUnique seen [] h = (tt, λ other k. refl)
check_node_ids-IsUnique seen (id ∷ ids) h =
    elim (Bool-cases ((id === "") || any (λ other. other === id) seen)) [
      | inl bad ↦ absurd (ground arith)
      | inr good ↦
          let rest : check_node_ids (id ∷ seen) ids ≡ ok tt = ground arith in
          let (unique, others) = check_node_ids-IsUnique (id ∷ seen) ids rest in
          (
            (others id (ground (arith, eq_refl id)), unique),
            λ other k. ground (arith, others other (ground arith), string_key.same_iff id other),
          )
    ]

-- No id that passes the check is empty.
check_node_ids_named :
    (seen : List String) (nodes : List DomNode)
    → check_node_ids seen (map (λ n. n.node_id) nodes) ≡ ok tt
    → any (λ n. n.node_id === "") nodes ≡ false
unfolding check_node_ids
check_node_ids_named seen [] h = refl
check_node_ids_named seen (node ∷ nodes) h =
    elim (Bool-cases ((node.node_id === "") || any (λ other. other === node.node_id) seen)) [
      | inl bad ↦ absurd (ground arith)
      | inr good ↦
          let rest = check_node_ids_named (node.node_id ∷ seen) nodes (ground arith) in ground arith
    ]

-- What a snapshot that `create` accepts has passed.
check_input-passed :
    (input : CreateInput) (scope : SnapshotScope)
    → check_input input ≡ ok scope
    → (read_snapshot_scope input.snapshot ≡ ok scope)
      × (check_node_ids [] (map (λ n. n.node_id) input.snapshot.nodes) ≡ ok tt)
unfolding check_input validate_snapshot
check_input-passed input scope h = ground arith

same_selector_refl : (selector : Option String) → same_selector selector selector ≡ true
same_selector_refl none = refl
same_selector_refl (some a) = eq_refl a

assert_same_scope_refl : (scope : SnapshotScope) → assert_same_scope scope scope ≡ ok tt
unfolding assert_same_scope
assert_same_scope_refl scope =
    let same : same_selector scope.selector scope.selector ≡ true =
      same_selector_refl scope.selector in
    rw (eq_refl scope.document_token, same, eq_refl scope.representation) refl

-- A record that `create` returns holds the snapshot and the scope that passed the checks.
abbrev Origin : CreateInput → Store × Outcome BaselineRecord → Type 0
Origin input (st, throws e) = Unit
Origin input (st, ok r) =
    (r.snapshot ≡ input.snapshot) × (check_input input ≡ ok r.scope.snapshot_scope)

create-Origin :
    (input : CreateInput) (now : ℕ) (st : Store) → IsOk st → Origin input (create input now st)
unfolding store_record
create-Origin input now st sound =
    let pruned = prune_expired-Shrinks now st sound in
    create_cases (Origin input) input now st (λ e h. tt)
      (λ scope h.
        rw (admit-issue input scope now _ pruned.sound (check_input-bytes input h))
          (issue_cases (Origin input) input scope now _ _ (λ e k. tt) (λ id k. (refl, h))))

compare_record-same :
    (input : CreateInput) (r : BaselineRecord) (limit : ℕ) (nodes : List NormalizedNode)
    → r.snapshot ≡ input.snapshot
    → check_input input ≡ ok r.scope.snapshot_scope
    → normalize_nodes input.snapshot.nodes ≡ some nodes
    → compare_record r input.snapshot limit ≡ ok (compare_nodes nodes nodes limit)
unfolding compare_record validate_snapshot or_type_error
compare_record-same input r limit nodes same passed normal =
    let (scope, unique) = check_input-passed input r.scope.snapshot_scope passed in
    rw (same, scope)
      (rw (unique, assert_same_scope_refl r.scope.snapshot_scope) (rw (normal, or_type_error) refl))

-- In a store with right accounts, a baseline that was just created from a snapshot without an empty
-- parent id, and is compared with the same snapshot before it expires, is found equal to it, with no
-- change of any kind, if its id is not marked as invalidated.
pub create-compare :
    (input : CreateInput) (now at limit : ℕ) (st st' : Store) (r : BaselineRecord)
    → IsOk st
    → create input now st ≡ (st', ok r)
    → get r.baseline_id st'.invalidated_records ≡ none
    → at < now + dom_baseline_ttl_ms
    → any has_empty_parent input.snapshot.nodes ≡ false
    → (c : Comparison) × ((compare r.baseline_id input.snapshot limit at st').1 ≡ ok c)
      × (c.equal ≡ true)
      × (sum_counts c.counts ≡ 0)
unfolding compare
create-compare input now at limit st st' r sound e unmarked early parents =
    let (snapshot, passed) = subst (Origin input) e (create-Origin input now st sound) in
    let live : ltb at (now + dom_baseline_ttl_ms) ≡ true = ground arith in
    let found : (get_record r.baseline_id at st').1 ≡ ok r =
      rw live at (create-get_record input now at st st' r sound e unmarked) in
    let ids = (check_input-passed input r.scope.snapshot_scope passed).1 in
    let (nodes, (normalized, same_ids)) =
      normalize_nodes-Normal input.snapshot.nodes parents (check_node_ids_named [] _ ids) in
    let normal = subst IsUnique (sym same_ids) (check_node_ids-IsUnique [] _ ids).0 in
    let (equal, none_found) = compare_nodes-same nodes limit normal in
    (
      compare_nodes nodes nodes limit,
      rw found (compare_record-same input r limit nodes snapshot passed normalized),
      equal,
      none_found,
    )
