-- ===== src/Registry/Tests.antt =====
-- Runs of the registry on a page of numbered elements, and the theorems at concrete inputs.
use browser_bridge.Prelude.{
  ℕ, ◌<◌, ◌≡◌, refl, Bool, true, some, List, [], ◌∷◌, arith, ltb, if◌then◌else◌, nat_key,
  string_key, String,
}
use browser_bridge.Prelude.JsMap.{JsMap, size, get, put, delete, bound_oldest}
use browser_bridge.Registry.{
  Registry, Page, ElementDescriptor, Recovery, Field, initial, forget, remember_element,
  get_required_element, recover_match, recover, recover_stale, resolve_input_reference,
  matching_candidates, get_strong_descriptor_fields, mint, add_element, make_room, prune_when_full,
  descriptor_matches, starts_like, resolved, failed, ambiguous, prune_registry, delete_first,
}
use browser_bridge.Registry.Linked.{IsLinked}
use browser_bridge.Registry.Room.{IsBounded, size-prune_registry}
use browser_bridge.Registry.Calls.{
  remembers, requires, resolves, step, run, initial-IsLinked, run-initial-IsLinked,
  run-same_element,
}
use browser_bridge.Registry.Recovering.{
  CanRecover, is_stale, remember_element-get_required_element, remember_element-twice,
}
use browser_bridge.Registry.Resolving.{
  resolve_input_reference-CanRecover, CanRecover-resolve_input_reference,
}

registries : Unit {0}
unfolding initial forget remember_element get_required_element recover_match recover recover_stale
    resolve_input_reference matching_candidates get_strong_descriptor_fields mint add_element
    make_room prune_when_full descriptor_matches starts_like get put delete bound_oldest run step
    is_stale prune_registry delete_first
registries = tt

-- An element is described by an id that two numbers share.
abbrev described : String → ElementDescriptor
described id = record {
  url = "u";
  tag = "button";
  id = id;
  test_id = "";
  role = "";
  name = "";
  label = "";
  href = "";
  kind = "";
  ancestry = "main" ∷ [];
}

abbrev page_of : (ℕ → Bool) → List ℕ → Page ℕ
page_of attached buttons = record {
  is_attached = attached;
  describe_element = λ e. described (if ltb e 10 then "save" else "other");
  document_url = "u";
  query_all = λ tag. buttons;
}

abbrev before : Page ℕ
before = page_of (λ e. true) (1 ∷ [])

-- Element 1 has left, and element 2 has come in its place.
abbrev replaced : Page ℕ
replaced = page_of (λ e. ltb 1 e) (2 ∷ 12 ∷ [])

abbrev doubled : Page ℕ
doubled = page_of (λ e. ltb 1 e) (2 ∷ 3 ∷ [])

abbrev one_remembered : Registry ℕ
one_remembered = (remember_element before 1 initial).0

recovered :
    (resolve_input_reference replaced 1 true one_remembered).1
    ≡ resolved 2 (some (record { old_ref = 1; new_ref = 2; matched_fields = Field.id ∷ [] }))
unfolding registries
recovered = refl

not_unique : (resolve_input_reference doubled 1 true one_remembered).1 ≡ failed ambiguous
unfolding registries
not_unique = refl

one_remembered-IsLinked : IsLinked one_remembered
unfolding registries
one_remembered-IsLinked = (run-initial-IsLinked (remembers before 1 ∷ [])).0

run-initial-IsLinked_example :
    IsLinked
      (run (remembers before 1 ∷ resolves replaced 1 true ∷ requires replaced 2 ∷ []) initial)
    × IsBounded
        (run (remembers before 1 ∷ resolves replaced 1 true ∷ requires replaced 2 ∷ []) initial)
run-initial-IsLinked_example =
    run-initial-IsLinked (remembers before 1 ∷ resolves replaced 1 true ∷ requires replaced 2 ∷ [])

run-same_element_example : get 1 one_remembered.element_registry ≡ some 1
unfolding registries
run-same_element_example =
    run-same_element (remembers before 3 ∷ requires before 1 ∷ []) one_remembered 1 1
      one_remembered-IsLinked (omega arith) refl

remember_element-get_required_element_example :
    (get_required_element before (remember_element before 1 initial).1 one_remembered).1 ≡ some 1
remember_element-get_required_element_example =
    remember_element-get_required_element before before 1 initial initial-IsLinked refl

remembered_twice :
    remember_element replaced 1 (remember_element before 1 initial).0
    ≡ remember_element before 1 initial
remembered_twice = remember_element-twice before replaced 1 initial initial-IsLinked

resolve_input_reference-CanRecover_example :
    (is_stale replaced 1 one_remembered ≡ true)
    × CanRecover replaced one_remembered 1 2
    × (get 2 (resolve_input_reference replaced 1 true one_remembered).0.element_registry ≡ some 2)
    × (◌≡◌ {A = ℕ} 1 1)
resolve_input_reference-CanRecover_example =
    resolve_input_reference-CanRecover replaced 1 true one_remembered 2
      (record { old_ref = 1; new_ref = 2; matched_fields = Field.id ∷ [] }) one_remembered-IsLinked
      recovered

one_remembered-CanRecover : CanRecover replaced one_remembered 1 2
unfolding registries
one_remembered-CanRecover = record {
  descriptor = described "save";
  stored = refl;
  same_url = refl;
  all_scanned = omega arith;
  only_match = refl;
}

CanRecover-resolve_input_reference_example :
    (r : Recovery) × ((resolve_input_reference replaced 1 true one_remembered).1
      ≡ resolved 2 (some r))
unfolding registries
CanRecover-resolve_input_reference_example =
    CanRecover-resolve_input_reference replaced 1 one_remembered 2 one_remembered-IsLinked refl
      one_remembered-CanRecover

abbrev two_patches : JsMap ℕ String
two_patches = (1, "a") ∷ (2, "b") ∷ []

pruned_for_two : size (prune_registry two_patches 2) < 2
pruned_for_two = size-prune_registry two_patches 2 (omega arith)
