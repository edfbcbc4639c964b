-- ===== src/Registry.antt =====
-- packages/extension/src/content-element-registry.ts, with `pruneElementRegistryEntries` of
-- content-script-helpers.ts: the references by which an agent names elements of the page, and the
-- recovery of stale ones. A reference is held as the counter that `createElementRef` renders in
-- base 36. The page (attachment, queries, the description of an element) is the argument `Page` of
-- each call, since it changes between calls.
--
-- The map of references grows only by rising counters, so a live iterator of it is held as the
-- last counter it has passed: its next entry is the first one beyond.
pub mod Linked
pub mod Room
pub mod Minting
pub mod Calls
pub mod Recovering
pub mod Resolving
pub mod Tests
use browser_bridge.Prelude.{
  ℕ, zero, suc, ◌+◌, ◌-◌, Bool, true, false, not, ◌&&◌, ◌||◌, Option, none, some, List, [], ◌∷◌,
  ◌++◌, String, ltb, leb, eqb, if◌then◌else◌, or_else, length, filter, every, Key, ◌===◌,
  string_key, nat_key,
}
use browser_bridge.Prelude.JsMap.{JsMap, size, get, has, put, delete, delete_oldest, bound_oldest}

abbrev pub max_registry_size : ℕ
max_registry_size = 5000

abbrev pub element_registry_prune_batch_size : ℕ
element_registry_prune_batch_size = 100

abbrev pub max_stale_recovery_candidates : ℕ
max_stale_recovery_candidates = 100

pub record ElementDescriptor : Type 0 where
  pub url : String
  pub tag : String
  pub id : String
  pub test_id : String
  pub role : String
  pub name : String
  pub label : String
  pub href : String
  pub kind : String
  pub ancestry : List String

-- What the document answers during one call.
pub record Page (E : Type 0) : Type 0 where
  pub is_attached : E → Bool
  pub describe_element : E → ElementDescriptor
  pub document_url : String
  pub query_all : String → List E

pub record Registry (E : Type 0) : Type 0 where
  pub element_registry : JsMap ℕ E
  pub reverse_registry : JsMap E ℕ
  pub element_descriptors : JsMap ℕ ElementDescriptor
  pub element_ref_counter : ℕ
  pub registry_pruned : Bool
  pub prune_iterator : Option ℕ

pub initial : {E : Type 0} → Registry E
initial = record {
  element_registry = [];
  reverse_registry = [];
  element_descriptors = [];
  element_ref_counter = 0;
  registry_pruned = false;
  prune_iterator = none;
}

pub consume_pruned : {E : Type 0} → Registry E → Registry E × Bool
consume_pruned st = (record st { registry_pruned = false }, st.registry_pruned)

-- `nextIterator.next()` for an iterator that has passed the counters up to `passed`.
pub next_entry : {E : Type 0} → ℕ → JsMap ℕ E → Option (ℕ × E)
next_entry passed [] = none
next_entry passed ((ref, e) ∷ m) = if ltb passed ref then some (ref, e) else next_entry passed m

-- `elementRegistry.entries().next()`
pub first_entry : {E : Type 0} → JsMap ℕ E → Option (ℕ × E)
first_entry [] = none
first_entry ((ref, e) ∷ m) = some (ref, e)

-- `if (registry.size < maxSize) return`, else delete the first `size - maxSize + 1` keys.
pub delete_first : {K V : Type 0} ⦃key : Key K⦄ → ℕ → JsMap K V → JsMap K V
delete_first zero m = m
delete_first (suc n) m = delete_first n (delete_oldest m)

pub prune_registry : {K V : Type 0} ⦃key : Key K⦄ → JsMap K V → ℕ → JsMap K V
prune_registry m max_size =
    if ltb (size m) max_size then m else delete_first (size m - max_size + 1) m

pub data Field : Type 0 where
  test_id id role name label tag kind href : Field

abbrev pub field : Field → ElementDescriptor → String
field Field.test_id d = d.test_id
field Field.id d = d.id
field Field.role d = d.role
field Field.name d = d.name
field Field.label d = d.label
field Field.tag d = d.tag
field Field.kind d = d.kind
field Field.href d = d.href

-- A string is true when it is not empty.
abbrev pub is_set : String → Bool
is_set s = not (s === "")

abbrev pub when_set : String → Field → List Field
when_set s f = if is_set s then f ∷ [] else []

pub get_strong_descriptor_fields : ElementDescriptor → List Field
get_strong_descriptor_fields d =
    if is_set d.test_id
    then Field.test_id ∷ []
    else if is_set d.id
    then Field.id ∷ []
    else if is_set d.role && is_set d.name
    then Field.role ∷ Field.name ∷ []
    else if is_set d.label
    then Field.label ∷ Field.tag ∷ when_set d.kind Field.kind
    else if is_set d.href && (is_set d.role || is_set d.name)
    then Field.href ∷ (when_set d.role Field.role ++ when_set d.name Field.name)
    else []

-- `expected.every((marker, index) => current[index] === marker)`
pub starts_like : List String → List String → Bool
starts_like [] current = true
starts_like (marker ∷ expected) [] = false
starts_like (marker ∷ expected) (c ∷ current) = (c === marker) && starts_like expected current

-- The comparison of `descriptorMatches`, on the description of the candidate.
pub descriptor_matches : ElementDescriptor → ElementDescriptor → Bool
descriptor_matches current d =
    let fields = get_strong_descriptor_fields d in
    ltb 0 (length fields)
    && (every (λ f. field f current === field f d) fields
        && starts_like d.ancestry current.ancestry)

pub data Failure : Type 0 where
  not_recovered descriptor_missing url_changed weak_descriptor : Failure
  scan_incomplete ambiguous unmatched : Failure

pub record Recovery : Type 0 where
  pub old_ref : ℕ
  pub new_ref : ℕ
  pub matched_fields : List Field

pub data Resolution (E : Type 0) : Type 0 where
  resolved : E → Option Recovery → Resolution E
  failed : Failure → Resolution E

module _ {E : Type 0} ⦃key : Key E⦄ where
  -- Both maps lose the entry, as wherever a reference is found to be detached.
  pub forget : ℕ → E → Registry E → Registry E
  forget ref e st = record st {
    element_registry = delete ref st.element_registry;
    reverse_registry = delete e st.reverse_registry;
  }

  -- The loop of `pruneElementRegistryEntries`: at most `batch` entries from the iterator on.
  pub prune_entries : Page E → ℕ → ℕ → Registry E → Registry E
  prune_entries page zero passed st = record st { prune_iterator = some passed }
  prune_entries page (suc batch) passed st = elim (next_entry passed st.element_registry) [
    | none ↦ record st { prune_iterator = none }
    | some (ref, e) ↦
        if page.is_attached e
        then prune_entries page batch ref st
        else prune_entries page batch ref (record (forget ref e st) { registry_pruned = true })
  ]

  pub prune_element_registry : Page E → Registry E → Registry E
  prune_element_registry page st =
      let from = or_else st.prune_iterator 0 in
      let scanned = prune_entries page element_registry_prune_batch_size from st in
      if eqb (size st.element_registry) 0 then record st { prune_iterator = none } else scanned

  pub evict_oldest : Registry E → Registry E
  evict_oldest st = elim (first_entry st.element_registry) [
    | none ↦ st
    | some (ref, e) ↦
        let gone = forget ref e st in
        record gone {
          element_descriptors = delete ref gone.element_descriptors;
          registry_pruned = true;
        }
  ]

  -- `while (elementRegistry.size >= MAX_REGISTRY_SIZE)`, on fuel for each entry.
  pub make_room : ℕ → Registry E → Registry E
  make_room zero st = st
  make_room (suc fuel) st =
      let rest = make_room fuel (evict_oldest st) in
      if leb max_registry_size (size st.element_registry) then rest else st

  pub prune_when_full : Page E → Registry E → Registry E
  prune_when_full page st =
      if leb max_registry_size (size st.element_registry)
      then prune_element_registry page st
      else st

  -- The end of `rememberElement`: a new reference in the room that is there.
  pub add_element : Page E → E → Registry E → Registry E × ℕ
  add_element page e st =
      let ref = st.element_ref_counter + 1 in
      let descriptors = put ref (page.describe_element e) st.element_descriptors in
      (
        record st {
          element_ref_counter = ref;
          element_registry = put ref e st.element_registry;
          reverse_registry = put e ref st.reverse_registry;
          element_descriptors = bound_oldest (size descriptors) max_registry_size descriptors;
        },
        ref,
      )

  pub mint : Page E → E → Registry E → Registry E × ℕ
  mint page e st =
      let pruned = prune_when_full page st in
      add_element page e (make_room (size pruned.element_registry) pruned)

  pub remember_element : Page E → E → Registry E → Registry E × ℕ
  remember_element page e st = elim (get e st.reverse_registry) [
    | none ↦ mint page e st
    | some existing ↦ if has existing st.element_registry then (st, existing) else mint page e st
  ]

  -- `none` is the error that the reference is stale.
  pub get_required_element : Page E → ℕ → Registry E → Registry E × Option E
  get_required_element page ref st = elim (get ref st.element_registry) [
    | none ↦ (st, none)
    | some e ↦ if page.is_attached e then (st, some e) else (forget ref e st, none)
  ]

  -- The candidates have been scanned: exactly one match is recovered.
  pub recover_match : Page E → ℕ → List Field → List E → Registry E → Registry E × Resolution E
  recover_match page ref fields [] st = (st, failed unmatched)
  recover_match page ref fields (e ∷ []) st =
      let (st', new_ref) = remember_element page e st in
      (
        st',
        resolved e (some (record { old_ref = ref; new_ref = new_ref; matched_fields = fields })),
      )
  recover_match page ref fields (e ∷ e' ∷ es) st = (st, failed ambiguous)

  pub matching_candidates : Page E → ElementDescriptor → List E
  matching_candidates page d =
      filter (λ e. descriptor_matches (page.describe_element e) d) (page.query_all d.tag)

  -- The strict recovery of `resolveInputReference` behind the descriptor's lookup. More candidates
  -- than the scan allows are an error whatever the scanned ones are, so all of them are scanned.
  pub recover : Page E → ℕ → ElementDescriptor → Registry E → Registry E × Resolution E
  recover page ref d st =
      let fields = get_strong_descriptor_fields d in
      if not (is_set d.url && (d.url === page.document_url))
      then (st, failed url_changed)
      else if eqb (length fields) 0
      then (st, failed weak_descriptor)
      else if ltb max_stale_recovery_candidates (length (page.query_all d.tag))
      then (st, failed scan_incomplete)
      else recover_match page ref fields (matching_candidates page d) st

  pub recover_stale : Page E → ℕ → Bool → Registry E → Registry E × Resolution E
  recover_stale page ref recovers st =
      if not recovers then (st, failed not_recovered) else elim (get ref st.element_descriptors) [
        | none ↦ (st, failed descriptor_missing)
        | some d ↦ recover page ref d st
      ]

  pub resolve_input_reference : Page E → ℕ → Bool → Registry E → Registry E × Resolution E
  resolve_input_reference page ref recovers st = elim (get ref st.element_registry) [
    | none ↦ recover_stale page ref recovers st
    | some e ↦
        if page.is_attached e
        then (st, resolved e none)
        else recover_stale page ref recovers (forget ref e st)
  ]
