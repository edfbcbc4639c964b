-- ===== src/Baselines.antt =====
-- packages/extension/src/background-dom-baselines.ts: the store of DOM baselines with its quotas,
-- expiry and invalidation. Times and byte counts are whole numbers; the serialised size of a
-- snapshot and the generated ids, which the platform computes, are part of the input. The options
-- of a baseline, which pass through unchanged, and the latency metrics are left out. `compare` stands
-- in Comparing.
pub mod Sums
pub mod Walks
pub mod Evicting
pub mod Invariant
pub mod Quota
pub mod Creating
pub mod Calls
pub mod Reading
pub mod Comparing
pub mod Tests
use Prim.Native.String.{◌++◌ as concat}
use text.Mathlib.Text.{starts_with}
use browser_bridge.Prelude.{
  ℕ, zero, suc, ◌+◌, ◌-◌, ◌≤◌, ◌≡◌, Bool, true, false, not, ◌&&◌, ◌||◌, Option, none, some, List,
  [], ◌∷◌, ◌++◌, map, String, ltb, leb, eqb, if◌then◌else◌, or_else, length, filter, any, every,
  code_points, Key, ◌===◌, string_key, nat_key,
}
use browser_bridge.Nodes.{DomNode, either}
use browser_bridge.Prelude.JsMap.{JsMap, size, values, get, has, put, delete, bound_oldest}

abbrev pub dom_baseline_ttl_ms : ℕ
dom_baseline_ttl_ms = 300000

abbrev pub max_dom_baselines_per_tab : ℕ
max_dom_baselines_per_tab = 8

abbrev pub max_dom_baselines_global : ℕ
max_dom_baselines_global = 32

abbrev pub max_dom_baseline_tab_bytes : ℕ
max_dom_baseline_tab_bytes = 1048576

abbrev pub max_dom_baseline_total_bytes : ℕ
max_dom_baseline_total_bytes = 4194304

abbrev pub max_dom_baseline_bytes : ℕ
max_dom_baseline_bytes = 262144

pub data Error : Type 0 where
  type_error not_found expired : Error
  quota_exceeded storage_exceeded no_unique_id range_error : Error
  invalidated : String → Error

pub data Outcome {ℓ} (A : Type ℓ) : Type ℓ where
  ok : A → Outcome A
  throws : Error → Outcome A

infixl 5 ◌>>=◌ ◌>>◌
abbrev pub ◌>>=◌ {ℓ κ} : {A : Type ℓ} {B : Type κ} → Outcome A → (A → Outcome B) → Outcome B
ok a >>= f = f a
throws e >>= f = throws e

abbrev pub ◌>>◌ {ℓ} : {B : Type ℓ} → Outcome (Unit {0}) → Outcome B → Outcome B
m >> k = m >>= λ _. k

abbrev pub require : Bool → Error → Outcome (Unit {0})
require b e = if b then ok tt else throws e

-- What the page sends: the scope fields may be missing. Those of the object `scope`, which may be
-- missing as well, are the ones with the prefix.
pub record Snapshot : Type 0 where
  pub document_token : Option String
  pub representation : Option String
  pub selector : Option String
  pub scope_document_token : Option String
  pub scope_representation : Option String
  pub scope_selector : Option String
  pub nodes : List DomNode
  pub json_bytes : ℕ

pub record SnapshotScope : Type 0 where
  pub document_token : String
  pub representation : String
  pub selector : Option String

pub record Scope : Type 0 where
  pub window_id : ℕ
  pub tab_id : ℕ
  pub frame_id : ℕ
  pub snapshot_scope : SnapshotScope

pub record BaselineRecord : Type 0 where
  pub baseline_id : String
  pub scope : Scope
  pub snapshot : Snapshot
  pub evicted : List (String × String)
  pub bytes : ℕ
  pub created_at_ms : ℕ
  pub expires_at_ms : ℕ
  pub sequence : ℕ

pub record Invalidated : Type 0 where
  pub reason : String
  pub expires_at_ms : ℕ
  pub tab_id : ℕ
  pub window_id : ℕ

pub record Store : Type 0 where
  pub records : JsMap String BaselineRecord
  pub invalidated_records : JsMap String Invalidated
  pub sequence : ℕ
  pub total_bytes : ℕ
  pub lifecycle_generation : ℕ
  pub navigation_generation : ℕ
  pub navigation_generations : JsMap ℕ ℕ

pub initial : Store
initial = record {
  records = [];
  invalidated_records = [];
  sequence = 0;
  total_bytes = 0;
  lifecycle_generation = 0;
  navigation_generation = 0;
  navigation_generations = [];
}

-- `removeRecord`; the invariant shows that the subtraction never goes below zero.
pub remove_record : String → Store → Store
remove_record id st = elim (get id st.records) [
  | none ↦ st
  | some r ↦ record st { records = delete id st.records; total_bytes = st.total_bytes - r.bytes }
]

abbrev pub Cleared : Type 0
Cleared = record { store : Store; count : ℕ; bytes : ℕ }

-- The loop of `clearMatching` over the entries that were there when it began.
pub clear_entries : (BaselineRecord → Bool) → JsMap String BaselineRecord → Store → ℕ → ℕ → Cleared
clear_entries matches [] st count bytes = record { store = st; count = count; bytes = bytes }
clear_entries matches ((id, r) ∷ entries) st count bytes =
    let next = record st {
      records = delete id st.records;
      total_bytes = st.total_bytes - r.bytes;
    } in
    let cleared = clear_entries matches entries next (count + 1) (bytes + r.bytes) in
    let kept = clear_entries matches entries st count bytes in if matches r then cleared else kept

pub clear_matching : (BaselineRecord → Bool) → Store → Cleared
clear_matching matches st = clear_entries matches st.records st 0 0

-- `for (const [id, record] of invalidatedRecords) if (…) invalidatedRecords.delete(id)`
pub drop_invalidated : (Invalidated → Bool) → JsMap String Invalidated → JsMap String Invalidated
drop_invalidated drops [] = []
drop_invalidated drops ((id, r) ∷ m) =
    if drops r then drop_invalidated drops m else (id, r) ∷ drop_invalidated drops m

pub prune_expired : ℕ → Store → Cleared
prune_expired at st =
    clear_matching (λ r. leb r.expires_at_ms at)
      (record st {
        invalidated_records = drop_invalidated (λ r. leb r.expires_at_ms at) st.invalidated_records;
      })

-- `left.createdAtMs - right.createdAtMs || left.sequence - right.sequence`
abbrev pub is_older : BaselineRecord → BaselineRecord → Bool
is_older l r =
    ltb l.created_at_ms r.created_at_ms
    || (eqb l.created_at_ms r.created_at_ms && leb l.sequence r.sequence)

pub insert_by_age : BaselineRecord → List BaselineRecord → List BaselineRecord
insert_by_age r [] = r ∷ []
insert_by_age r (x ∷ xs) = if is_older r x then r ∷ x ∷ xs else x ∷ insert_by_age r xs

pub sort_by_age : List BaselineRecord → List BaselineRecord
sort_by_age [] = []
sort_by_age (x ∷ xs) = insert_by_age x (sort_by_age xs)

pub oldest_records : (BaselineRecord → Bool) → Store → List BaselineRecord
oldest_records p st = sort_by_age (filter p (values st.records))

abbrev pub sum_bytes : List BaselineRecord → ℕ
sum_bytes [] = 0
sum_bytes (r ∷ rs) = r.bytes + sum_bytes rs

abbrev pub Evicted : Type 0
Evicted = List (String × String)

-- The loop of `evictForTab`; `shift` takes the oldest, and stops at an empty list.
pub evict_tab_loop : ℕ → List BaselineRecord → ℕ → Store → Evicted → Store × Evicted
evict_tab_loop incoming [] tab_bytes st evicted = (st, evicted)
evict_tab_loop incoming (r ∷ rest) tab_bytes st evicted =
    let next =
      evict_tab_loop incoming rest (tab_bytes - r.bytes) (remove_record r.baseline_id st)
        (evicted ++ (r.baseline_id, "per_tab_quota") ∷ []) in
    if leb max_dom_baselines_per_tab (length rest + 1)
      || ltb max_dom_baseline_tab_bytes (tab_bytes + incoming)
    then next
    else (st, evicted)

abbrev pub on_tab : ℕ → BaselineRecord → Bool
on_tab tab_id r = eqb r.scope.tab_id tab_id

pub evict_for_tab : ℕ → ℕ → Store → Evicted → Store × Evicted
evict_for_tab tab_id incoming st evicted =
    let same_tab = oldest_records (on_tab tab_id) st in
    evict_tab_loop incoming same_tab (sum_bytes same_tab) st evicted

pub evict_global_loop : ℕ → List BaselineRecord → Store → Evicted → Store × Evicted
evict_global_loop incoming [] st evicted = (st, evicted)
evict_global_loop incoming (r ∷ rest) st evicted =
    let next =
      evict_global_loop incoming rest (remove_record r.baseline_id st)
        (evicted ++ (r.baseline_id, "global_quota") ∷ []) in
    if leb max_dom_baselines_global (size st.records)
      || ltb max_dom_baseline_total_bytes (st.total_bytes + incoming)
    then next
    else (st, evicted)

pub evict_globally : ℕ → Store → Evicted → Store × Evicted
evict_globally incoming st evicted =
    evict_global_loop incoming (oldest_records (λ r. true) st) st evicted

abbrev is_id_character : ℕ → Bool
is_id_character c =
    (leb b'A' c && leb c b'Z')
    || ((leb b'a' c && leb c b'z') || ((leb b'0' c && leb c b'9') || (eqb c b'_' || eqb c b'-')))

abbrev drop_prefix : ℕ → List ℕ → List ℕ
drop_prefix zero cs = cs
drop_prefix (suc n) [] = []
drop_prefix (suc n) (c ∷ cs) = drop_prefix n cs

-- `/^baseline_[A-Za-z0-9_-]{32,64}$/u`
pub is_baseline_id : String → Bool
is_baseline_id id =
    let body = drop_prefix 9 (code_points id) in
    starts_with id "baseline_"
    && ((leb 32 (length body) && leb (length body) 64) && every is_id_character body)

pub with_prefix : String → String
with_prefix generated =
    if starts_with generated "baseline_" then generated else concat "baseline_" generated

-- Eight attempts at most, each with the next generated id.
pub next_baseline_id : ℕ → List String → JsMap String BaselineRecord → Outcome String
next_baseline_id zero supply records = throws no_unique_id
next_baseline_id (suc attempts) [] records = throws no_unique_id
next_baseline_id (suc attempts) (generated ∷ supply) records =
    let id = with_prefix generated in
    let again = next_baseline_id attempts supply records in
    if not (is_baseline_id id) then throws type_error else if has id records then again else ok id

abbrev pub non_empty : Option String → Outcome String
non_empty none = throws type_error
non_empty (some s) = if s === "" then throws type_error else ok s

pub read_snapshot_scope : Snapshot → Outcome SnapshotScope
read_snapshot_scope s = do
  token ← non_empty (either s.document_token s.scope_document_token)
  representation ← non_empty (either s.representation s.scope_representation)
  ok (record {
    document_token = token;
    representation = representation;
    selector = either s.selector s.scope_selector;
  })

-- `ids.has(nodeId)` against the ids read so far.
pub check_node_ids : List String → List String → Outcome (Unit {0})
check_node_ids seen [] = ok tt
check_node_ids seen (id ∷ ids) =
    let rest = check_node_ids (id ∷ seen) ids in
    if (id === "") || any (λ other. other === id) seen then throws type_error else rest

pub validate_snapshot : Snapshot → Outcome (Unit {0})
validate_snapshot s = do
  scope ← read_snapshot_scope s
  check_node_ids [] (map (λ n. n.node_id) s.nodes)

abbrev pub same_selector : Option String → Option String → Bool
same_selector none none = true
same_selector (some a) (some b) = a === b
same_selector _ _ = false

pub record CreateInput : Type 0 where
  pub window_id : ℕ
  pub tab_id : ℕ
  pub frame_id : ℕ
  pub selector : Option String
  pub snapshot : Snapshot
  pub generated_ids : List String

-- The checks of `create` before it evicts.
pub check_input : CreateInput → Outcome SnapshotScope
check_input input = do
  scope ← read_snapshot_scope input.snapshot
  require (same_selector scope.selector input.selector) (invalidated "selector_mismatch")
  validate_snapshot input.snapshot
  require (leb input.snapshot.json_bytes max_dom_baseline_bytes) quota_exceeded
  ok scope

pub store_record :
    CreateInput → SnapshotScope → ℕ → String → Evicted → Store → Store × BaselineRecord
store_record input scope now id evicted st =
    let r : BaselineRecord = record {
      baseline_id = id;
      scope = record {
        window_id = input.window_id;
        tab_id = input.tab_id;
        frame_id = input.frame_id;
        snapshot_scope = scope;
      };
      snapshot = input.snapshot;
      evicted = evicted;
      bytes = input.snapshot.json_bytes;
      created_at_ms = now;
      expires_at_ms = now + dom_baseline_ttl_ms;
      sequence = st.sequence;
    } in
    (
      record st {
        records = put id r st.records;
        sequence = st.sequence + 1;
        total_bytes = st.total_bytes + input.snapshot.json_bytes;
      },
      r,
    )

-- The last time that a JavaScript Date can hold, in milliseconds.
abbrev pub max_date_ms : ℕ
max_date_ms = 8640000000000000

-- The end of `create`: take an id, write the two times as dates, and store the record.
pub issue : CreateInput → SnapshotScope → ℕ → Evicted → Store → Store × Outcome BaselineRecord
issue input scope now evicted st = elim (next_baseline_id 8 input.generated_ids st.records) [
  | throws e ↦ (st, throws e)
  | ok id ↦
      let (st', r) = store_record input scope now id evicted st in
      if ltb max_date_ms (now + dom_baseline_ttl_ms) then (st, throws range_error) else (st', ok r)
]

-- The last check of the quota, behind the evictions.
pub check_quota : CreateInput → SnapshotScope → ℕ → Evicted → Store → Store × Outcome BaselineRecord
check_quota input scope now evicted st =
    if ltb max_dom_baseline_tab_bytes input.snapshot.json_bytes
      || ltb max_dom_baseline_total_bytes (st.total_bytes + input.snapshot.json_bytes)
    then (st, throws storage_exceeded)
    else issue input scope now evicted st

-- The part of `create` behind the checks of its input.
pub admit : CreateInput → SnapshotScope → ℕ → Store → Store × Outcome BaselineRecord
admit input scope now st =
    let bytes = input.snapshot.json_bytes in
    let (tab_evicted, evicted) = evict_for_tab input.tab_id bytes st [] in
    let (room, all_evicted) = evict_globally bytes tab_evicted evicted in
    check_quota input scope now all_evicted room

pub create : CreateInput → ℕ → Store → Store × Outcome BaselineRecord
create input now st =
    let pruned = (prune_expired now st).store in
    elim (check_input input) [
      | throws e ↦ (pruned, throws e)
      | ok scope ↦ admit input scope now pruned
    ]

pub find_live : String → ℕ → Store → Store × Outcome BaselineRecord
find_live id at st = elim (get id st.records) [
  | none ↦ (st, throws not_found)
  | some r ↦ if leb r.expires_at_ms at then (remove_record id st, throws expired) else (st, ok r)
]

-- `getRecord`
pub get_record : String → ℕ → Store → Store × Outcome BaselineRecord
get_record id at st = elim (get id st.invalidated_records) [
  | none ↦ find_live id at st
  | some gone ↦
      if leb gone.expires_at_ms at
      then find_live id at (record st { invalidated_records = delete id st.invalidated_records })
      else (st, throws (invalidated gone.reason))
]

pub release : String → Store → Store × Bool
release id st =
    let removed = remove_record id st in
    (
      record removed { invalidated_records = delete id removed.invalidated_records },
      has id st.records,
    )

pub invalidate_record : String → String → Store → Store × Bool
invalidate_record id reason st = elim (get id st.records) [
  | none ↦ (st, false)
  | some r ↦
      let removed = remove_record id st in
      let gone : Invalidated = record {
        reason = reason;
        expires_at_ms = r.expires_at_ms;
        tab_id = r.scope.tab_id;
        window_id = r.scope.window_id;
      } in
      let marked = put id gone (delete id removed.invalidated_records) in
      (
        record removed {
          invalidated_records = bound_oldest (size marked) max_dom_baselines_global marked;
        },
        true,
      )
]

pub bound_generations : JsMap ℕ ℕ → JsMap ℕ ℕ
bound_generations m = bound_oldest (size m) 256 m

pub advance_tab_generation : ℕ → Store → Store
advance_tab_generation tab_id st = record st {
  navigation_generation = st.navigation_generation + 1;
  navigation_generations =
      bound_generations
        (put tab_id (st.navigation_generation + 1) (delete tab_id st.navigation_generations));
}

-- `${lifecycleGeneration}:${generation}`, as a pair.
pub get_scope_generation : ℕ → Store → Store × (ℕ × ℕ)
get_scope_generation tab_id st = elim (get tab_id st.navigation_generations) [
  | some generation ↦ (st, (st.lifecycle_generation, generation))
  | none ↦
      let generation = st.navigation_generation + 1 in
      (
        record st {
          navigation_generation = generation;
          navigation_generations =
              bound_generations (put tab_id generation st.navigation_generations);
        },
        (st.lifecycle_generation, generation),
      )
]

pub clear_tab : ℕ → Store → Cleared
clear_tab tab_id st =
    let advanced = advance_tab_generation tab_id st in
    clear_matching (on_tab tab_id) (record advanced {
      invalidated_records =
          drop_invalidated (λ r. eqb r.tab_id tab_id) advanced.invalidated_records;
    })

pub clear_window : ℕ → Store → Cleared
clear_window window_id st =
    clear_matching (λ r. eqb r.scope.window_id window_id)
      (record st {
        lifecycle_generation = st.lifecycle_generation + 1;
        invalidated_records =
            drop_invalidated (λ r. eqb r.window_id window_id) st.invalidated_records;
      })

pub clear_all : Store → Cleared
clear_all st =
    clear_matching (λ r. true)
      (record st {
        lifecycle_generation = st.lifecycle_generation + 1;
        navigation_generations = [];
        invalidated_records = [];
      })

-- The loop of `invalidateNavigation` over a copy of the entries.
pub invalidate_entries : ℕ → JsMap String BaselineRecord → Store → ℕ → ℕ → Cleared
invalidate_entries tab_id [] st count bytes = record { store = st; count = count; bytes = bytes }
invalidate_entries tab_id ((id, r) ∷ entries) st count bytes =
    let hit =
      invalidate_entries tab_id entries (invalidate_record id "navigation" st).0 (count + 1)
        (bytes + r.bytes) in
    let other = invalidate_entries tab_id entries st count bytes in
    if on_tab tab_id r then hit else other

pub invalidate_navigation : ℕ → Store → Cleared
invalidate_navigation tab_id st =
    invalidate_entries tab_id st.records (advance_tab_generation tab_id st) 0 0
