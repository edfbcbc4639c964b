-- ===== src/Access.antt =====
-- packages/extension/src/background-access.ts and background-routing.ts: the grant of one enabled
-- window, what the status of the access reports, and which tabs a request may be routed to. What
-- the browser answers (does the window exist, its active tab) is an argument. Restoring the grant
-- from the session's storage is left out.
pub mod Allowed
pub mod Tests
use browser_bridge.Prelude.{
  ℕ, zero, suc, ◌+◌, Bool, true, false, not, ◌&&◌, ◌||◌, Option, none, some, List, [], ◌∷◌, String,
  ltb, leb, eqb, if◌then◌else◌, or_else, any, code_points, Key, ◌===◌, string_key, nat_key,
}

pub record EnabledWindow : Type 0 where
  pub window_id : ℕ
  pub title : String
  pub enabled_at : ℕ

-- A tab as the browser reports it, where each field may be missing.
pub record Tab : Type 0 where
  pub id : Option ℕ
  pub window_id : Option ℕ
  pub title : Option String
  pub url : Option String
  pub pending_url : Option String

pub record ResolvedTabTarget : Type 0 where
  pub tab_id : ℕ
  pub window_id : ℕ
  pub title : String
  pub url : String

pub data Routed : Type 0 where
  routed : ResolvedTabTarget → Routed
  tab_mismatch access_denied : Routed

pub same_window_grant : Option EnabledWindow → Option EnabledWindow → Bool
same_window_grant (some captured) (some current) =
    eqb captured.window_id current.window_id && eqb captured.enabled_at current.enabled_at
same_window_grant _ _ = false

abbrev to_lower : ℕ → ℕ
to_lower c = if leb b'A' c && leb c b'Z' then c + 32 else c

-- Does the text start with the lower-case prefix, the case of ASCII letters ignored?
pub has_scheme : List ℕ → List ℕ → Bool
has_scheme url [] = true
has_scheme [] (p ∷ prefix) = false
has_scheme (c ∷ url) (p ∷ prefix) = eqb (to_lower c) p && has_scheme url prefix

abbrev pub restricted_schemes : List String
restricted_schemes =
    "about:" ∷ "chrome:" ∷ "chrome-extension:" ∷ "chrome-search:" ∷ "devtools:" ∷ "edge:" ∷ "brave:"
    ∷ "moz-extension:" ∷ "view-source:" ∷ []

pub is_restricted_automation_url : String → Bool
is_restricted_automation_url url =
    any (λ scheme. has_scheme (code_points url) (code_points scheme)) restricted_schemes

pub select_request_tab_candidate : Option ℕ → Option Tab → Option Tab → Option Tab
select_request_tab_candidate (some requested) explicit_tab active_tab = explicit_tab
select_request_tab_candidate none explicit_tab active_tab = active_tab

-- `tab.url || (options.allowPendingUrl ? tab.pendingUrl : undefined)`, empty when there is none.
pub committed_url : Bool → Tab → String
committed_url allow_pending tab =
    let url = or_else tab.url "" in
    if not (url === "") then url else if allow_pending then or_else tab.pending_url "" else ""

pub resolve_tab : Bool → Bool → ℕ → Tab → ℕ → ℕ → Routed
resolve_tab require_scriptable allow_pending enabled tab id window_id =
    let url = committed_url allow_pending tab in
    if not (eqb window_id enabled)
    then access_denied
    else if url === ""
    then tab_mismatch
    else if require_scriptable && is_restricted_automation_url url
    then access_denied
    else routed
        (record { tab_id = id; window_id = window_id; title = or_else tab.title ""; url = url })

pub resolve_window_scoped_tab : Bool → Bool → ℕ → Option Tab → Routed
resolve_window_scoped_tab require_scriptable allow_pending enabled none = tab_mismatch
resolve_window_scoped_tab require_scriptable allow_pending enabled (some tab) = elim tab.id [
  | none ↦ tab_mismatch
  | some id ↦ elim tab.window_id [
    | none ↦ tab_mismatch
    | some window_id ↦ resolve_tab require_scriptable allow_pending enabled tab id window_id
  ]
]

pub target_of : Tab → ℕ → ℕ → Option ResolvedTabTarget
target_of tab id window_id =
    let url = or_else tab.url "" in
    if url === ""
    then none
    else if is_restricted_automation_url url
    then none
    else some
        (record { tab_id = id; window_id = window_id; title = or_else tab.title ""; url = url })

pub normalize_requested_access_tab : Option Tab → Option ResolvedTabTarget
normalize_requested_access_tab none = none
normalize_requested_access_tab (some tab) = elim tab.id [
  | none ↦ none
  | some id ↦ elim tab.window_id [ none ↦ none | some window_id ↦ target_of tab id window_id ]
]

pub data Reason : Type 0 where
  enabled access_disabled enabled_window_missing no_routable_active_tab restricted_page : Reason

pub record AccessStatus : Type 0 where
  pub is_enabled : Bool
  pub window_id : Option ℕ
  pub route_tab_id : Option ℕ
  pub route_ready : Bool
  pub route_url : String
  pub reason : Reason

abbrev off : Reason → AccessStatus
off reason = record {
  is_enabled = false;
  window_id = none;
  route_tab_id = none;
  route_ready = false;
  route_url = "";
  reason = reason;
}

-- The status for a tab with an id and a URL.
pub tab_status : ℕ → ℕ → String → AccessStatus
tab_status window id url =
    let restricted = is_restricted_automation_url url in
    record {
      is_enabled = true;
      window_id = some window;
      route_tab_id = some id;
      route_ready = not restricted;
      route_url = url;
      reason = if restricted then restricted_page else enabled;
    }

pub no_tab_status : ℕ → AccessStatus
no_tab_status window = record {
  is_enabled = true;
  window_id = some window;
  route_tab_id = none;
  route_ready = false;
  route_url = "";
  reason = no_routable_active_tab;
}

-- The last part of `getAccessStatus`, on the first tab of the query; an id of 0 counts as none.
pub active_tab_status : ℕ → Option Tab → AccessStatus
active_tab_status window none = no_tab_status window
active_tab_status window (some tab) = elim tab.id [
  | none ↦ no_tab_status window
  | some id ↦ elim tab.url [
    | none ↦ no_tab_status window
    | some url ↦ if eqb id 0 then no_tab_status window else tab_status window id url
  ]
]

-- The window may be gone; then the grant is cleared, unless a new one has come.
pub get_access_status : Option EnabledWindow → Bool → Bool → Option Tab → AccessStatus
get_access_status none exists cleared active_tab = off access_disabled
get_access_status (some grant) exists cleared active_tab =
    if not exists && cleared
    then off enabled_window_missing
    else active_tab_status grant.window_id active_tab
