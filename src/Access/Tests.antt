-- ===== src/Access/Tests.antt =====
-- Runs of the access and routing, and the theorems at concrete inputs.
use browser_bridge.Prelude.{
  ℕ, ◌≡◌, ◌≢◌, ◌↔◌, refl, true, false, ◌&&◌, none, some, ◌===◌, string_key,
}
use browser_bridge.Access.{
  EnabledWindow, Tab, ResolvedTabTarget, routed, tab_mismatch, has_scheme,
  is_restricted_automation_url, committed_url, resolve_tab, resolve_window_scoped_tab, target_of,
  normalize_requested_access_tab, tab_status, active_tab_status, no_tab_status, get_access_status,
  same_window_grant,
}
use browser_bridge.Access.Allowed.{
  resolve_window_scoped_tab-allowed, is_routed, get_access_status-resolve_window_scoped_tab,
  normalize_requested_access_tab-resolve_window_scoped_tab,
}

accesses : Unit {0}
unfolding has_scheme is_restricted_automation_url committed_url resolve_tab
    resolve_window_scoped_tab target_of normalize_requested_access_tab tab_status active_tab_status
    no_tab_status get_access_status same_window_grant
accesses = tt

abbrev grant : EnabledWindow
grant = record { window_id = 3; title = "w"; enabled_at = 10 }

abbrev page : Tab
page = record {
  id = some 5;
  window_id = some 3;
  title = none;
  url = some "https://a";
  pending_url = none;
}

abbrev target : ResolvedTabTarget
target = record { tab_id = 5; window_id = 3; title = ""; url = "https://a" }

restricted : is_restricted_automation_url "Chrome://settings" ≡ true
unfolding accesses
restricted = refl

-- A new title keeps the grant, and enabling the window again does not.
retitled : same_window_grant (some grant) (some (record grant { title = "v" })) ≡ true
unfolding accesses
retitled = refl

enabled_again : same_window_grant (some grant) (some (record grant { enabled_at = 11 })) ≡ false
unfolding accesses
enabled_again = refl

-- A tab without a committed URL is reported as ready, and is not routed to.
uncommitted_status :
    (get_access_status (some grant) true false (some (record page { url = some "" }))).route_ready
    ≡ true
unfolding accesses
uncommitted_status = refl

uncommitted_route :
    resolve_window_scoped_tab true false 3 (some (record page { url = some "" })) ≡ tab_mismatch
unfolding accesses
uncommitted_route = refl

page_routed : resolve_window_scoped_tab true false 3 (some page) ≡ routed target
unfolding accesses
page_routed = refl

resolve_window_scoped_tab-allowed_example :
    (◌≡◌ {A = ℕ} 3 3)
    × ((target.url === "") ≡ false)
    × ((true && is_restricted_automation_url target.url) ≡ false)
resolve_window_scoped_tab-allowed_example =
    resolve_window_scoped_tab-allowed true false 3 (some page) target page_routed

has_url : page.url ≢ some ""
has_url e = cc

get_access_status-resolve_window_scoped_tab_example :
    (get_access_status (some grant) true false (some page)).route_ready
    ≡ is_routed (resolve_window_scoped_tab true false 3 (some page))
get_access_status-resolve_window_scoped_tab_example =
    get_access_status-resolve_window_scoped_tab grant false page 5 refl refl refl has_url

normalize_requested_access_tab-resolve_window_scoped_tab_example :
    (normalize_requested_access_tab (some page) ≡ some target)
    ↔ (resolve_window_scoped_tab true false 3 (some page) ≡ routed target)
normalize_requested_access_tab-resolve_window_scoped_tab_example =
    normalize_requested_access_tab-resolve_window_scoped_tab page 3 target refl
