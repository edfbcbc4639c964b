-- ===== src/Access/Allowed.antt =====
-- What a routed tab satisfies, and that status and routing agree.
use browser_bridge.Prelude.{
  ℕ, ◌≡◌, ◌≢◌, refl, sym, ap, ◌∙◌, Bool, true, false, ◌&&◌, Option, none, some, String, arith, eqb,
  if◌then◌else◌, or_else, Bool-cases, Option-cases, inl, inr, ◌↔◌, ◌===◌, string_key,
}
use browser_bridge.Access.{
  EnabledWindow, Tab, ResolvedTabTarget, Routed, routed, tab_mismatch, access_denied,
  is_restricted_automation_url, committed_url, resolve_tab, resolve_window_scoped_tab, target_of,
  normalize_requested_access_tab, tab_status, active_tab_status, no_tab_status, get_access_status,
}

resolve_tab-allowed :
    (scriptable pending : Bool) (window : ℕ) (tab : Tab) (id window_id : ℕ) (t : ResolvedTabTarget)
    → resolve_tab scriptable pending window tab id window_id ≡ routed t
    → (t.window_id ≡ window)
      × ((t.url === "") ≡ false)
      × ((scriptable && is_restricted_automation_url t.url) ≡ false)
unfolding resolve_tab
resolve_tab-allowed scriptable pending window tab id window_id t h =
    let url = committed_url pending tab in
    elim (Bool-cases (eqb window_id window)) [
      | inr other ↦ absurd (ground arith)
      | inl same ↦ elim (Bool-cases (url === "")) [
        | inl empty ↦ absurd (ground arith)
        | inr some_url ↦ elim (Bool-cases (scriptable && is_restricted_automation_url url)) [
          | inl restricted ↦ absurd (ground arith)
          | inr free ↦
              let at : window_id ≡ t.window_id = ground arith in
              let there : url ≡ t.url = ground arith in
              (ground arith, rw (sym there) some_url, rw (sym there) free)
        ]
      ]
    ]

-- A request is routed only to a tab of the enabled window, with a URL that is not empty, and not to
-- a restricted page unless the caller does without scripts.
pub resolve_window_scoped_tab-allowed :
    (scriptable pending : Bool) (window : ℕ) (tab : Option Tab) (t : ResolvedTabTarget)
    → resolve_window_scoped_tab scriptable pending window tab ≡ routed t
    → (t.window_id ≡ window)
      × ((t.url === "") ≡ false)
      × ((scriptable && is_restricted_automation_url t.url) ≡ false)
unfolding resolve_window_scoped_tab
resolve_window_scoped_tab-allowed scriptable pending window none t h = cc
resolve_window_scoped_tab-allowed scriptable pending window (some tab) t h =
    elim (Option-cases tab.id) [
      | inl e ↦ absurd (ground arith)
      | inr (id, e) ↦ elim (Option-cases tab.window_id) [
        | inl f ↦ absurd (ground arith)
        | inr (window_id, f) ↦
            resolve_tab-allowed scriptable pending window tab id window_id t (rw (e, f) at h)
      ]
    ]

-- For a tab with an id, in a window, and with a committed URL, the routing needs no more than that
-- the page is not restricted.
resolve_committed :
    (window id : ℕ) (url : String) (tab : Tab)
    → tab.id ≡ some id
    → tab.window_id ≡ some window
    → tab.url ≡ some url
    → (url === "") ≡ false
    → resolve_window_scoped_tab true false window (some tab) ≡ (
        if is_restricted_automation_url url
        then access_denied
        else routed
            (record { tab_id = id; window_id = window; title = or_else tab.title ""; url = url }))
unfolding resolve_window_scoped_tab resolve_tab committed_url
resolve_committed window id url tab has_id here committed ne =
    let self : eqb window window ≡ true = ground arith in
    rw (has_id, here, committed) (rw (self, ne) (rw ne refl))

resolve_uncommitted :
    (window id : ℕ) (tab : Tab)
    → tab.id ≡ some id
    → tab.window_id ≡ some window
    → tab.url ≡ none
    → resolve_window_scoped_tab true false window (some tab) ≡ tab_mismatch
unfolding resolve_window_scoped_tab resolve_tab committed_url
resolve_uncommitted window id tab has_id here missing =
    let self : eqb window window ≡ true = ground arith in rw (has_id, here, missing) (rw self refl)

abbrev pub is_routed : Routed → Bool
is_routed (routed t) = true
is_routed _ = false

-- For an existing window and an active tab of it with a positive id, whose URL is not the empty
-- text, the status reports that it is ready to route exactly if the routing of that tab succeeds.
pub get_access_status-resolve_window_scoped_tab :
    (grant : EnabledWindow) (cleared : Bool) (tab : Tab) (id : ℕ)
    → tab.id ≡ some id
    → eqb id 0 ≡ false
    → tab.window_id ≡ some grant.window_id
    → tab.url ≢ some ""
    → (get_access_status (some grant) true cleared (some tab)).route_ready
      ≡ is_routed (resolve_window_scoped_tab true false grant.window_id (some tab))
unfolding get_access_status active_tab_status tab_status no_tab_status
get_access_status-resolve_window_scoped_tab grant cleared tab id has_id positive here ne =
    elim (Option-cases tab.url) [
      | inl missing ↦
          rw (resolve_uncommitted grant.window_id id tab has_id here missing)
            (rw (has_id, missing) refl)
      | inr (url, committed) ↦
          let some_url : (url === "") ≡ false =
            ground
              (arith, string_key.same_iff url "", λ (e : url ≡ ""). ne (committed ∙ ap some e)) in
          rw (resolve_committed grant.window_id id url tab has_id here committed some_url) (
            rw (has_id, committed)
              (rw positive (elim (Bool-cases (is_restricted_automation_url url)) [
                | inl restricted ↦ rw restricted refl
                | inr free ↦ rw free refl
              ])))
    ]

target_of-resolve_tab :
    (tab : Tab) (window id : ℕ) (t : ResolvedTabTarget)
    → (target_of tab id window ≡ some t) ↔ (resolve_tab true false window tab id window ≡ routed t)
unfolding target_of resolve_tab committed_url
target_of-resolve_tab tab window id t =
    let url = or_else tab.url "" in
    let self : eqb window window ≡ true = ground arith in
    elim (Bool-cases (url === "")) [
      | inl empty ↦ rw (self, empty) ((λ h. cc), (λ h. cc))
      | inr some_url ↦ elim (Bool-cases (is_restricted_automation_url url)) [
        | inl restricted ↦ rw (self, some_url) (rw (some_url, restricted) ((λ h. cc), (λ h. cc)))
        | inr free ↦
            rw (self, some_url) (rw (some_url, free) ((λ h. ground arith), (λ h. ground arith)))
      ]
    ]

-- A tab may ask for access to its window, as a target, exactly if the routing to that window
-- accepts the tab, as the same target.
pub normalize_requested_access_tab-resolve_window_scoped_tab :
    (tab : Tab) (window : ℕ) (t : ResolvedTabTarget)
    → tab.window_id ≡ some window
    → (normalize_requested_access_tab (some tab) ≡ some t)
      ↔ (resolve_window_scoped_tab true false window (some tab) ≡ routed t)
unfolding normalize_requested_access_tab resolve_window_scoped_tab
normalize_requested_access_tab-resolve_window_scoped_tab tab window t here =
    elim (Option-cases tab.id) [
      | inl e ↦ rw e ((λ h. cc), (λ h. cc))
      | inr (id, e) ↦ rw (e, here) (target_of-resolve_tab tab window id t)
    ]
