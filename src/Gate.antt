-- ===== src/Gate.antt =====
-- packages/extension/src/background-mutation-gate.ts: the gate that a scheduled mutation passes
-- between the daemon's queue and its dispatch. `prepare` is a function of what its awaits bring:
-- the results of the browser, whether the window's grant still stands, the clock, and what others
-- do to the gate meanwhile. A promise is named by a number, and settles once.
pub mod Settled
pub mod Sound
pub mod Waits
pub mod Dispatched
pub mod Tests
use browser_bridge.Prelude.{
  ℕ, ◌+◌, Bool, true, false, not, ◌&&◌, Option, none, some, List, [], ◌∷◌, String, eqb,
  if◌then◌else◌, ◌===◌, nat_key, string_key,
}
use browser_bridge.Prelude.JsMap.{JsMap, get, put, delete}
use browser_bridge.Lifetimes.{Lifetimes, guard, guard_throws, track, untrack}

pub data Via : Type 0 where
  explicit working active : Via

pub is_explicit : Via → Bool
is_explicit explicit = true
is_explicit working = false
is_explicit active = false

pub record TabRouting : Type 0 where
  pub tab_id : ℕ
  pub via : Via
  pub active_tab_id : Option ℕ

pub record Target : Type 0 where
  pub tab_id : ℕ
  pub via : Option Via

pub record Snapshot : Type 0 where
  pub document_id : String
  pub url : String

pub record Request : Type 0 where
  pub id : String
  pub deadline_ms : Option ℕ
  pub mutation_schedule : Bool
  pub tab_id : Option ℕ

pub record Waiting : Type 0 where
  pub tab_id : ℕ
  pub promise : ℕ

pub record Pin : Type 0 where
  pub tab_id : ℕ
  pub via : Via

pub data Settlement : Type 0 where
  granted target_changed canceled : Settlement

-- `settled` holds a pending promise as `none`. `sent` holds the ready messages, the last first.
pub record Gate : Type 0 where
  pub waiting : JsMap String Waiting
  pub pins : JsMap String Pin
  pub settled : JsMap ℕ (Option Settlement)
  pub next_promise : ℕ
  pub sent : List (String × ℕ)
  pub lifetimes : Lifetimes

-- The first `resolve` or `reject` of a promise counts.
pub settle : ℕ → Settlement → Gate → Gate
settle p how st = elim (get p st.settled) [
  | none ↦ st
  | some found ↦ elim found [
    | some done ↦ st
    | none ↦ record st { settled = put p (some how) st.settled }
  ]
]

-- A message from the host: its type, and the request id if that is a string.
pub handle : String → Option String → Gate → Gate × Bool
handle type request_id st = if not (type === "host.mutation_granted") then (st, false) else (
  elim request_id [
    | none ↦ st
    | some id ↦ elim (get id st.waiting) [
      | none ↦ st
      | some entry ↦ settle entry.promise granted st
    ]
  ],
  true,
)

-- The loop of `invalidate` over the waiting entries.
pub reject_tab : ℕ → JsMap String Waiting → Gate → Gate
reject_tab tab [] st = st
reject_tab tab ((id, entry) ∷ rest) st =
    reject_tab tab rest
      (if eqb entry.tab_id tab then settle entry.promise target_changed st else st)

pub invalidate : ℕ → Gate → Gate
invalidate tab st = reject_tab tab st.waiting st

pub routing : String → TabRouting → Gate → TabRouting
routing id routed st = elim (get id st.pins) [
  | none ↦ routed
  | some pin ↦
      if is_explicit routed.via && eqb routed.tab_id pin.tab_id
      then record routed { via = pin.via }
      else routed
]

pub release : String → Gate → Gate
release id st = record st { pins = delete id st.pins }

abbrev pub Meanwhile : Type 0
Meanwhile = Gate → Gate

-- What an await brings: what others did, whether `assertAccess` passes after it, and the clock.
pub record Await : Type 0 where
  pub others : Meanwhile
  pub access : Bool
  pub now : ℕ

-- A result of the browser that is `none` is a rejection.
pub record Preparation : Type 0 where
  pub resolving : Await
  pub target : Option Target
  pub granting : Await
  pub snapshot : Option Snapshot
  pub checking : Await
  pub current : Option Snapshot

pub data Failure : Type 0 where
  unresolved access_revoked inactive snapshot_failed document_changed : Failure
  not_granted : Settlement → Failure

pub data Outcome : Type 0 where
  dispatched : Request → Outcome
  failed : Failure → Outcome
  still_waiting : Outcome

-- `assertAccess(); assertActive();` with the lifetime that the guard has captured.
pub assert_both : Option ℕ → Option ℕ → Await → Gate → Option Failure
assert_both captured deadline await st =
    if not await.access
    then some access_revoked
    else if guard_throws captured deadline await.now st.lifetimes
    then some inactive
    else none

-- A target that was chosen for the request is remembered.
pub pin_target : String → Target → Gate → Gate
pin_target id target st = elim target.via [
  | none ↦ st
  | some via ↦
      if is_explicit via
      then st
      else record st { pins = put id (record { tab_id = target.tab_id; via = via }) st.pins }
]

-- The mutation waits for its grant, and the host is told of its tab. The check that the request is
-- active, which the source repeats here, was made in the same turn.
pub report_ready : String → ℕ → Gate → Gate
report_ready id tab st = record st {
  waiting = put id (record { tab_id = tab; promise = st.next_promise }) st.waiting;
  settled = put st.next_promise none st.settled;
  next_promise = st.next_promise + 1;
  lifetimes = (track id st.next_promise st.lifetimes).0;
  sent = (id, tab) ∷ st.sent;
}

-- The `finally` after the grant: `waiting.delete`, and `untrack` of the captured lifetime.
pub stop_waiting : String → Option ℕ → ℕ → Gate → Gate
stop_waiting id captured p st = record st {
  waiting = delete id st.waiting;
  lifetimes = elim captured [ none ↦ st.lifetimes | some n ↦ untrack n p st.lifetimes ];
}

-- The second snapshot, and the comparison of the documents.
pub check_document : Request → Preparation → ℕ → Option ℕ → Snapshot → Gate → Gate × Outcome
check_document request w tab captured snapshot st =
    let checked = w.checking.others st in
    elim w.current [
      | none ↦ (checked, failed snapshot_failed)
      | some current ↦ (
        checked,
        elim (assert_both captured request.deadline_ms w.checking checked) [
          | some e ↦ failed e
          | none ↦
              if current.document_id === snapshot.document_id && current.url === snapshot.url
              then dispatched (record request { tab_id = some tab })
              else failed document_changed
        ],
      )
    ]

-- `Promise.all` of the snapshot and the grant: it ends when both are there or one is rejected.
pub await_grant : Request → Preparation → ℕ → Option ℕ → ℕ → Gate → Gate × Outcome
await_grant request w tab captured p st =
    let left = stop_waiting request.id captured p st in
    elim (get p st.settled) [
      | none ↦ (st, still_waiting)
      | some found ↦ elim w.snapshot [
        | none ↦ (left, failed snapshot_failed)
        | some snapshot ↦ elim found [
          | none ↦ (st, still_waiting)
          | some how ↦ elim how [
            | target_changed ↦ (left, failed (not_granted target_changed))
            | canceled ↦ (left, failed (not_granted canceled))
            | granted ↦ elim (assert_both captured request.deadline_ms w.granting left) [
              | some e ↦ (left, failed e)
              | none ↦ check_document request w tab captured snapshot left
            ]
          ]
        ]
      ]
    ]

-- `prepare` from the resolved target on.
pub prepare_target : Request → Preparation → Target → Option ℕ → Gate → Gate × Outcome
prepare_target request w target captured st =
    let pinned = pin_target request.id target st in
    elim (assert_both captured request.deadline_ms w.resolving pinned) [
      | some e ↦ (pinned, failed e)
      | none ↦
          await_grant request w target.tab_id captured pinned.next_promise
            (w.granting.others (report_ready request.id target.tab_id pinned))
    ]

pub prepare : Request → Preparation → Gate → Gate × Outcome
prepare request w st =
    if not request.mutation_schedule then (st, dispatched request) else elim w.target [
      | none ↦ (w.resolving.others st, failed unresolved)
      | some target ↦
          prepare_target request w target (guard request.id st.lifetimes) (w.resolving.others st)
    ]

-- What others do while a mutation waits: messages, navigations, cancellations, which call the
-- canceler of a promise, other calls of `prepare` with their parts, and whatever else happens to the
-- lifetimes of the requests.
pub data Call : Type 0 where
  handles : String → Option String → Call
  invalidates : ℕ → Call
  cancels : ℕ → Call
  releases : String → Call
  pin_targets : String → Target → Call
  reports : String → ℕ → Call
  stops : String → Option ℕ → ℕ → Call
  requests : (Lifetimes → Lifetimes) → Call

pub step : Call → Gate → Gate
step (handles type request_id) st = (handle type request_id st).0
step (invalidates tab) st = invalidate tab st
step (cancels p) st = settle p canceled st
step (releases id) st = release id st
step (pin_targets id target) st = pin_target id target st
step (reports id tab) st = report_ready id tab st
step (stops id captured p) st = stop_waiting id captured p st
step (requests f) st = record st { lifetimes = f st.lifetimes }

pub run : List Call → Gate → Gate
run [] st = st
run (c ∷ calls) st = run calls (step c st)
