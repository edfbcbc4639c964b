-- ===== src/Lifetimes.antt =====
-- packages/extension/src/background-request-lifetime.ts: the requests that the extension is running,
-- their deadlines and their cancellation. A `Lifetime` is an object that closures keep after it has
-- left the map of active requests, so the lifetimes stand in a heap by their allocation number, and
-- the closures that `begin`, `guard` and `track` return are their numbers. The clock is read once
-- for each call. Whether a timer is due is for the platform: `expire` is its callback.
pub mod Kept
pub mod Running
pub mod Capacity
pub mod Tests
use Prim.Native.Char.{code}
use browser_bridge.Prelude.{
  ℕ, zero, suc, ◌+◌, ◌-◌, min, Bool, true, false, not, ◌&&◌, ◌||◌, Option, none, some, List, [],
  ◌∷◌, ◌++◌, String, ltb, leb, eqb, if◌then◌else◌, or_else, is_some, filter, Key, ◌===◌, string_key,
  nat_key,
}
use browser_bridge.Prelude.JsMap.{JsMap, size, values, get, has, put, delete}

abbrev pub lifetime_limit_ms : ℕ
lifetime_limit_ms = 122000

pub record Request : Type 0 where
  pub id : String
  pub deadline_ms : Option ℕ
  pub artifact_ack : Bool
  pub transport_owner : String

pub record Lifetime : Type 0 where
  pub artifact_ack : Bool
  pub owner : String
  pub aborted : Bool
  pub deadline : ℕ
  pub timer : Bool
  pub cancelers : List ℕ

-- `called` lists the cancelers that have been called, the last first.
pub record Lifetimes : Type 0 where
  pub active : JsMap String ℕ
  pub heap : JsMap ℕ Lifetime
  pub allocated : ℕ
  pub max_pending : ℕ
  pub called : List ℕ

unfoldable pub initial : ℕ → Lifetimes
initial max_pending = record {
  active = [];
  heap = [];
  allocated = 0;
  max_pending = max_pending;
  called = [];
}

-- `id.split('#', 1)[0]`
unfoldable pub key : String → String
key String.[] = String.[]
key (String.◌∷◌ c rest) = if eqb (code c) b'#' then String.[] else String.◌∷◌ c (key rest)

pub begin : Request → ℕ → Lifetimes → Lifetimes × Option ℕ
begin request now st =
    let lifetime : Lifetime = record {
      artifact_ack = request.artifact_ack;
      owner = request.transport_owner;
      aborted = false;
      deadline =
          min (now + lifetime_limit_ms) (or_else request.deadline_ms (now + lifetime_limit_ms));
      timer = true;
      cancelers = [];
    } in
    if leb st.max_pending (size st.active) || has request.id st.active then (st, none) else (
      record st {
        active = put request.id st.allocated st.active;
        heap = put st.allocated lifetime st.heap;
        allocated = st.allocated + 1;
      },
      some st.allocated,
    )

-- Write an object of the heap.
unfoldable pub update : ℕ → (Lifetime → Lifetime) → Lifetimes → Lifetimes
update n f st = elim (get n st.heap) [
  | none ↦ st
  | some lifetime ↦ record st { heap = put n (f lifetime) st.heap }
]

-- `active.get(request.id) === lifetime`
pub is_current : String → ℕ → Lifetimes → Bool
is_current id n st = elim (get id st.active) [ none ↦ false | some m ↦ eqb m n ]

-- The closure that `begin` returns.
pub finish : String → ℕ → Lifetimes → Lifetimes
finish id n st =
    let stopped = update n (λ l. record l { timer = false }) st in
    if is_current id n st then record stopped { active = delete id stopped.active } else stopped

-- `controller.abort`: the first one calls the cancelers.
pub abort : ℕ → Lifetimes → Lifetimes
abort n st = elim (get n st.heap) [
  | none ↦ st
  | some lifetime ↦ if lifetime.aborted then st else record st {
    heap = put n (record lifetime { aborted = true }) st.heap;
    called = lifetime.cancelers ++ st.called;
  }
]

-- The callback of the timer, if it has not been cleared.
pub expire : ℕ → Lifetimes → Lifetimes
expire n st = elim (get n st.heap) [
  | none ↦ st
  | some lifetime ↦ if lifetime.timer then abort n st else st
]

-- What `guard` captures, and the check of its closure: whether it throws.
unfoldable pub guard : String → Lifetimes → Option ℕ
guard id st = get (key id) st.active

unfoldable pub is_past : Option ℕ → ℕ → Bool
is_past none now = false
is_past (some deadline) now = leb deadline now

-- `lifetime.controller.signal.aborted || Date.now() >= lifetime.deadline`
unfoldable pub is_over : Option ℕ → ℕ → Lifetimes → Bool
is_over none now st = false
is_over (some n) now st = elim (get n st.heap) [
  | none ↦ false
  | some lifetime ↦ lifetime.aborted || leb lifetime.deadline now
]

unfoldable pub guard_throws : Option ℕ → Option ℕ → ℕ → Lifetimes → Bool
guard_throws captured deadline now st = is_over captured now st || is_past deadline now

pub cancel : String → Lifetimes → Lifetimes
cancel id st = elim (get (key id) st.active) [ none ↦ st | some n ↦ abort n st ]

-- `cancelers` is a set, so a canceler stands in it once.
unfoldable pub track : String → ℕ → Lifetimes → Lifetimes × Option ℕ
track id canceler st = elim (get (key id) st.active) [
  | none ↦ (st, none)
  | some n ↦ elim (get n st.heap) [
    | none ↦ (st, none)
    | some lifetime ↦
        if lifetime.aborted then (record st { called = canceler ∷ st.called }, some n) else (
          update n
              (λ l. record l {
                cancelers = filter (λ c. not (eqb c canceler)) l.cancelers ++ canceler ∷ [];
              })
              st,
          some n,
        )
  ]
]

-- The closure that `track` returns.
unfoldable pub untrack : ℕ → ℕ → Lifetimes → Lifetimes
untrack n canceler st =
    update n (λ l. record l { cancelers = filter (λ c. not (eqb c canceler)) l.cancelers }) st

-- The loops of `cancelOwner` and `disconnect` over the active lifetimes.
pub abort_all : (Lifetime → Bool) → List ℕ → Lifetimes → Lifetimes
abort_all stops [] st = st
abort_all stops (n ∷ ns) st =
    let hit : Bool = elim (get n st.heap) [ none ↦ false | some lifetime ↦ stops lifetime ] in
    abort_all stops ns (if hit then abort n st else st)

pub cancel_owner : String → Lifetimes → Lifetimes
cancel_owner owner st = abort_all (λ l. l.owner === owner) (values st.active) st

pub disconnect : Lifetimes → Lifetimes
disconnect st = abort_all (λ l. true) (values st.active) st

pub acknowledges_artifacts : String → Lifetimes → Bool
acknowledges_artifacts id st = elim (get (key id) st.active) [
  | none ↦ false
  | some n ↦ elim (get n st.heap) [ none ↦ false | some lifetime ↦ lifetime.artifact_ack ]
]

pub data Call : Type 0 where
  begins : Request → ℕ → Call
  finishes : String → ℕ → Call
  cancels cancels_owner : String → Call
  tracks : String → ℕ → Call
  untracks : ℕ → ℕ → Call
  expires : ℕ → Call
  disconnects : Call

pub step : Call → Lifetimes → Lifetimes
step (begins request now) st = (begin request now st).0
step (finishes id n) st = finish id n st
step (cancels id) st = cancel id st
step (cancels_owner owner) st = cancel_owner owner st
step (tracks id canceler) st = (track id canceler st).0
step (untracks n canceler) st = untrack n canceler st
step (expires n) st = expire n st
step disconnects st = disconnect st

pub run : List Call → Lifetimes → Lifetimes
run [] st = st
run (c ∷ calls) st = run calls (step c st)
