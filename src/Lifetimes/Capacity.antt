-- ===== src/Lifetimes/Capacity.antt =====
-- The capacity of active requests: it is never exceeded, and no cancellation gives it back.
use browser_bridge.Prelude.{
  ℕ, ◌≤◌, ◌≡◌, refl, ◌∙◌, ap, Bool, true, false, none, some, List, [], ◌∷◌, String, arith, leb, eqb,
  if◌then◌else◌, Bool-cases, Option-cases, inl, inr, ◌||◌, nat_key, string_key, Each, ◌≢◌,
}
use browser_bridge.Prelude.JsMap.{
  size, get, has, delete, get-put, get-delete, size-put-le, size-delete-le,
}
use browser_bridge.Lifetimes.{
  Lifetimes, Lifetime, Request, begin, update, abort, cancel, expire, finish, is_current, track,
  untrack, cancel_owner, disconnect, abort_all, key, Call, step, run, begins, finishes, cancels,
  cancels_owner, tracks, untracks, expires, disconnects, initial,
}

-- The active requests and the limit are as they were.
record Holds (st st' : Lifetimes) : Type 0 where
  same_active : st'.active ≡ st.active
  same_limit : st'.max_pending ≡ st.max_pending

Holds-refl : {st : Lifetimes} → Holds st st
Holds-refl = record { same_active = refl; same_limit = refl }

Holds-trans : {a b c : Lifetimes} → Holds a b → Holds b c → Holds a c
Holds-trans f g = record {
  same_active = g.same_active ∙ f.same_active;
  same_limit = g.same_limit ∙ f.same_limit;
}

update-Holds : (n : ℕ) (f : Lifetime → Lifetime) (st : Lifetimes) → Holds st (update n f st)
unfolding update
update-Holds n f st = elim (Option-cases (get n st.heap)) [
  | inl e ↦ rw (e, update) Holds-refl
  | inr (l, e) ↦ rw (e, update) (record { same_active = refl; same_limit = refl })
]

abort-Holds : (n : ℕ) (st : Lifetimes) → Holds st (abort n st)
unfolding abort
abort-Holds n st = elim (Option-cases (get n st.heap)) [
  | inl e ↦ rw (e, abort) Holds-refl
  | inr (l, e) ↦ elim (Bool-cases l.aborted) [
    | inl done ↦ rw (e, abort) (rw done Holds-refl)
    | inr live ↦ rw (e, abort) (rw live (record { same_active = refl; same_limit = refl }))
  ]
]

expire-Holds : (n : ℕ) (st : Lifetimes) → Holds st (expire n st)
unfolding expire
expire-Holds n st = elim (Option-cases (get n st.heap)) [
  | inl e ↦ rw (e, expire) Holds-refl
  | inr (l, e) ↦ elim (Bool-cases l.timer) [
    | inl armed ↦ rw (e, expire) (rw armed (abort-Holds n st))
    | inr cleared ↦ rw (e, expire) (rw cleared Holds-refl)
  ]
]

cancel-Holds : (id : String) (st : Lifetimes) → Holds st (cancel id st)
unfolding cancel
cancel-Holds id st = elim (Option-cases (get (key id) st.active)) [
  | inl e ↦ rw (e, cancel) Holds-refl
  | inr (n, e) ↦ rw (e, cancel) (abort-Holds n st)
]

abort_all-Holds :
    (stops : Lifetime → Bool) (ns : List ℕ) (st : Lifetimes) → Holds st (abort_all stops ns st)
unfolding abort_all
abort_all-Holds stops [] st = Holds-refl
abort_all-Holds stops (n ∷ ns) st =
    let hit : Bool = elim (get n st.heap) [ none ↦ false | some lifetime ↦ stops lifetime ] in
    elim (Bool-cases hit) [
      | inl e ↦ rw e (Holds-trans (abort-Holds n st) (abort_all-Holds stops ns (abort n st)))
      | inr e ↦ rw e (abort_all-Holds stops ns st)
    ]

track-Holds : (id : String) (canceler : ℕ) (st : Lifetimes) → Holds st (track id canceler st).0
unfolding track
track-Holds id canceler st = elim (Option-cases (get (key id) st.active)) [
  | inl e ↦ rw (e, track) Holds-refl
  | inr (n, e) ↦ elim (Option-cases (get n st.heap)) [
    | inl f ↦ rw (e, track) (rw f Holds-refl)
    | inr (l, f) ↦ elim (Bool-cases l.aborted) [
      | inl done ↦ rw (e, track) (rw f (rw done (record { same_active = refl; same_limit = refl })))
      | inr live ↦ rw (e, track) (rw f (rw live (update-Holds n _ st)))
    ]
  ]
]

-- `finish` takes away its own request, and no other.
finish-active :
    (id : String) (n : ℕ) (st : Lifetimes)
    → (finish id n st).active ≡ (if is_current id n st then delete id st.active else st.active)
unfolding finish
finish-active id n st =
    let same = (update-Holds n (λ l. record l { timer = false }) st).same_active in
    elim (Bool-cases (is_current id n st)) [
      | inl e ↦ rw e (ap (delete id) same)
      | inr e ↦ rw e same
    ]

finish-limit :
    (id : String) (n : ℕ) (st : Lifetimes) → (finish id n st).max_pending ≡ st.max_pending
unfolding finish
finish-limit id n st =
    let same = (update-Holds n (λ l. record l { timer = false }) st).same_limit in
    elim (Bool-cases (is_current id n st)) [ inl e ↦ rw e same | inr e ↦ rw e same ]

-- The limit, and what a call does to one active request.
record Bounds (st st' : Lifetimes) : Type 0 where
  limit : st'.max_pending ≡ st.max_pending
  room : size st.active ≤ st.max_pending → size st'.active ≤ st'.max_pending

Holds-Bounds : {st st' : Lifetimes} → Holds st st' → Bounds st st'
Holds-Bounds h = record { limit = h.same_limit; room = λ r. rw (h.same_active, h.same_limit) r }

finish-Bounds : (id : String) (n : ℕ) (st : Lifetimes) → Bounds st (finish id n st)
finish-Bounds id n st =
    let less = size-delete-le id st.active in
    record {
      limit = finish-limit id n st;
      room = λ r. elim (Bool-cases (is_current id n st)) [
        | inl e ↦ rw (finish-limit, finish-active, e) (omega arith)
        | inr e ↦ rw (finish-limit, finish-active, e) r
      ];
    }

begin-Bounds : (request : Request) (now : ℕ) (st : Lifetimes) → Bounds st (begin request now st).0
unfolding begin
begin-Bounds request now st =
    elim (Bool-cases (leb st.max_pending (size st.active) || has request.id st.active)) [
      | inl full ↦ rw full (Holds-Bounds Holds-refl)
      | inr free ↦
          let grown = size-put-le request.id st.allocated st.active in
          rw free (record { limit = refl; room = λ r. ground arith })
    ]

step-Bounds : (c : Call) (st : Lifetimes) → Bounds st (step c st)
unfolding step cancel_owner disconnect untrack
step-Bounds (begins request now) st = begin-Bounds request now st
step-Bounds (finishes id n) st = finish-Bounds id n st
step-Bounds (cancels id) st = Holds-Bounds (cancel-Holds id st)
step-Bounds (cancels_owner owner) st = Holds-Bounds (abort_all-Holds _ _ st)
step-Bounds (tracks id canceler) st = Holds-Bounds (track-Holds id canceler st)
step-Bounds (untracks n canceler) st = Holds-Bounds (update-Holds n _ st)
step-Bounds (expires n) st = Holds-Bounds (expire-Holds n st)
step-Bounds disconnects st = Holds-Bounds (abort_all-Holds _ _ st)

run-Bounds : (calls : List Call) (st : Lifetimes) → Bounds st (run calls st)
unfolding run
run-Bounds [] st = record { limit = refl; room = λ r. r }
run-Bounds (c ∷ calls) st =
    let first = step-Bounds c st in
    let rest = run-Bounds calls (step c st) in
    record { limit = rest.limit ∙ first.limit; room = λ r. rest.room (first.room r) }

-- After any sequence of calls, at most `maxPending` requests are active.
pub size-run-initial :
    (calls : List Call) (max_pending : ℕ)
    → size (run calls (initial max_pending)).active ≤ max_pending
unfolding initial
size-run-initial calls max_pending =
    let all = run-Bounds calls (initial max_pending) in
    let small = all.room (omega arith) in ground (arith, all.limit)

-- A request stays active under its id through any calls but its own `finish`.
begin-get :
    (request : Request) (now : ℕ) (id : String) (n : ℕ) (st : Lifetimes)
    → get id st.active ≡ some n
    → get id (begin request now st).0.active ≡ some n
unfolding begin
begin-get request now id n st h =
    elim (Bool-cases (leb st.max_pending (size st.active) || has request.id st.active)) [
      | inl full ↦ rw full h
      | inr free ↦ rw free (
          ground (
            arith,
            get-put request.id id st.allocated st.active,
            string_key.same_iff request.id id,
          ))
    ]

is_current-get :
    (id : String) (n : ℕ) (st : Lifetimes) → is_current id n st ≡ true → get id st.active ≡ some n
unfolding is_current
is_current-get id n st h = elim (Option-cases (get id st.active)) [
  | inl e ↦ absurd (ground arith)
  | inr (m, e) ↦ let same : eqb m n ≡ true = rw (e, is_current) at h in rw e (ground arith)
]

finish-get :
    (other : String) (m : ℕ) (id : String) (n : ℕ) (st : Lifetimes)
    → get id st.active ≡ some n
    → m ≢ n
    → get id (finish other m st).active ≡ some n
finish-get other m id n st h ne = elim (Bool-cases (is_current other m st)) [
  | inl e ↦
      let current = is_current-get other m st e in
      rw (finish-active, e)
        (ground (arith, get-delete other id st.active, string_key.same_iff other id))
  | inr e ↦ rw (finish-active, e) h
]

abbrev pub IsOther : ℕ → Call → Type 0
IsOther n (finishes id m) = m ≢ n
IsOther n _ = Unit

Holds-get :
    {st st' : Lifetimes} (id : String) (n : ℕ)
    → Holds st st'
    → get id st.active ≡ some n
    → get id st'.active ≡ some n
Holds-get id n same h = rw same.same_active h

step-get :
    (c : Call) (id : String) (n : ℕ) (st : Lifetimes)
    → IsOther n c
    → get id st.active ≡ some n
    → get id (step c st).active ≡ some n
unfolding step cancel_owner disconnect untrack
step-get (begins request now) id n st o h = begin-get request now id n st h
step-get (finishes other m) id n st o h = finish-get other m id n st h o
step-get (cancels other) id n st o h = Holds-get id n (cancel-Holds other st) h
step-get (cancels_owner owner) id n st o h = Holds-get id n (abort_all-Holds _ _ st) h
step-get (tracks other canceler) id n st o h = Holds-get id n (track-Holds other canceler st) h
step-get (untracks m canceler) id n st o h = Holds-get id n (update-Holds m _ st) h
step-get (expires m) id n st o h = Holds-get id n (expire-Holds m st) h
step-get disconnects id n st o h = Holds-get id n (abort_all-Holds _ _ st) h

-- Capacity is not given back by canceling: an active request keeps its place through any calls,
-- among them its cancellation, expiry and a disconnect, as long as the closure that its own
-- `begin` returned is not called.
pub run-keeps_active :
    (calls : List Call) (id : String) (n : ℕ) (st : Lifetimes)
    → Each (IsOther n) calls
    → get id st.active ≡ some n
    → get id (run calls st).active ≡ some n
unfolding run
run-keeps_active [] id n st o h = h
run-keeps_active (c ∷ calls) id n st o h =
    run-keeps_active calls id n (step c st) o.1 (step-get c id n st o.0 h)
