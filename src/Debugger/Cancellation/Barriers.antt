-- ===== src/Debugger/Cancellation/Barriers.antt =====
-- A barrier stands for a tab exactly as long as a cleanup of the tab has not been released.
use browser_bridge.Prelude.{
  ℕ, ◌+◌, ◌-◌, ◌≤◌, ◌<◌, ◌≡◌, refl, ap, sym, ◌∙◌, Bool, true, false, not, ◌&&◌, Option, none, some,
  List, [], ◌∷◌, arith, eqb, if◌then◌else◌, Bool-cases, Option-cases, inl, inr, nat_key,
}
use browser_bridge.Prelude.JsMap.{
  JsMap, get, put, delete, get-put, get-delete, put_cases, get-put_self, Distinct, get_first,
  put-Distinct,
}
use browser_bridge.Debugger.Cancellation.{
  Cancellation, CleanupBarrier, Release, initial, cancel, start_task, end_task, begin_cleanup,
  release, commit_cleanup, Call, cancels, starts, ends, begins_cleanup, releases, commits, step,
  run, stands,
}

-- Whether a release is one of the barrier that has not been called.
abbrev pub holds : ℕ → Release → ℕ
holds b rel = if not rel.released && eqb rel.barrier b then 1 else 0

pub outstanding : ℕ → JsMap ℕ Release → ℕ
outstanding b [] = 0
outstanding b ((r, rel) ∷ m) = holds b rel + outstanding b m

abbrev pub held_by : ℕ → Option Release → ℕ
held_by b none = 0
held_by b (some rel) = holds b rel

abbrev pub count_in : Option CleanupBarrier → ℕ
count_in none = 0
count_in (some barrier) = barrier.count

pub record IsSound (c : Cancellation) : Type 0 where
  pub exact : (b : ℕ) → count_in (get b c.heap) ≡ outstanding b c.releases
  pub standing :
      (r : ℕ) (rel : Release)
      → get r c.releases ≡ some rel
      → rel.released ≡ false
      → get rel.tab c.barriers ≡ some rel.barrier
  pub positive : (tab b : ℕ) → get tab c.barriers ≡ some b → 0 < count_in (get b c.heap)
  pub alone : (t u b : ℕ) → get t c.barriers ≡ some b → get u c.barriers ≡ some b → t ≡ u
  pub barrier_below : (tab b : ℕ) → get tab c.barriers ≡ some b → b < c.next_barrier
  pub heap_below : (b : ℕ) (x : CleanupBarrier) → get b c.heap ≡ some x → b < c.next_barrier
  pub release_below : (r : ℕ) (rel : Release) → get r c.releases ≡ some rel → r < c.next_release
  pub distinct : Distinct c.releases

outstanding-put :
    (b r : ℕ) (rel : Release) (m : JsMap ℕ Release)
    → outstanding b (put r rel m) + held_by b (get r m) ≡ outstanding b m + holds b rel
unfolding outstanding put get
outstanding-put b r rel [] = omega arith
outstanding-put b r rel ((j, x) ∷ m) = ground (arith, outstanding-put b r rel m)

holds-le : (b r : ℕ) (m : JsMap ℕ Release) → held_by b (get r m) ≤ outstanding b m
unfolding outstanding get
holds-le b r [] = omega arith
holds-le b r ((j, x) ∷ m) = ground (arith, holds-le b r m)

add_release-IsSound :
    (tab b : ℕ) (x : CleanupBarrier) (next : ℕ) (c : Cancellation)
    → IsSound c
    → count_in (get b c.heap) + 1 ≡ x.count
    → b < next
    → c.next_barrier ≤ next
    → ((t : ℕ) → get t c.barriers ≡ some b → t ≡ tab)
    → ((b' : ℕ) → get tab c.barriers ≡ some b' → b' ≡ b)
    → IsSound (record c {
      barriers = put tab b c.barriers;
      heap = put b x c.heap;
      releases =
          put c.next_release (record { tab = tab; barrier = b; released = false }) c.releases;
      next_barrier = next;
      next_release = c.next_release + 1;
    })
add_release-IsSound tab b x next c sound counted below later only same =
    let new : Release = record { tab = tab; barrier = b; released = false } in
    let unused : get c.next_release c.releases ≡ none =
      elim (Option-cases (get c.next_release c.releases)) [
        | inl e ↦ e
        | inr (rel, e) ↦ let low = sound.release_below c.next_release rel e in absurd (omega arith)
      ] in
    record {
      exact = λ j.
          let was = sound.exact j in
          let sum = outstanding-put j c.next_release new c.releases in
          ground (arith, get-put b j x c.heap);
      standing = λ r rel h live. elim (put_cases c.next_release r new rel c.releases h) [
        | inl (i, e) ↦ rw (sym e) (get-put_self tab b c.barriers)
        | inr before ↦
            let found = sound.standing r rel before live in
            let as_new = same rel.barrier in ground (arith, get-put tab rel.tab b c.barriers)
      ];
      positive = λ t j h.
          ground
            (arith, get-put b j x c.heap, put_cases tab t b j c.barriers h, sound.positive t j);
      alone = λ t u j ht hu. ground (
        arith,
        put_cases tab t b j c.barriers ht,
        put_cases tab u b j c.barriers hu,
        sound.alone t u j,
        only t,
        only u,
      );
      barrier_below =
          λ t j h. ground (arith, put_cases tab t b j c.barriers h, sound.barrier_below t j);
      heap_below = λ j y h. ground (arith, put_cases b j x y c.heap h, sound.heap_below j y);
      release_below = λ r rel h.
          ground
            (arith, put_cases c.next_release r new rel c.releases h, sound.release_below r rel);
      distinct = put-Distinct c.next_release new c.releases sound.distinct;
    }

begin_cleanup-IsSound : (tab : ℕ) (c : Cancellation) → IsSound c → IsSound (begin_cleanup tab c).0
unfolding begin_cleanup
begin_cleanup-IsSound tab c sound = elim (Option-cases (get tab c.barriers)) [
  | inl e ↦ rw e (
      add_release-IsSound tab c.next_barrier _ (c.next_barrier + 1) c sound (ground arith)
        (omega arith) (omega arith)
        (λ t h. let low = sound.barrier_below t c.next_barrier h in absurd (omega arith))
        (λ j h. cc))
  | inr (b, e) ↦ rw e (
      add_release-IsSound tab b _ c.next_barrier c sound (ground arith)
        (sound.barrier_below tab b e) (omega arith) (λ t h. sound.alone t tab b h e)
        (λ j h. ground arith))
]

call_release-IsSound :
    (r : ℕ) (rel : Release) (x : CleanupBarrier) (c : Cancellation)
    → IsSound c
    → get r c.releases ≡ some rel
    → rel.released ≡ false
    → get rel.barrier c.heap ≡ some x
    → IsSound (record c {
      releases = put r (record rel { released = true }) c.releases;
      heap = put rel.barrier (record x { count = x.count - 1 }) c.heap;
      barriers = if eqb (x.count - 1) 0 then delete rel.tab c.barriers else c.barriers;
    })
call_release-IsSound r rel x c sound here live found =
    let done : Release = record rel { released = true } in
    let less : CleanupBarrier = record x { count = x.count - 1 } in
    let at_tab = sound.standing r rel here live in
    let counted : (j : ℕ)
        → count_in (get j (put rel.barrier less c.heap)) ≡ outstanding j (put r done c.releases) =
      λ j.
        let was = sound.exact j in
        let sum = outstanding-put j r done c.releases in
        let part = holds-le j r c.releases in ground (arith, get-put rel.barrier j less c.heap) in
    record {
      exact = counted;
      standing = λ r' rel' h open'. elim (put_cases r r' done rel' c.releases h) [
        | inl (i, e) ↦ let flags = ap (λ (y : Release). y.released) e in absurd (ground arith)
        | inr before ↦
            let was = sound.standing r' rel' before open' in
            let held = holds-le rel.barrier r' (put r done c.releases) in
            let count = counted rel.barrier in
            ground
              (arith, get-put_self rel.barrier less c.heap, get-delete rel.tab rel'.tab c.barriers)
      ];
      positive = λ t j h. ground (
        arith,
        get-put rel.barrier j less c.heap,
        get-delete rel.tab t c.barriers,
        sound.positive t j,
        sound.alone t rel.tab j,
      );
      alone = λ t u j ht hu. ground (
        arith,
        get-delete rel.tab t c.barriers,
        get-delete rel.tab u c.barriers,
        sound.alone t u j,
      );
      barrier_below =
          λ t j h. ground (arith, get-delete rel.tab t c.barriers, sound.barrier_below t j);
      heap_below = λ j y h. ground (
        arith,
        put_cases rel.barrier j less y c.heap h,
        sound.heap_below j y,
        sound.heap_below rel.barrier x found,
      );
      release_below = λ r' rel' h. ground (
        arith,
        put_cases r r' done rel' c.releases h,
        sound.release_below r' rel',
        sound.release_below r rel here,
      );
      distinct = put-Distinct r done c.releases sound.distinct;
    }

stands_and :
    (a : Bool) (tab b : ℕ) (c : Cancellation)
    → get tab c.barriers ≡ some b
    → (a && stands tab b c) ≡ a
unfolding stands
stands_and a tab b c e = ground arith

release-IsSound : (r : ℕ) (c : Cancellation) → IsSound c → IsSound (release r c)
unfolding release
release-IsSound r c sound = elim (Option-cases (get r c.releases)) [
  | inl e ↦ rw (e, release) sound
  | inr (rel, e) ↦ elim (Bool-cases rel.released) [
    | inl done ↦ rw (e, release) (rw done sound)
    | inr live ↦ elim (Option-cases (get rel.barrier c.heap)) [
      | inl f ↦ rw (e, release) (rw live (rw f sound))
      | inr (x, f) ↦
          let at_tab = sound.standing r rel e live in
          let after = call_release-IsSound r rel x c sound e live f in
          rw (e, release)
            (rw live
              (rw f (rw (stands_and (eqb (x.count - 1) 0) rel.tab rel.barrier c at_tab) after)))
    ]
  ]
]

mark_discarding-IsSound :
    (b : ℕ) (x : CleanupBarrier) (c : Cancellation)
    → IsSound c
    → get b c.heap ≡ some x
    → IsSound (record c { heap = put b (record x { discarding = true }) c.heap })
mark_discarding-IsSound b x c sound found =
    let marked : CleanupBarrier = record x { discarding = true } in
    let same : (j : ℕ) → count_in (get j (put b marked c.heap)) ≡ count_in (get j c.heap) =
      λ j. ground (arith, get-put b j marked c.heap) in
    record {
      exact = λ j. same j ∙ sound.exact j;
      standing = sound.standing;
      positive = λ t j h. let old = sound.positive t j h in omega (arith, same j);
      alone = sound.alone;
      barrier_below = sound.barrier_below;
      heap_below = λ j y h. ground (
        arith,
        put_cases b j marked y c.heap h,
        sound.heap_below j y,
        sound.heap_below b x found,
      );
      release_below = sound.release_below;
      distinct = sound.distinct;
    }

commit_cleanup-IsSound : (tab : ℕ) (c : Cancellation) → IsSound c → IsSound (commit_cleanup tab c).0
unfolding commit_cleanup
commit_cleanup-IsSound tab c sound = elim (Option-cases (get tab c.barriers)) [
  | inl e ↦ rw (e, commit_cleanup) sound
  | inr (b, e) ↦ elim (Option-cases (get b c.heap)) [
    | inl f ↦ rw (e, commit_cleanup) (rw f sound)
    | inr (x, f) ↦ elim (Bool-cases x.discarding) [
      | inl done ↦ rw (e, commit_cleanup) (rw f (rw done sound))
      | inr first ↦ rw (e, commit_cleanup) (rw f (rw first (mark_discarding-IsSound b x c sound f)))
    ]
  ]
]

-- The tasks and the generations are no part of the invariant.
same_barriers-IsSound :
    (generations : JsMap ℕ ℕ) (in_flight : JsMap ℕ (JsMap ℕ ℕ)) (c : Cancellation)
    → IsSound c
    → IsSound (record c { generations = generations; in_flight = in_flight })
same_barriers-IsSound generations in_flight c sound = record {
  exact = sound.exact;
  standing = sound.standing;
  positive = sound.positive;
  alone = sound.alone;
  barrier_below = sound.barrier_below;
  heap_below = sound.heap_below;
  release_below = sound.release_below;
  distinct = sound.distinct;
}

pub step-IsSound : (call : Call) (c : Cancellation) → IsSound c → IsSound (step call c)
unfolding step cancel start_task end_task
step-IsSound (cancels tab) c sound = same_barriers-IsSound _ c.in_flight c sound
step-IsSound (starts tab g) c sound = same_barriers-IsSound c.generations _ c sound
step-IsSound (ends tab g) c sound = same_barriers-IsSound c.generations _ c sound
step-IsSound (begins_cleanup tab) c sound = begin_cleanup-IsSound tab c sound
step-IsSound (releases r) c sound = release-IsSound r c sound
step-IsSound (commits tab) c sound =
    let after = commit_cleanup-IsSound tab c sound in
    elim (Bool-cases (commit_cleanup tab c).1) [
      | inl discards ↦ rw discards (
          same_barriers-IsSound _ (commit_cleanup tab c).0.in_flight (commit_cleanup tab c).0 after)
      | inr waits ↦ rw waits after
    ]

pub run-IsSound : (calls : List Call) (c : Cancellation) → IsSound c → IsSound (run calls c)
unfolding run
run-IsSound [] c sound = sound
run-IsSound (call ∷ calls) c sound = run-IsSound calls (step call c) (step-IsSound call c sound)

pub initial-IsSound : IsSound initial
unfolding initial get outstanding
initial-IsSound = record {
  exact = λ b. refl;
  standing = λ r rel h o. cc;
  positive = λ t b h. cc;
  alone = λ t u b h k. cc;
  barrier_below = λ t b h. cc;
  heap_below = λ b x h. cc;
  release_below = λ r rel h. cc;
  distinct = tt;
}

pub outstanding_witness :
    (b : ℕ) (m : JsMap ℕ Release)
    → Distinct m
    → 0 < outstanding b m
    → (r : ℕ) × (rel : Release) × (get r m ≡ some rel) × (rel.released ≡ false) × (rel.barrier ≡ b)
unfolding outstanding get
outstanding_witness b [] d h = absurd (omega arith)
outstanding_witness b ((j, x) ∷ m) d h = elim (Bool-cases (not x.released && eqb x.barrier b)) [
  | inl here ↦ (j, x, get_first j x m, ground arith, ground arith)
  | inr other ↦
      let (r, rel, found, live, of_b) = outstanding_witness b m d.1 (ground arith) in
      (r, rel, ground arith, live, of_b)
]
