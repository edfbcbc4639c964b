-- ===== src/Telemetry/Rings.antt =====
-- The ring of the last three failure times of a group.
use browser_bridge.Prelude.{
  ℕ, zero, suc, ◌+◌, ◌%◌, ◌≤◌, ◌<◌, min, ◌≡◌, refl, length-set, ltb, ◌⊎◌, ◌∙◌, Bool, true, List, [],
  ◌∷◌, arith, length, set, every, Bool-cases, inl, inr,
}
use browser_bridge.Telemetry.{
  EventKind, Group, kind_key, failure_key, kind_same_iff, recovery_loop_threshold, in_loop_window,
  recent_failures, is_recent, new_group, fail, is_looping,
}

-- Three slots; until they are full the next one to write is the first that is empty.
abbrev pub RingOk : List ℕ → ℕ → ℕ → Type 0
RingOk fs next count = (length fs ≡ 3) × (next < 3) × (count ≤ 3) × ((next ≡ count) ⊎ (count ≡ 3))

abbrev pub GroupOk : Group → Type 0
GroupOk g = RingOk g.failures g.next g.count

full-or-next :
    (n count : ℕ)
    → n < 3
    → count ≤ 3
    → ((n ≡ count) ⊎ (count ≡ 3))
    → ((n + 1) % recovery_loop_threshold ≡ min recovery_loop_threshold (count + 1))
      ⊎ (min recovery_loop_threshold (count + 1) ≡ 3)
full-or-next n count h k (inr full) = inr (omega arith)
full-or-next n count h k (inl e) = elim (Bool-cases (ltb count 2)) [
  | inl low ↦ inl (ground arith)
  | inr high ↦ inr (ground arith)
]

pub fail-GroupOk : (g : Group) (now : ℕ) → GroupOk g → GroupOk (fail g now)
unfolding fail
fail-GroupOk g now ok = (
  length-set g.failures g.next now ∙ ok.0,
  omega arith,
  omega arith,
  full-or-next g.next g.count ok.1 ok.2 ok.3,
)

pub new_group-GroupOk : (kind : EventKind) (now : ℕ) → GroupOk (new_group kind now)
new_group-GroupOk kind now = (refl, omega arith, omega arith, inl refl)

-- The time that was just written is among those that `prune_groups` counts.
recent-set :
    (now t n count : ℕ) (fs : List ℕ)
    → RingOk fs n count
    → in_loop_window now t ≡ true
    → 0 < recent_failures now (min recovery_loop_threshold (count + 1)) (set fs n t)
unfolding recent_failures
recent-set now t n count [] ok w = absurd (omega arith)
recent-set now t n count (a ∷ []) ok w = absurd (omega arith)
recent-set now t n count (a ∷ b ∷ []) ok w = absurd (omega arith)
recent-set now t n count (a ∷ b ∷ c ∷ d ∷ fs) ok w = absurd (omega arith)
recent-set now t zero zero (a ∷ b ∷ c ∷ []) ok w = rw w (omega arith)
recent-set now t zero (suc count) (a ∷ b ∷ c ∷ []) ok w =
    let e : count ≡ 2 = omega arith in rw (e, w) (omega arith)
recent-set now t (suc zero) zero (a ∷ b ∷ c ∷ []) ok w = absurd (omega arith)
recent-set now t (suc zero) (suc zero) (a ∷ b ∷ c ∷ []) ok w = rw w (omega arith)
recent-set now t (suc zero) (suc (suc count)) (a ∷ b ∷ c ∷ []) ok w =
    let e : count ≡ 1 = omega arith in rw (e, w) (omega arith)
recent-set now t (suc (suc zero)) zero (a ∷ b ∷ c ∷ []) ok w = absurd (omega arith)
recent-set now t (suc (suc zero)) (suc zero) (a ∷ b ∷ c ∷ []) ok w = absurd (omega arith)
recent-set now t (suc (suc zero)) (suc (suc zero)) (a ∷ b ∷ c ∷ []) ok w = rw w (omega arith)
recent-set now t (suc (suc zero)) (suc (suc (suc count))) (a ∷ b ∷ c ∷ []) ok w =
    let e : count ≡ 0 = omega arith in rw (e, w) (omega arith)
recent-set now t (suc (suc (suc n))) count (a ∷ b ∷ c ∷ []) ok w = absurd (omega arith)

pub fail-is_recent :
    (now t : ℕ) (g : Group)
    → GroupOk g
    → in_loop_window now t ≡ true
    → is_recent now (fail g t) ≡ true
unfolding fail
fail-is_recent now t g ok w = ground (arith, recent-set now t g.next g.count g.failures ok w)

-- Three failures in a row fill the ring.
every-set :
    (p : ℕ → Bool) (r s t n : ℕ) (fs : List ℕ)
    → length fs ≡ 3
    → n < 3
    → p r ≡ true
    → p s ≡ true
    → p t ≡ true
    → every p (set (set (set fs n r) ((n + 1) % 3) s) (((n + 1) % 3 + 1) % 3) t) ≡ true
every-set p r s t n [] l h hr hs ht = absurd (omega arith)
every-set p r s t n (a ∷ []) l h hr hs ht = absurd (omega arith)
every-set p r s t n (a ∷ b ∷ []) l h hr hs ht = absurd (omega arith)
every-set p r s t n (a ∷ b ∷ c ∷ d ∷ fs) l h hr hs ht = absurd (omega arith)
every-set p r s t zero (a ∷ b ∷ c ∷ []) l h hr hs ht = rw (hr, hs, ht) refl
every-set p r s t (suc zero) (a ∷ b ∷ c ∷ []) l h hr hs ht = rw (hr, hs, ht) refl
every-set p r s t (suc (suc zero)) (a ∷ b ∷ c ∷ []) l h hr hs ht = rw (hr, hs, ht) refl
every-set p r s t (suc (suc (suc n))) (a ∷ b ∷ c ∷ []) l h hr hs ht = absurd (omega arith)

pub three-is_looping :
    (g : Group) (r s t : ℕ)
    → GroupOk g
    → in_loop_window t r ≡ true
    → in_loop_window t s ≡ true
    → in_loop_window t t ≡ true
    → is_looping g.kind t (fail (fail (fail g r) s) t) ≡ true
unfolding fail
three-is_looping g r s t ok hr hs ht = ground (
  arith,
  kind_same_iff g.kind g.kind,
  every-set (in_loop_window t) r s t g.next g.failures ok.0 ok.1 hr hs ht,
)
