-- ===== src/Telemetry/Ring.antt =====
-- The ring of buckets: a bucket stands at the index of its start, and its place is taken over only
-- when it has left the window.
use browser_bridge.Prelude.{
  ℕ, zero, suc, ◌+◌, ◌%◌, ◌≤◌, ◌<◌, ◌≡◌, ◌≢◌, refl, sym, ap, subst, ◌∙◌, true, false, Option, none,
  some, List, arith, eqb, length, get_elem?, set, replicate, get_elem?-set_self, get_elem?-set_ne,
  length-set, Bool-cases, inl, inr,
}
use browser_bridge.Telemetry.{
  EventKind, Outcome, Bucket, recovery_bucket_ms, recovery_window_ms, bucket_count, bucket_start,
  bucket_index, current_bucket, add_event, record_bucket, empty, is_live,
}

-- Where a bucket may stand: at the index of its start, which is a multiple of the bucket length
-- and not later than `top`.
pub record IsPlaced (top i : ℕ) (b : Bucket) : Type 0 where
  pub at_index : bucket_index b.start ≡ i
  pub aligned : b.start % recovery_bucket_ms ≡ 0
  pub begun : b.start ≤ top

pub record RingInv (top : ℕ) (buckets : List (Option Bucket)) : Type 0 where
  pub full : length buckets ≡ bucket_count
  pub placed : (i : ℕ) (b : Bucket) → get_elem? buckets i ≡ some (some b) → IsPlaced top i b

pub bucket_start-le : (now : ℕ) → bucket_start now ≤ now
unfolding bucket_start
bucket_start-le now = omega arith

pub bucket_start_mono : (a b : ℕ) → a ≤ b → bucket_start a ≤ bucket_start b
unfolding bucket_start
bucket_start_mono a b h = omega arith

pub bucket_start_aligned : (now : ℕ) → bucket_start now % recovery_bucket_ms ≡ 0
unfolding bucket_start
bucket_start_aligned now = omega arith

pub index-lt : (start : ℕ) → bucket_index start < bucket_count
unfolding bucket_index
index-lt start = omega arith

-- Two starts at one index are the same, or a whole turn of the ring lies between them.
turn :
    (a b : ℕ)
    → a % recovery_bucket_ms ≡ 0
    → b % recovery_bucket_ms ≡ 0
    → bucket_index a ≡ bucket_index b
    → a ≤ b
    → a ≢ b
    → a + recovery_bucket_ms + recovery_window_ms ≤ b
unfolding bucket_index
turn a b p q h le ne = omega arith

-- A bucket that gives its place to another start is out of the window from then on.
pub replaced_not_live :
    (i start now : ℕ) (b : Bucket)
    → IsPlaced start i b
    → start % recovery_bucket_ms ≡ 0
    → bucket_index start ≡ i
    → b.start ≢ start
    → start ≤ now
    → is_live now b ≡ false
replaced_not_live i start now b p al ix ne h =
    ground (arith, turn b.start start p.aligned al (ix' p.at_index ix) p.begun ne)
  where
    ix' :
        bucket_index b.start ≡ i
        → bucket_index start ≡ i
        → bucket_index b.start ≡ bucket_index start
    ix' e f = cc

pub start-current_bucket :
    (o : Option (Option Bucket)) (start : ℕ) → (current_bucket o start).start ≡ start
start-current_bucket none start = refl
start-current_bucket (some none) start = refl
start-current_bucket (some (some b)) start = ground arith

pub start-add_event :
    (b : Bucket) (kind : EventKind) (o : Outcome) (now : ℕ)
    → (add_event b kind o now).start ≡ b.start
unfolding add_event
start-add_event b kind o now = refl

IsPlaced-mono : {top top' i : ℕ} {b : Bucket} → IsPlaced top i b → top ≤ top' → IsPlaced top' i b
IsPlaced-mono p h = record { at_index = p.at_index; aligned = p.aligned; begun = omega arith }

pub RingInv-mono :
    {top top' : ℕ} {buckets : List (Option Bucket)}
    → RingInv top buckets
    → top ≤ top'
    → RingInv top' buckets
RingInv-mono r h = record { full = r.full; placed = λ i b e. IsPlaced-mono (r.placed i b e) h }

set-IsPlaced :
    (top i : ℕ) (new : Bucket) (buckets : List (Option Bucket))
    → RingInv top buckets
    → IsPlaced top i new
    → i < bucket_count
    → (j : ℕ) (b : Bucket) → get_elem? (set buckets i (some new)) j ≡ some (some b)
    → IsPlaced top j b
set-IsPlaced top i new buckets r p h j b e = elim (Bool-cases (eqb i j)) [
  | inl same ↦ subst (λ k. IsPlaced top k b) (i-eq-j same) (subst (IsPlaced top i) (new-eq same) p)
  | inr other ↦ r.placed j b (sym (get_elem?-set_ne buckets i j (some new) (ground arith)) ∙ e)
]
  where
    i-eq-j : eqb i j ≡ true → i ≡ j
    i-eq-j same = ground arith

    self : get_elem? (set buckets i (some new)) i ≡ some (some new)
    self = get_elem?-set_self buckets i (some new) (omega (arith, r.full))

    new-eq : eqb i j ≡ true → new ≡ b
    new-eq same = cc (i-eq-j same, self)

-- Recording an event keeps every bucket in its place.
pub record_bucket-RingInv :
    (buckets : List (Option Bucket)) (kind : EventKind) (o : Outcome) (top now : ℕ)
    → RingInv top buckets
    → top ≤ bucket_start now
    → RingInv (bucket_start now) (record_bucket buckets kind o now)
unfolding record_bucket
record_bucket-RingInv buckets kind o top now r h = record {
  full = length-set buckets _ _ ∙ r.full;
  placed = set-IsPlaced (bucket_start now) index new buckets (RingInv-mono r h) here (index-lt _);
}
  where
    index : ℕ
    index = bucket_index (bucket_start now)

    new : Bucket
    new = add_event (current_bucket (get_elem? buckets index) (bucket_start now)) kind o now

    start-new : new.start ≡ bucket_start now
    start-new =
        start-add_event _ kind o now
        ∙ start-current_bucket (get_elem? buckets index) (bucket_start now)

    here : IsPlaced (bucket_start now) index new
    here = record {
      at_index = ap bucket_index start-new;
      aligned = ap (λ t. t % recovery_bucket_ms) start-new ∙ bucket_start_aligned now;
      begun = omega (arith, start-new);
    }

get_elem?-replicate :
    (n i : ℕ) (b : Bucket) → ¬ (get_elem? (replicate {A = Option Bucket} n none) i ≡ some (some b))
get_elem?-replicate zero i b e = cc
get_elem?-replicate (suc n) zero b e = cc
get_elem?-replicate (suc n) (suc i) b e = get_elem?-replicate n i b e

pub empty-RingInv : (top : ℕ) → RingInv top empty.buckets
unfolding empty
empty-RingInv top = record {
  full = refl;
  placed = λ i b e. absurd (get_elem?-replicate bucket_count i b e);
}
