-- ===== src/UrlPattern/States.antt =====
-- The flags of the reachable tokens, read as the language that they still accept.
use browser_bridge.Prelude.{
  ℕ, ◌+◌, ◌≡◌, refl, Bool, true, false, ◌&&◌, ◌||◌, not, List, [], ◌∷◌, arith, eqb, length,
}
use browser_bridge.UrlPattern.{
  Token, literal, star, question, is_literal, consumes, skip_wildcards, advance, took, accepting,
  initial, zeros,
}
use browser_bridge.UrlPattern.Language.{matches, matches-wildcard}

-- One flag more than there are tokens.
abbrev pub Fits : List Token → List Bool → Type 0
Fits ts ss = length ss ≡ length ts + 1

-- Some active flag stands before tokens that match the rest of the URL.
unfoldable pub accepts : List Token → List Bool → List ℕ → Bool
accepts _ [] u = false
accepts [] (s ∷ ss) u = s && matches [] u
accepts (t ∷ ts) (s ∷ ss) u = (s && matches (t ∷ ts) u) || accepts ts ss u

-- The flag in the first place.
abbrev pub first : List Bool → Bool
first [] = false
first (s ∷ ss) = s

-- No wildcard is left to skip.
abbrev pub Closed : List Token → List Bool → Type 0
Closed (t ∷ ts) (s ∷ ss) = ((first ss || (s && not (is_literal t))) ≡ first ss) × Closed ts ss
Closed _ _ = Unit

first-skip : (ts : List Token) (ss : List Bool) → first (skip_wildcards ts ss) ≡ first ss
unfolding skip_wildcards
first-skip [] [] = refl
first-skip [] (s ∷ ss) = refl
first-skip (t ∷ ts) [] = refl
first-skip (t ∷ ts) (s ∷ []) = refl
first-skip (t ∷ ts) (s ∷ s' ∷ ss) = refl

pub skip-Closed : (ts : List Token) (ss : List Bool) → Fits ts ss → Closed ts (skip_wildcards ts ss)
unfolding skip_wildcards
skip-Closed [] ss f = tt
skip-Closed (t ∷ ts) [] f = absurd (omega arith)
skip-Closed (t ∷ ts) (s ∷ []) f = absurd (omega arith)
skip-Closed (t ∷ ts) (s ∷ s' ∷ ss) f = (
  ground (arith, first-skip ts ((s' || (s && not (is_literal t))) ∷ ss)),
  skip-Closed ts ((s' || (s && not (is_literal t))) ∷ ss) (omega arith),
)

pub skip-Fits : (ts : List Token) (ss : List Bool) → Fits ts ss → Fits ts (skip_wildcards ts ss)
unfolding skip_wildcards
skip-Fits [] ss f = f
skip-Fits (t ∷ ts) [] f = absurd (omega arith)
skip-Fits (t ∷ ts) (s ∷ []) f = absurd (omega arith)
skip-Fits (t ∷ ts) (s ∷ s' ∷ ss) f =
    omega (arith, skip-Fits ts ((s' || (s && not (is_literal t))) ∷ ss) (omega arith))

pub advance-Fits :
    (c : ℕ) (ts : List Token) (ss : List Bool) (carry : Bool)
    → Fits ts ss
    → Fits ts (advance c ts ss carry)
unfolding advance
advance-Fits c [] ss carry f = omega arith
advance-Fits c (t ∷ ts) [] carry f = absurd (omega arith)
advance-Fits c (t ∷ ts) (s ∷ ss) carry f =
    omega (arith, advance-Fits c ts ss (s && consumes t c) (omega arith))

accepts-first :
    (ts : List Token) (ss : List Bool) (u : List ℕ)
    → first ss ≡ true
    → matches ts u ≡ true
    → accepts ts ss u ≡ true
unfolding accepts
accepts-first [] [] u f m = cc
accepts-first [] (s ∷ ss) u f m = ground arith
accepts-first (t ∷ ts) [] u f m = cc
accepts-first (t ∷ ts) (s ∷ ss) u f m = ground arith

accepts-or :
    (ts : List Token) (a b : Bool) (ss : List Bool) (u : List ℕ)
    → accepts ts ((a || b) ∷ ss) u ≡ (accepts ts (a ∷ ss) u || (b && matches ts u))
unfolding accepts
accepts-or [] a b ss u = ground arith
accepts-or (t ∷ ts) a b ss u = ground arith

-- Skipping the wildcards does not change what is accepted.
pub accepts-skip :
    (ts : List Token) (ss : List Bool) (u : List ℕ)
    → Fits ts ss
    → accepts ts (skip_wildcards ts ss) u ≡ accepts ts ss u
unfolding accepts skip_wildcards
accepts-skip [] ss u f = refl
accepts-skip (t ∷ ts) [] u f = refl
accepts-skip (t ∷ ts) (s ∷ []) u f = refl
accepts-skip (t ∷ ts) (s ∷ s' ∷ ss) u f = ground (
  arith,
  accepts-skip ts ((s' || (s && not (is_literal t))) ∷ ss) u (omega arith),
  accepts-or ts s' (s && not (is_literal t)) ss u,
  matches-wildcard t ts u,
)

-- An active flag before a wildcard is active behind it too.
Closed-first :
    (t : Token) (ts : List Token) (s : Bool) (ss : List Bool) (u : List ℕ)
    → is_literal t ≡ false
    → Closed (t ∷ ts) (s ∷ ss)
    → s ≡ true
    → matches ts u ≡ true
    → accepts ts ss u ≡ true
Closed-first t ts s ss u l d h m = accepts-first ts ss u (ground arith) m

literal_step :
    (a e carry : Bool) (x here after rest : Bool)
    → x ≡ (((a && e) && after) || rest)
    → (((carry || (a && false)) && here) || x) ≡ ((carry && here) || ((a && (e && after)) || rest))
literal_step a e carry x here after rest h = ground arith

star_step :
    (a carry : Bool) (x here after skipped rest : Bool)
    → x ≡ (((a && false) && after) || rest)
    → (a ≡ true → skipped ≡ true → rest ≡ true)
    → (((carry || (a && true)) && here) || x)
      ≡ ((carry && here) || ((a && (skipped || here)) || rest))
star_step a carry x here after skipped rest h k = ground arith

question_step :
    (a carry : Bool) (x here after skipped rest : Bool)
    → x ≡ (((a && true) && after) || rest)
    → (a ≡ true → skipped ≡ true → rest ≡ true)
    → (((carry || (a && false)) && here) || x)
      ≡ ((carry && here) || ((a && (skipped || after)) || rest))
question_step a carry x here after skipped rest h k = ground arith

-- One character: what the next flags accept is what the flags accept behind that character.
pub accepts-advance :
    (c : ℕ) (ts : List Token) (ss : List Bool) (carry : Bool) (u : List ℕ)
    → Fits ts ss
    → Closed ts ss
    → accepts ts (advance c ts ss carry) u ≡ ((carry && matches ts u) || accepts ts ss (c ∷ u))
unfolding accepts advance matches
accepts-advance c [] [] carry u f d = absurd (omega arith)
accepts-advance c [] (s ∷ ss) carry u f d = ground arith
accepts-advance c (t ∷ ts) [] carry u f d = absurd (omega arith)
accepts-advance c (literal v ∷ ts) (s ∷ ss) carry u f d =
    literal_step s (eqb v c) carry _ _ _ _
      (accepts-advance c ts ss (s && eqb v c) u (omega arith) d.1)
accepts-advance c (star ∷ ts) (s ∷ ss) carry u f d =
    star_step s carry _ _ _ _ _ (accepts-advance c ts ss (s && false) u (omega arith) d.1)
      (Closed-first star ts s ss (c ∷ u) refl d)
accepts-advance c (question ∷ ts) (s ∷ ss) carry u f d =
    question_step s carry _ _ _ _ _ (accepts-advance c ts ss (s && true) u (omega arith) d.1)
      (Closed-first question ts s ss (c ∷ u) refl d)

-- Where no active flag takes the character nothing is accepted.
pub accepts_not_took :
    (c : ℕ) (ts : List Token) (ss : List Bool) (u : List ℕ)
    → took c ts ss ≡ false
    → accepts ts ss (c ∷ u) ≡ false
unfolding accepts took matches
accepts_not_took c [] [] u h = refl
accepts_not_took c [] (s ∷ ss) u h = ground arith
accepts_not_took c (t ∷ ts) [] u h = refl
accepts_not_took c (literal v ∷ ts) (s ∷ ss) u h = ground (arith, accepts_not_took c ts ss u)
accepts_not_took c (star ∷ ts) (s ∷ ss) u h = ground (arith, accepts_not_took c ts ss u)
accepts_not_took c (question ∷ ts) (s ∷ ss) u h = ground (arith, accepts_not_took c ts ss u)

pub accepts-nil :
    (ts : List Token) (ss : List Bool)
    → Fits ts ss
    → Closed ts ss
    → accepts ts ss [] ≡ accepting ts ss
unfolding accepts accepting matches
accepts-nil [] [] f d = refl
accepts-nil [] (s ∷ ss) f d = ground arith
accepts-nil (t ∷ ts) [] f d = refl
accepts-nil (literal v ∷ ts) (s ∷ ss) f d = ground (arith, accepts-nil ts ss (omega arith) d.1)
accepts-nil (star ∷ ts) (s ∷ ss) f d =
    ground (arith, accepts-nil ts ss (omega arith) d.1, accepts-first ts ss [])
accepts-nil (question ∷ ts) (s ∷ ss) f d =
    ground (arith, accepts-nil ts ss (omega arith) d.1, accepts-first ts ss [])

length-zeros : (ts : List Token) → length (zeros ts) ≡ length ts
length-zeros [] = refl
length-zeros (t ∷ ts) = omega (arith, length-zeros ts)

pub initial-Fits : (ts : List Token) → Fits ts (initial ts)
unfolding initial
initial-Fits ts = omega (arith, length-zeros ts)

accepts-zeros : (ts : List Token) (u : List ℕ) → accepts ts (false ∷ zeros ts) u ≡ false
unfolding accepts
accepts-zeros [] u = refl
accepts-zeros (t ∷ ts) u = accepts-zeros ts u

pub accepts-initial : (ts : List Token) (u : List ℕ) → accepts ts (initial ts) u ≡ matches ts u
unfolding accepts initial
accepts-initial [] u = refl
accepts-initial (t ∷ ts) u = ground (arith, accepts-zeros ts u)
