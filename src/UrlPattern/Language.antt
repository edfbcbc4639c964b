-- ===== src/UrlPattern/Language.antt =====
-- What a compiled pattern means, apart from the code: a relation and a backtracking matcher.
use browser_bridge.Prelude.{
  ℕ, ◌≡◌, refl, ◌↔◌, inl, inr, Bool, true, false, ◌&&◌, ◌||◌, List, [], ◌∷◌, arith, or_cases, eqb,
}
use browser_bridge.UrlPattern.{Token, literal, star, question, is_literal}

-- A literal is its character, a question mark is one character or none, a star any run of them.
pub data Matches : List Token → List ℕ → Type 0 where
  done : Matches [] []
  literally :
      {v c : ℕ} {ts : List Token} {u : List ℕ}
      → v ≡ c
      → Matches ts u
      → Matches (literal v ∷ ts) (c ∷ u)
  absent : {ts : List Token} {u : List ℕ} → Matches ts u → Matches (question ∷ ts) u
  present : {ts : List Token} {u : List ℕ} (c : ℕ) → Matches ts u → Matches (question ∷ ts) (c ∷ u)
  stop : {ts : List Token} {u : List ℕ} → Matches ts u → Matches (star ∷ ts) u
  more :
      {ts : List Token} {u : List ℕ} (c : ℕ) → Matches (star ∷ ts) u → Matches (star ∷ ts) (c ∷ u)

unfoldable pub matches : List Token → List ℕ → Bool
matches [] [] = true
matches [] (c ∷ u) = false
matches (literal v ∷ ts) [] = false
matches (literal v ∷ ts) (c ∷ u) = eqb v c && matches ts u
matches (question ∷ ts) [] = matches ts []
matches (question ∷ ts) (c ∷ u) = matches ts (c ∷ u) || matches ts u
matches (star ∷ ts) [] = matches ts []
matches (star ∷ ts) (c ∷ u) = matches ts (c ∷ u) || matches (star ∷ ts) u

matches_sound : (ts : List Token) (u : List ℕ) → matches ts u ≡ true → Matches ts u
unfolding matches
matches_sound [] [] h = done
matches_sound [] (c ∷ u) h = cc
matches_sound (literal v ∷ ts) [] h = cc
matches_sound (literal v ∷ ts) (c ∷ u) h =
    literally (ground arith) (matches_sound ts u (ground arith))
matches_sound (question ∷ ts) [] h = absent (matches_sound ts [] h)
matches_sound (question ∷ ts) (c ∷ u) h = elim (or_cases (matches ts (c ∷ u)) (matches ts u) h) [
  | inl e ↦ absent (matches_sound ts (c ∷ u) e)
  | inr e ↦ present c (matches_sound ts u e)
]
matches_sound (star ∷ ts) [] h = stop (matches_sound ts [] h)
matches_sound (star ∷ ts) (c ∷ u) h =
    elim (or_cases (matches ts (c ∷ u)) (matches (star ∷ ts) u) h) [
      | inl e ↦ stop (matches_sound ts (c ∷ u) e)
      | inr e ↦ more c (matches_sound (star ∷ ts) u e)
    ]

matches-question :
    (ts : List Token) (u : List ℕ) → matches ts u ≡ true → matches (question ∷ ts) u ≡ true
unfolding matches
matches-question ts [] h = h
matches-question ts (c ∷ u) h = ground arith

matches-star : (ts : List Token) (u : List ℕ) → matches ts u ≡ true → matches (star ∷ ts) u ≡ true
unfolding matches
matches-star ts [] h = h
matches-star ts (c ∷ u) h = ground arith

pub matches-wildcard :
    (t : Token) (ts : List Token) (u : List ℕ)
    → is_literal t ≡ false
    → matches ts u ≡ true
    → matches (t ∷ ts) u ≡ true
matches-wildcard (literal v) ts u h m = cc
matches-wildcard star ts u h m = matches-star ts u m
matches-wildcard question ts u h m = matches-question ts u m

matches_complete : {ts : List Token} {u : List ℕ} → Matches ts u → matches ts u ≡ true
unfolding matches
matches_complete done = refl
matches_complete (literally e m) = ground (arith, matches_complete m)
matches_complete (absent {ts} {u} m) = matches-question ts u (matches_complete m)
matches_complete (present c m) = ground (arith, matches_complete m)
matches_complete (stop {ts} {u} m) = matches-star ts u (matches_complete m)
matches_complete (more c m) = ground (arith, matches_complete m)

pub matches_iff : (ts : List Token) (u : List ℕ) → (matches ts u ≡ true) ↔ Matches ts u
matches_iff ts u = (matches_sound ts u, λ m. matches_complete m)
