-- ===== src/UrlPattern/Matching.antt =====
-- The matcher decides the language of the compiled pattern.
use browser_bridge.Prelude.{
  ℕ, ◌≡◌, sym, ◌∙◌, ◌↔◌, Bool, true, false, List, [], ◌∷◌, inl, inr, Bool-cases,
}
use browser_bridge.UrlPattern.{Token, skip_wildcards, advance, took, run, tokenize, test}
use browser_bridge.UrlPattern.Language.{Matches, matches, matches_iff}
use browser_bridge.UrlPattern.States.{
  Fits, Closed, accepts, skip-Closed, skip-Fits, advance-Fits, accepts-skip, accepts-advance,
  accepts_not_took, accepts-nil, initial-Fits, accepts-initial,
}

run_step :
    (c : ℕ) (ts : List Token) (ss : List Bool) (u : List ℕ)
    → Fits ts ss
    → Closed ts ss
    → run ts (skip_wildcards ts (advance c ts ss false)) u
      ≡ accepts ts (skip_wildcards ts (advance c ts ss false)) u
    → run ts ss (c ∷ u) ≡ accepts ts ss (c ∷ u)
unfolding run
run_step c ts ss u f d rest =
    let fits = advance-Fits c ts ss false f in
    elim (Bool-cases (took c ts ss)) [
      | inl e ↦ rw e (rest ∙ accepts-skip ts _ u fits ∙ accepts-advance c ts ss false u f d)
      | inr e ↦ rw e (sym (accepts_not_took c ts ss u e))
    ]

run_nil :
    (ts : List Token) (ss : List Bool) → Fits ts ss → Closed ts ss → run ts ss [] ≡ accepts ts ss []
unfolding run
run_nil ts ss f d = sym (accepts-nil ts ss f d)

run-accepts :
    (ts : List Token) (ss : List Bool) (u : List ℕ)
    → Fits ts ss
    → Closed ts ss
    → run ts ss u ≡ accepts ts ss u
run-accepts ts ss [] f d = run_nil ts ss f d
run-accepts ts ss (c ∷ u) f d =
    let fits = advance-Fits c ts ss false f in
    run_step c ts ss u f d (
      run-accepts ts (skip_wildcards ts (advance c ts ss false)) u (skip-Fits ts _ fits)
        (skip-Closed ts _ fits))

pub test-matches : (pattern url : List ℕ) → test pattern url ≡ matches (tokenize pattern) url
unfolding test
test-matches pattern url =
    let ts = tokenize pattern in
    run-accepts ts _ url (skip-Fits ts _ (initial-Fits ts)) (skip-Closed ts _ (initial-Fits ts))
    ∙ accepts-skip ts _ url (initial-Fits ts)
    ∙ accepts-initial ts url

-- For every pattern and URL the matcher answers true exactly when the tokens of the compiled
-- pattern match the URL, where a literal matches its character, a question mark one character or
-- none, and a star any run of characters.
pub test_iff : (pattern url : List ℕ) → (test pattern url ≡ true) ↔ Matches (tokenize pattern) url
test_iff pattern url = rw test-matches (matches_iff (tokenize pattern) url)
