-- ===== src/UrlPattern.antt =====
-- packages/extension/src/background-url-pattern.ts: Chromium's URL patterns, compiled to tokens and
-- matched by the set of reachable tokens. Characters are code points, as `[...pattern]` reads them.
pub mod Language
pub mod States
pub mod Matching
pub mod Tests
use browser_bridge.Prelude.{
  ℕ, Bool, true, false, ◌&&◌, ◌||◌, not, List, [], ◌∷◌, reverse, eqb, if◌then◌else◌, any,
}

pub data Token : Type 0 where
  literal : ℕ → Token
  star question : Token

abbrev pub is_literal : Token → Bool
is_literal (literal v) = true
is_literal star = false
is_literal question = false

-- `if (tokens.at(-1)?.kind !== 'star') tokens.push({ kind: 'star' })`; the last token is the head.
pub push_star : List Token → List Token
push_star (star ∷ tokens) = star ∷ tokens
push_star tokens = star ∷ tokens

pub push_character : ℕ → List Token → List Token
unfolding push_star
push_character c tokens =
    if eqb c b'*'
    then push_star tokens
    else if eqb c b'?'
    then question ∷ tokens
    else literal c ∷ tokens

-- The loop over the characters; `tokens` holds what was pushed, the last first.
tokenize_from : List Token → List ℕ → List Token
unfolding push_character
tokenize_from tokens [] = tokens
tokenize_from tokens (c ∷ []) = if eqb c 92 then tokens else push_character c tokens
tokenize_from tokens (c ∷ next ∷ rest) =
    let escaped = tokenize_from (literal next ∷ tokens) rest in
    let plain = tokenize_from (push_character c tokens) (next ∷ rest) in
    if eqb c 92 then escaped else plain

unfoldable pub tokenize : List ℕ → List Token
unfolding tokenize_from
tokenize pattern = reverse (tokenize_from [] pattern)

-- `skipWildcards`: from left to right, an active state before a wildcard makes the next one active.
-- States are the flags of the array, one more than there are tokens.
unfoldable pub skip_wildcards : List Token → List Bool → List Bool
skip_wildcards (t ∷ ts) (s ∷ s' ∷ ss) =
    s ∷ skip_wildcards ts ((s' || (s && not (is_literal t))) ∷ ss)
skip_wildcards _ ss = ss

abbrev pub consumes : Token → ℕ → Bool
consumes (literal v) c = eqb v c
consumes question c = true
consumes star c = false

abbrev pub is_star : Token → Bool
is_star star = true
is_star _ = false

-- The loop over the tokens for one character. A state writes `next[index]` (a star stays) or
-- `next[index + 1]` (the character is consumed); the write to the next cell is the flag `carry`.
unfoldable pub advance : ℕ → List Token → List Bool → Bool → List Bool
advance c (t ∷ ts) (a ∷ active) carry =
    (carry || (a && is_star t)) ∷ advance c ts active (a && consumes t c)
advance c _ _ carry = carry ∷ []

-- `matched`: some active state has taken the character.
unfoldable pub took : ℕ → List Token → List Bool → Bool
took c (t ∷ ts) (a ∷ active) = (a && (is_star t || consumes t c)) || took c ts active
took c _ _ = false

-- `active[tokens.length] === 1`
unfoldable pub accepting : List Token → List Bool → Bool
accepting (t ∷ ts) (a ∷ active) = accepting ts active
accepting [] (a ∷ active) = a
accepting _ [] = false

-- `new Uint8Array(tokens.length + 1)` with a one in its first place.
abbrev zeros : List Token → List Bool
zeros [] = []
zeros (t ∷ ts) = false ∷ zeros ts

unfoldable pub initial : List Token → List Bool
initial ts = true ∷ zeros ts

-- The loop over the URL.
unfoldable pub run : List Token → List Bool → List ℕ → Bool
unfolding accepting took advance skip_wildcards
run ts active [] = accepting ts active
run ts active (c ∷ url) =
    let rest = run ts (skip_wildcards ts (advance c ts active false)) url in
    if took c ts active then rest else false

unfoldable pub test : List ℕ → List ℕ → Bool
unfolding tokenize run initial skip_wildcards
test pattern url =
    let tokens = tokenize pattern in run tokens (skip_wildcards tokens (initial tokens)) url
