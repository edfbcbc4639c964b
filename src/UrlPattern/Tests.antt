-- ===== src/UrlPattern/Tests.antt =====
-- Runs of the matcher, and the theorems at concrete inputs.
use browser_bridge.Prelude.{code_points, ◌≡◌, refl, ◌↔◌, true, false}
use browser_bridge.UrlPattern.{tokenize, test}
use browser_bridge.UrlPattern.Language.{Matches}
use browser_bridge.UrlPattern.Matching.{test_iff}

runs :
    (test (code_points "*/api/*") (code_points "https://x/api/v1") ≡ true)
    × (test (code_points "*/api/*") (code_points "https://x/ap/v1") ≡ false)
    × (test (code_points "a??b") (code_points "ab") ≡ true)
    × (test (code_points "a??b") (code_points "axyzb") ≡ false)
    × (test (code_points "a\\*") (code_points "a*") ≡ true)
    × (test (code_points "a\\*") (code_points "ab") ≡ false)
unfolding test
runs = (refl, refl, refl, refl, refl, refl)

test_iff_example :
    (test (code_points "a*?c") (code_points "abc") ≡ true)
    ↔ Matches (tokenize (code_points "a*?c")) (code_points "abc")
test_iff_example = test_iff (code_points "a*?c") (code_points "abc")
