-- ===== src/Examples/Rendering.antt =====
-- The rendering of internal/format/format.go on a value with a line break and backticks.
use pihole_mcp.Prelude.{◌≡◌, true, [], ◌∷◌, map}
use pihole_mcp.Format.{untrusted, code_span, fence}
use pihole_mcp.Format.Cleaned.{is_harmless, untrusted-harmless}
use pihole_mcp.Format.Spans.{IsSpanOf, IsBlockOf, fences-NeverHolds}

untrusted-harmless_example :
    (is_harmless (untrusted "a\nb`c") ≡ true)
    × (is_harmless "a\nb`c" ≡ true → untrusted "a\nb`c" ≡ "a\nb`c")
    × (untrusted (untrusted "a\nb`c") ≡ untrusted "a\nb`c")
untrusted-harmless_example = untrusted-harmless "a\nb`c"

fences-NeverHolds_example :
    IsSpanOf (untrusted "a\nb`c`") (code_span "a\nb`c`")
    × IsBlockOf (map untrusted ("x" ∷ "````" ∷ [])) (fence ("x" ∷ "````" ∷ []))
fences-NeverHolds_example = fences-NeverHolds "a\nb`c`" ("x" ∷ "````" ∷ [])
