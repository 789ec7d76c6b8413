-- ===== src/Format.antt =====
-- internal/format/format.go: text from the network made safe for a reply. A text holds characters, so
-- invalid UTF-8 does not arise. Numbers, dates and CSV are not here.
pub mod Cleaned
pub mod Spans
use Prim.Native.Char.{Char, code}
use Prim.Native.String
use pihole_mcp.Prelude.{
  ℕ, suc, ◌+◌, zero, String, Bool, true, false, ◌&&◌, ◌||◌, List, [], ◌∷◌, map, leb, ltb, ◌==◌,
  if◌then◌else◌, concat, join,
}

-- `unicode.Bidi_Control`
unfoldable pub is_bidi : Char → Bool
is_bidi c =
    let n = code c in
    n == 1564 || n == 8206 || n == 8207 || (leb 8234 n && leb n 8238) || (leb 8294 n && leb n 8297)

-- `unicode.IsControl`, and the line and paragraph separators.
unfoldable pub is_break : Char → Bool
is_break c = let n = code c in leb n 31 || (leb 127 n && leb n 159) || n == 8232 || n == 8233

unfoldable pub needs_cleaning : Char → Bool
needs_cleaning c = code c == 65533 || is_bidi c || is_break c

abbrev pub is_clean : String → Bool
is_clean String.[] = true
is_clean (String.◌∷◌ c s) = if needs_cleaning c then false else is_clean s

-- The loop of `Untrusted` that writes the text again.
unfoldable pub cleaned : String → String
cleaned String.[] = ""
cleaned (String.◌∷◌ c s) =
    let rest = cleaned s in
    if is_bidi c then rest else if is_break c then String.◌∷◌ " " rest else String.◌∷◌ c rest

unfoldable pub untrusted : String → String
untrusted s = if is_clean s then s else cleaned s

abbrev pub max : ℕ → ℕ → ℕ
max a b = if ltb a b then b else a

-- The loop of `longestBacktickRun`: the longest run and the one at hand.
unfoldable pub run_from : ℕ → ℕ → String → ℕ
run_from longest run String.[] = longest
run_from longest run (String.◌∷◌ c s) =
    let more = run_from (max longest (suc run)) (suc run) s in
    let anew = run_from longest 0 s in if code c == b'`' then more else anew

unfoldable pub longest_backtick_run : String → ℕ
longest_backtick_run s = run_from 0 0 s

-- `strings.Repeat("`", n)`
abbrev pub backticks : ℕ → String
backticks zero = ""
backticks (suc n) = String.◌∷◌ "`" (backticks n)

abbrev pub starts_tick : String → Bool
starts_tick String.[] = false
starts_tick (String.◌∷◌ c s) = code c == b'`'

abbrev pub ends_tick : String → Bool
ends_tick String.[] = false
ends_tick (String.◌∷◌ c String.[]) = code c == b'`'
ends_tick (String.◌∷◌ c (String.◌∷◌ d s)) = ends_tick (String.◌∷◌ d s)

-- The fence of an inline span, and the span.
unfoldable pub span_fence : String → String
span_fence s = backticks (longest_backtick_run s + 1)

unfoldable pub code_span : String → String
code_span s =
    let shown = untrusted s in
    let fence = span_fence shown in
    if starts_tick shown || ends_tick shown
    then concat (fence ∷ " " ∷ shown ∷ " " ∷ fence ∷ [])
    else concat (fence ∷ shown ∷ fence ∷ [])

abbrev pub longest_in : ℕ → List String → ℕ
longest_in longest [] = longest
longest_in longest (l ∷ ls) = longest_in (max longest (longest_backtick_run l)) ls

-- `Fence`
unfoldable pub block_fence : List String → String
block_fence shown = backticks (max 3 (longest_in 0 shown + 1))

unfoldable pub fence : List String → String
fence lines =
    let shown = map untrusted lines in
    concat (block_fence shown ∷ "\n" ∷ join "\n" shown ∷ "\n" ∷ block_fence shown ∷ [])
