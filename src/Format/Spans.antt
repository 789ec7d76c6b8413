-- ===== src/Format/Spans.antt =====
-- internal/format/format.go: the fences of `CodeSpan` and `Fence`.
use Prim.Native.Char.{code}
use Prim.Native.String
use package.text.Mathlib.TextLemmas.{cons-append, nil-append, append-nil, append_assoc}
use pihole_mcp.Prelude.{
  ◌≡◌, ◌≢◌, inl, inr, ℕ, zero, suc, ◌+◌, ◌≤◌, String, List, [], ◌∷◌, map, All, ◌==◌, Bool-cases,
  ◌<◌, ◌||◌, ◌⊎◌, refl, subst, false, concat, join, one-append, arith,
}
use pihole_mcp.Format.{
  untrusted, max, run_from, longest_backtick_run, backticks, starts_tick, ends_tick, span_fence,
  code_span, longest_in, block_fence, fence,
}

run_from-ge : (longest run : ℕ) (s : String) → longest ≤ run_from longest run s
unfolding run_from
run_from-ge longest run String.[] = omega arith
run_from-ge longest run (String.◌∷◌ c s) =
    let more = run_from-ge (max longest (suc run)) (suc run) s in
    let anew = run_from-ge longest 0 s in ground arith

run_from-backticks :
    (longest run n : ℕ) (post : String)
    → run ≤ longest
    → run + n ≤ run_from longest run (String.◌++◌ (backticks n) post)
unfolding run_from
run_from-backticks longest run zero post h =
    rw (nil-append post) (let more = run_from-ge longest run post in omega arith)
run_from-backticks longest run (suc n) post h =
    let ih = run_from-backticks (max longest (suc run)) (suc run) n post (ground arith) in
    rw (cons-append "`" (backticks n) post) (omega arith)

run_from-inside :
    (longest run n : ℕ) (pre post : String)
    → run ≤ longest
    → n ≤ run_from longest run (String.◌++◌ pre (String.◌++◌ (backticks n) post))
unfolding run_from
run_from-inside longest run n String.[] post h =
    rw (nil-append (String.◌++◌ (backticks n) post))
      (let found = run_from-backticks longest run n post h in omega arith)
run_from-inside longest run n (String.◌∷◌ c pre) post h =
    let more = run_from-inside (max longest (suc run)) (suc run) n pre post (ground arith) in
    let anew = run_from-inside longest 0 n pre post (omega arith) in
    rw (cons-append c pre (String.◌++◌ (backticks n) post))
      (elim (Bool-cases (code c == b'`')) [ inl e ↦ rw e more | inr e ↦ rw e anew ])

-- A run that stands in a text is no longer than its longest.
inside-longest :
    (s pre post : String) (n : ℕ)
    → s ≡ String.◌++◌ pre (String.◌++◌ (backticks n) post)
    → n ≤ longest_backtick_run s
unfolding longest_backtick_run
inside-longest s pre post n e = rw e (run_from-inside 0 0 n pre post (omega arith))

longest_in-ge : (longest : ℕ) (ls : List String) → longest ≤ longest_in longest ls
longest_in-ge longest [] = omega arith
longest_in-ge longest (l ∷ ls) =
    let more = longest_in-ge (max longest (longest_backtick_run l)) ls in ground arith

longest_in-All :
    (longest : ℕ) (ls : List String) → All (λ l. longest_backtick_run l ≤ longest_in longest ls) ls
longest_in-All longest [] = tt
longest_in-All longest (l ∷ ls) =
    let more = longest_in-ge (max longest (longest_backtick_run l)) ls in
    (ground arith, longest_in-All (max longest (longest_backtick_run l)) ls)

-- The text never holds the fence, so nothing in it closes the fence early.
abbrev pub NeverHolds : String → String → Type 0
NeverHolds fence s = (pre post : String) → s ≢ String.◌++◌ pre (String.◌++◌ fence post)

shorter-NeverHolds :
    (n : ℕ) (ls : List String)
    → All (λ l. suc (longest_backtick_run l) ≤ n) ls
    → All (NeverHolds (backticks n)) ls
shorter-NeverHolds n [] h = tt
shorter-NeverHolds n (l ∷ ls) (h, hs) = (
  (λ pre post e. let found = inside-longest l pre post n e in absurd (omega arith)),
  shorter-NeverHolds n ls hs,
)

All-suc :
    (m n : ℕ) (ls : List String)
    → suc m ≤ n
    → All (λ l. longest_backtick_run l ≤ m) ls
    → All (λ l. suc (longest_backtick_run l) ≤ n) ls
All-suc m n [] b h = tt
All-suc m n (l ∷ ls) b (h, hs) = (omega arith, All-suc m n ls b hs)

run_from-space :
    (longest run : ℕ) (s : String)
    → run_from longest run (String.◌++◌ s " ") ≡ run_from longest run s
unfolding run_from
run_from-space longest run String.[] = refl
run_from-space longest run (String.◌∷◌ c s) =
    rw (cons-append c s " ")
      (rw (run_from-space (max longest (suc run)) (suc run) s, run_from-space longest 0 s) refl)

ends_tick-space : (s : String) → ends_tick (String.◌++◌ s " ") ≡ false
ends_tick-space String.[] = refl
ends_tick-space (String.◌∷◌ c String.[]) = rw (cons-append c "" " ") refl
ends_tick-space (String.◌∷◌ c (String.◌∷◌ d s)) =
    let ih : ends_tick (String.◌∷◌ d (String.◌++◌ s " ")) ≡ false =
      subst (λ t. ends_tick t ≡ false) (cons-append d s " ") (ends_tick-space (String.◌∷◌ d s)) in
    rw (cons-append c (String.◌∷◌ d s) " ", cons-append d s " ") ih

regroup :
    (f a x b : String)
    → concat (f ∷ a ∷ x ∷ b ∷ f ∷ []) ≡ concat (f ∷ concat (a ∷ x ∷ b ∷ []) ∷ f ∷ [])
unfolding concat
regroup f a x b = simp (append_assoc, append-nil)

-- The text is a body between two fences of `n` backticks. The body does not begin or end with a
-- backtick, so each fence is a run of exactly `n`, and it holds no such run itself.
abbrev pub IsSpanOf : String → String → Type 0
IsSpanOf shown out =
    (n : ℕ) × (body : String) × (out ≡ concat (backticks n ∷ body ∷ backticks n ∷ []))
    × ((body ≡ shown) ⊎ (body ≡ concat (" " ∷ shown ∷ " " ∷ [])))
    × (starts_tick body ≡ false)
    × (ends_tick body ≡ false)
    × NeverHolds (backticks n) body

-- The text is the lines between two fences of `n` backticks, at least three, and no line holds the
-- fence.
abbrev pub IsBlockOf : List String → String → Type 0
IsBlockOf shown out =
    (n : ℕ) × (3 ≤ n)
    × (out ≡ concat (backticks n ∷ "\n" ∷ join "\n" shown ∷ "\n" ∷ backticks n ∷ []))
    × All (NeverHolds (backticks n)) shown

longer-NeverHolds : (n : ℕ) (s : String) → longest_backtick_run s < n → NeverHolds (backticks n) s
longer-NeverHolds n s h pre post e =
    let found = inside-longest s pre post n e in absurd (omega arith)

padded-longest :
    (s : String) → longest_backtick_run (concat (" " ∷ s ∷ " " ∷ [])) ≡ longest_backtick_run s
unfolding longest_backtick_run concat run_from
padded-longest s = rw (one-append " " (String.◌++◌ s " ")) (run_from-space 0 0 s)

padded-starts : (s : String) → starts_tick (concat (" " ∷ s ∷ " " ∷ [])) ≡ false
unfolding concat
padded-starts s = rw (one-append " " (String.◌++◌ s " ")) refl

padded-ends : (s : String) → ends_tick (concat (" " ∷ s ∷ " " ∷ [])) ≡ false
unfolding concat
padded-ends s =
    rw (one-append " " (String.◌++◌ s " ")) (
      subst (λ t. ends_tick t ≡ false) (cons-append " " s " ") (ends_tick-space (String.◌∷◌ " " s)))

-- Whatever the network sent: an inline span is the cleaned value, or the cleaned value between two
-- spaces, inside two fences of the same number of backticks that it neither touches with a backtick
-- nor holds; a block is the cleaned lines inside two fences of at least three backticks that no line
-- holds.
pub fences-NeverHolds :
    (s : String) (lines : List String)
    → IsSpanOf (untrusted s) (code_span s) × IsBlockOf (map untrusted lines) (fence lines)
unfolding code_span span_fence fence block_fence concat
fences-NeverHolds s lines =
    let shown = map untrusted lines in
    let longest = longest_in 0 shown in
    let width = longest_backtick_run (untrusted s) + 1 in
    (
      elim (Bool-cases (starts_tick (untrusted s) || ends_tick (untrusted s))) [
        | inl e ↦ (
          width,
          concat (" " ∷ untrusted s ∷ " " ∷ []),
          rw e (regroup (span_fence (untrusted s)) " " (untrusted s) " "),
          inr refl,
          padded-starts (untrusted s),
          padded-ends (untrusted s),
          longer-NeverHolds width (concat (" " ∷ untrusted s ∷ " " ∷ []))
              (let same = padded-longest (untrusted s) in omega arith),
        )
        | inr e ↦ (
          width,
          untrusted s,
          rw e refl,
          inl refl,
          ground arith,
          ground arith,
          longer-NeverHolds width (untrusted s) (omega arith),
        )
      ],
      (
        max 3 (longest + 1),
        ground arith,
        refl,
        shorter-NeverHolds (max 3 (longest + 1)) shown
            (All-suc longest (max 3 (longest + 1)) shown (ground arith) (longest_in-All 0 shown)),
      ),
    )
