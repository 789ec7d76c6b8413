-- ===== src/Prelude/Words.antt =====
-- Splitting a text where the pieces were joined.
use Prim.Native.Char.{Char}
use Prim.Native.String
use Prim.Native.String.{String}
use text.Mathlib.TextLemmas.{cons-append, nil-append}
use mathlib.Core.Path.{◌≡◌, refl, ap, ◌∙◌}
use mathlib.Core.Logic.{inl, inr}
use mathlib.Core.Bool.{Bool, true, false, ◌&&◌, not}
use mathlib.Core.List.{List, [], ◌∷◌}
use native.Mathlib.Omega.{arith}
use pihole_mcp.Prelude.Tests.{str_eq, Bool-cases}
use pihole_mcp.Prelude.Lists.{keep, All}
use pihole_mcp.Prelude.Texts.{onto_first, split_by, is_space, fields, join}

pub one-append : (c : Char) (s : String) → String.◌++◌ (String.◌∷◌ c "") s ≡ String.◌∷◌ c s
one-append c s = cons-append c "" s ∙ ap (λ r. String.◌∷◌ c r) (nil-append s)

module _ (p : Char → Bool) where
  -- No character of the text is accepted.
  abbrev pub clear : String → Bool
  clear String.[] = true
  clear (String.◌∷◌ c s) = not (p c) && clear s

  split_by-clear : (w : String) → clear w ≡ true → split_by p w ≡ w ∷ []
  unfolding split_by
  split_by-clear String.[] h = refl
  split_by-clear (String.◌∷◌ c w) h =
      let apart : p c ≡ false = ground arith in rw apart (rw (split_by-clear w (ground arith)) refl)

  split_by-at :
      (w : String) (c : Char) (s : String)
      → clear w ≡ true
      → p c ≡ true
      → split_by p (String.◌++◌ w (String.◌∷◌ c s)) ≡ w ∷ split_by p s
  unfolding split_by
  split_by-at String.[] c s h e = rw (nil-append (String.◌∷◌ c s)) (rw e refl)
  split_by-at (String.◌∷◌ d w) c s h e =
      let apart : p d ≡ false = ground arith in
      rw (cons-append d w (String.◌∷◌ c s))
        (rw apart (rw (split_by-at w c s (ground arith) e) refl))

  abbrev pub AllClear : List String → Type 0
  AllClear ws = All (λ w. clear w ≡ true) ws

  pub split_by-join :
      (c : Char) (w : String) (ws : List String)
      → p c ≡ true
      → AllClear (w ∷ ws)
      → split_by p (join (String.◌∷◌ c "") (w ∷ ws)) ≡ w ∷ ws
  unfolding join
  split_by-join c w [] e (h, hs) = split_by-clear w h
  split_by-join c w (v ∷ ws) e (h, hs) = rw (one-append c (join (String.◌∷◌ c "") (v ∷ ws))) (
      rw (split_by-at w c (join (String.◌∷◌ c "") (v ∷ ws)) h e)
        (ap (λ r. w ∷ r) (split_by-join c v ws e hs)))

  clear-first :
      (c : Char) (ws : List String) → p c ≡ false → AllClear ws → AllClear (onto_first c ws)
  clear-first c [] e h = (rw e refl, tt)
  clear-first c (w ∷ ws) e (h, hs) = (rw e h, hs)

  pub split_by-AllClear : (s : String) → AllClear (split_by p s)
  unfolding split_by
  split_by-AllClear String.[] = (refl, tt)
  split_by-AllClear (String.◌∷◌ c s) = elim (Bool-cases (p c)) [
    | inl e ↦ rw e (refl, split_by-AllClear s)
    | inr e ↦ rw e (clear-first c (split_by p s) e (split_by-AllClear s))
  ]

abbrev pub is_word : String → Bool
is_word w = not (str_eq w "") && clear is_space w

abbrev pub AllWords : List String → Type 0
AllWords ws = All (λ w. is_word w ≡ true) ws

keep-words : (ws : List String) → AllWords ws → keep (λ w. not (str_eq w "")) ws ≡ ws
keep-words [] h = refl
keep-words (w ∷ ws) (h, hs) =
    let full : str_eq w "" ≡ false = ground arith in rw full (ap (λ r. w ∷ r) (keep-words ws hs))

words-clear : (ws : List String) → AllWords ws → AllClear is_space ws
words-clear [] h = tt
words-clear (w ∷ ws) (h, hs) = (ground arith, words-clear ws hs)

keep-AllWords :
    (ws : List String) → AllClear is_space ws → AllWords (keep (λ w. not (str_eq w "")) ws)
keep-AllWords [] h = tt
keep-AllWords (w ∷ ws) (h, hs) = elim (Bool-cases (str_eq w "")) [
  | inl e ↦ rw e (keep-AllWords ws hs)
  | inr e ↦ rw e (rw (e, h) refl, keep-AllWords ws hs)
]

pub fields-AllWords : (s : String) → AllWords (fields s)
unfolding fields
fields-AllWords s = keep-AllWords (split_by is_space s) (split_by-AllClear is_space s)

space_blank : is_space " " ≡ true
unfolding is_space
space_blank = refl

pub fields-join :
    (w : String) (ws : List String) → AllWords (w ∷ ws) → fields (join " " (w ∷ ws)) ≡ w ∷ ws
unfolding fields
fields-join w ws h =
    rw (split_by-join is_space " " w ws space_blank (words-clear (w ∷ ws) h))
      (keep-words (w ∷ ws) h)
