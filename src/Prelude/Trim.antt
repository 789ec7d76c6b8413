-- ===== src/Prelude/Trim.antt =====
-- Trimming a text twice, and trimming what has no character of a kind.
use Prim.Native.Char.{Char}
use Prim.Native.String.{String}
use mathlib.Core.Path.{◌≡◌, refl}
use mathlib.Core.Logic.{inl, inr}
use mathlib.Core.Bool.{Bool, true, false, ◌&&◌, not}
use native.Mathlib.Omega.{arith}
use pihole_mcp.Prelude.Tests.{str_eq, Bool-cases}
use pihole_mcp.Prelude.Texts.{is_space, trim_left, trim_right, trim_space}
use pihole_mcp.Prelude.Words.{clear}

module _ (p : Char → Bool) where
  clear-trim_left : (s : String) → clear p s ≡ true → clear p (trim_left s) ≡ true
  unfolding trim_left
  clear-trim_left String.[] h = refl
  clear-trim_left (String.◌∷◌ c s) h = elim (Bool-cases (is_space c)) [
    | inl e ↦ rw e (clear-trim_left s (ground arith))
    | inr e ↦ rw e h
  ]

  clear-trim_right : (s : String) → clear p s ≡ true → clear p (trim_right s) ≡ true
  unfolding trim_right
  clear-trim_right String.[] h = refl
  clear-trim_right (String.◌∷◌ c s) h =
      let rest = clear-trim_right s (ground arith) in
      elim (Bool-cases (is_space c && str_eq (trim_right s) "")) [
        | inl e ↦ rw e refl
        | inr e ↦ rw e (let apart : p c ≡ false = ground arith in rw apart rest)
      ]

  pub clear-trim_space : (s : String) → clear p s ≡ true → clear p (trim_space s) ≡ true
  unfolding trim_space
  clear-trim_space s h = clear-trim_right (trim_left s) (clear-trim_left s h)

abbrev no_lead : String → Bool
no_lead String.[] = true
no_lead (String.◌∷◌ c s) = not (is_space c)

trim_left-lead : (s : String) → no_lead (trim_left s) ≡ true
unfolding trim_left
trim_left-lead String.[] = refl
trim_left-lead (String.◌∷◌ c s) = elim (Bool-cases (is_space c)) [
  | inl e ↦ rw e (trim_left-lead s)
  | inr e ↦ rw e (rw e refl)
]

trim_right-lead : (s : String) → no_lead s ≡ true → no_lead (trim_right s) ≡ true
unfolding trim_right
trim_right-lead String.[] h = refl
trim_right-lead (String.◌∷◌ c s) h = let apart : is_space c ≡ false = ground arith in rw apart h

trim_left_fix : (s : String) → no_lead s ≡ true → trim_left s ≡ s
unfolding trim_left
trim_left_fix String.[] h = refl
trim_left_fix (String.◌∷◌ c s) h = let apart : is_space c ≡ false = ground arith in rw apart refl

trim_right_twice : (s : String) → trim_right (trim_right s) ≡ trim_right s
unfolding trim_right
trim_right_twice String.[] = refl
trim_right_twice (String.◌∷◌ c s) = elim (Bool-cases (is_space c && str_eq (trim_right s) "")) [
  | inl e ↦ rw e refl
  | inr e ↦ rw e (rw (trim_right_twice s) (rw e refl))
]

pub trim_space_twice : (s : String) → trim_space (trim_space s) ≡ trim_space s
unfolding trim_space
trim_space_twice s =
    rw (trim_left_fix (trim_right (trim_left s)) (trim_right-lead (trim_left s) (trim_left-lead s)))
      (trim_right_twice (trim_left s))
