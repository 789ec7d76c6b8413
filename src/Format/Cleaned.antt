-- ===== src/Format/Cleaned.antt =====
-- internal/format/format.go: what `Untrusted` leaves of a text.
use pihole_mcp.Prelude.{
  ◌≡◌, refl, sym, ap, ◌∙◌, inl, inr, String, Bool, true, false, ◌&&◌, not, Bool-cases, arith,
}
use pihole_mcp.Format.{is_bidi, is_break, needs_cleaning, is_clean, cleaned, untrusted}

-- No character that breaks a line, controls a terminal or reorders text.
abbrev pub is_harmless : String → Bool
is_harmless String.[] = true
is_harmless (String.◌∷◌ c s) = (not (is_bidi c) && not (is_break c)) && is_harmless s

space_harmless : (is_bidi " " ≡ false) × (is_break " " ≡ false)
unfolding is_bidi is_break
space_harmless = (refl, refl)

cleaned-harmless : (s : String) → is_harmless (cleaned s) ≡ true
unfolding cleaned
cleaned-harmless String.[] = refl
cleaned-harmless (String.◌∷◌ c s) = elim (Bool-cases (is_bidi c)) [
  | inl e ↦ rw e (cleaned-harmless s)
  | inr e ↦ elim (Bool-cases (is_break c)) [
    | inl b ↦
        rw (e, b)
          (let (bidi, break_) = space_harmless in ground (arith, cleaned-harmless s, bidi, break_))
    | inr b ↦ rw (e, b) (ground (arith, cleaned-harmless s, e, b))
  ]
]

cleaned_fix : (s : String) → is_harmless s ≡ true → cleaned s ≡ s
unfolding cleaned
cleaned_fix String.[] h = refl
cleaned_fix (String.◌∷◌ c s) h =
    let bidi : is_bidi c ≡ false = ground arith in
    let break_ : is_break c ≡ false = ground arith in
    rw (bidi, break_) (ap (λ r. String.◌∷◌ c r) (cleaned_fix s (ground arith)))

clean-harmless : (s : String) → is_clean s ≡ true → is_harmless s ≡ true
unfolding needs_cleaning
clean-harmless String.[] h = refl
clean-harmless (String.◌∷◌ c s) h = ground (arith, clean-harmless s)

untrusted-cleaned : (s : String) → untrusted s ≡ cleaned s
unfolding untrusted
untrusted-cleaned s = elim (Bool-cases (is_clean s)) [
  | inl e ↦ rw e (sym (cleaned_fix s (clean-harmless s e)))
  | inr e ↦ rw e refl
]

-- What Untrusted returns has no line break, no other control character and none that reorders text;
-- a text without these comes back as it is, and so does what was cleaned once.
pub untrusted-harmless :
    (s : String)
    → (is_harmless (untrusted s) ≡ true)
      × (is_harmless s ≡ true → untrusted s ≡ s)
      × (untrusted (untrusted s) ≡ untrusted s)
untrusted-harmless s =
    let harmless : is_harmless (untrusted s) ≡ true =
      rw (untrusted-cleaned s) (cleaned-harmless s) in
    (
      harmless,
      λ h. untrusted-cleaned s ∙ cleaned_fix s h,
      untrusted-cleaned (untrusted s) ∙ cleaned_fix (untrusted s) harmless,
    )
