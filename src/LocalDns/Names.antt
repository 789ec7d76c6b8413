-- ===== src/LocalDns/Names.antt =====
-- internal/tools/localdns.go: the names that stay when one goes, matched by `strings.EqualFold`.
use pihole_mcp.Prelude.{
  ◌≡◌, refl, ap, inl, inr, String, Bool, true, false, ◌&&◌, not, List, [], ◌∷◌, str_eq, str-eq_iff,
  keep, any, contains, Bool-cases, arith, All,
}
use pihole_mcp.LocalDns.{Lookups, other_names}

-- What holds of each element holds of each that is kept.
pub All-keep {ℓ} :
    {A : Type ℓ} (P : A → Type 0) (p : A → Bool) (xs : List A) → All P xs → All P (keep p xs)
All-keep P p [] h = tt
All-keep P p (x ∷ xs) (h, hs) = elim (Bool-cases (p x)) [
  | inl e ↦ rw e (h, All-keep P p xs hs)
  | inr e ↦ rw e (All-keep P p xs hs)
]

module _ {A : Type 0} (lib : Lookups A) (hostname : String) where
  pub any-contains :
      (names : List String) (name : String)
      → contains names name ≡ true
      → lib.equal_fold name hostname ≡ true
      → any (λ n. lib.equal_fold n hostname) names ≡ true
  any-contains [] name c f = absurd (ground arith)
  any-contains (n ∷ names) name c f = elim (Bool-cases (str_eq n name)) [
    | inl e ↦ let same = (str-eq_iff n name).0 e in rw same (rw f refl)
    | inr e ↦ let rest = any-contains names name (ground arith) f in ground arith
  ]

  pub contains-other_names :
      (names : List String) (name : String)
      → contains (other_names lib hostname names) name
        ≡ (contains names name && not (lib.equal_fold name hostname))
  contains-other_names [] name = refl
  contains-other_names (n ∷ names) name =
      let ih = contains-other_names names name in
      elim (Bool-cases (str_eq n name)) [
        | inl e ↦
            let same = ap (λ x. lib.equal_fold x hostname) ((str-eq_iff n name).0 e) in
            ground (arith, ih, same)
        | inr e ↦ ground (arith, ih)
      ]

  pub any-other_names :
      (names : List String)
      → any (λ n. lib.equal_fold n hostname) (other_names lib hostname names) ≡ false
  any-other_names [] = refl
  any-other_names (n ∷ names) = ground (arith, any-other_names names)
