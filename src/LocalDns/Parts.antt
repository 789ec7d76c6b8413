-- ===== src/LocalDns/Parts.antt =====
-- internal/tools/localdns.go: `splitCNAME` on the parts of a record.
use pihole_mcp.Prelude.{
  ◌≡◌, refl, sym, ap, subst, ◌⊎◌, inl, inr, suc, ◌-◌, ◌≤◌, String, Bool, true, false, ◌&&◌, not,
  List, [], ◌∷◌, ◌++◌, ltb, length, length-append, take-append, drop-append, last, Bool-cases,
  arith,
}
use mathlib.Core.List.{append_assoc}
use pihole_mcp.LocalDns.{cname_end, cut_parts}

last-snoc : (d t : String) (xs : List String) → last d (xs ++ t ∷ []) ≡ t
last-snoc d t [] = refl
last-snoc d t (x ∷ xs) = last-snoc x t xs

last-snoc_two : (d t n : String) (xs : List String) → last d (xs ++ t ∷ n ∷ []) ≡ n
last-snoc_two d t n [] = refl
last-snoc_two d t n (x ∷ xs) = last-snoc_two x t n xs

-- A list of two or more parts has two last ones.
snoc_two :
    (a b : String) (ps : List String)
    → (xs : List String) × (t : String) × (n : String) × (a ∷ b ∷ ps ≡ xs ++ t ∷ n ∷ [])
snoc_two a b [] = ([], a, b, refl)
snoc_two a b (c ∷ ps) = let (xs, t, n, e) = snoc_two b c ps in (a ∷ xs, t, n, ap (λ r. a ∷ r) e)

module _ (is_number : String → Bool) where
  -- Whether a record with these aliases reads these parts as its target and its TTL.
  abbrev pub is_tail : List String → List String → Bool
  is_tail aliases [] = false
  is_tail aliases (t ∷ []) = not (ltb 1 (length aliases) && is_number t)
  is_tail aliases (t ∷ n ∷ []) = is_number n
  is_tail aliases (t ∷ n ∷ m ∷ rest) = false

  cut_at :
      (a : String) (aliases rest : List String)
      → cname_end is_number ((a ∷ aliases) ++ rest) ≡ suc (length (a ∷ aliases))
      → cut_parts is_number ((a ∷ aliases) ++ rest) ≡ (a ∷ aliases, rest)
  unfolding cut_parts
  cut_at a aliases rest e = rw e (
      let long : ltb (suc (length (a ∷ aliases))) 2 ≡ false = ground arith in
      let less : suc (length (a ∷ aliases)) - 1 ≡ length (a ∷ aliases) = omega arith in
      rw long
        (rw less (rw (take-append (a ∷ aliases) rest) (rw (drop-append (a ∷ aliases) rest) refl))))

  cname_end-one :
      (a t : String) (aliases : List String)
      → is_tail (a ∷ aliases) (t ∷ []) ≡ true
      → cname_end is_number ((a ∷ aliases) ++ t ∷ []) ≡ suc (length (a ∷ aliases))
  unfolding cname_end
  cname_end-one a t aliases h =
      let n = length-append (a ∷ aliases) (t ∷ []) in
      let l = last-snoc "" t (a ∷ aliases) in rw l (rw n (ground arith))

  cname_end-two :
      (a t n : String) (aliases : List String)
      → is_tail (a ∷ aliases) (t ∷ n ∷ []) ≡ true
      → cname_end is_number ((a ∷ aliases) ++ t ∷ n ∷ []) ≡ suc (length (a ∷ aliases))
  unfolding cname_end
  cname_end-two a t n aliases h =
      let m = length-append (a ∷ aliases) (t ∷ n ∷ []) in
      let l = last-snoc_two "" t n (a ∷ aliases) in rw l (rw m (ground arith))

  pub cut_parts-tail :
      (a : String) (aliases rest : List String)
      → is_tail (a ∷ aliases) rest ≡ true
      → cut_parts is_number ((a ∷ aliases) ++ rest) ≡ (a ∷ aliases, rest)
  cut_parts-tail a aliases [] h = absurd (ground arith)
  cut_parts-tail a aliases (t ∷ []) h = cut_at a aliases (t ∷ []) (cname_end-one a t aliases h)
  cut_parts-tail a aliases (t ∷ n ∷ []) h =
      cut_at a aliases (t ∷ n ∷ []) (cname_end-two a t n aliases h)
  cut_parts-tail a aliases (t ∷ n ∷ m ∷ rest) h = absurd (ground arith)

  -- What a cut makes of parts: all of them aliases, or aliases and their tail.
  abbrev pub IsCut : List String → Type 0
  IsCut parts =
      ((cut_parts is_number parts ≡ (parts, [])) × (length parts ≤ 1))
      ⊎ ((aliases : List String) × (rest : List String) × (cut_parts is_number parts
            ≡ (aliases, rest))
          × (is_tail aliases rest ≡ true)
          × (parts ≡ aliases ++ rest))

  IsCut-two : (xs : List String) (t n : String) → IsCut (xs ++ t ∷ n ∷ [])
  IsCut-two [] t n = inr (t ∷ [], n ∷ [], cut_parts-tail t [] (n ∷ []) refl, refl, refl)
  IsCut-two (x ∷ xs) t n = elim (Bool-cases (is_number n)) [
    | inl e ↦ inr (x ∷ xs, t ∷ n ∷ [], cut_parts-tail x xs (t ∷ n ∷ []) e, e, refl)
    | inr e ↦
        let split : (x ∷ xs) ++ t ∷ n ∷ [] ≡ (x ∷ xs ++ t ∷ []) ++ n ∷ [] =
          sym (append_assoc (x ∷ xs) (t ∷ []) (n ∷ [])) in
        let tail_ : is_tail (x ∷ xs ++ t ∷ []) (n ∷ []) ≡ true = ground arith in
        inr (
          x ∷ xs ++ t ∷ [],
          n ∷ [],
          rw split (cut_parts-tail x (xs ++ t ∷ []) (n ∷ []) tail_),
          tail_,
          split,
        )
  ]

  pub IsCut-cases : (parts : List String) → IsCut parts
  unfolding cut_parts cname_end
  IsCut-cases [] = inl (refl, omega arith)
  IsCut-cases (a ∷ []) = inl (refl, omega arith)
  IsCut-cases (a ∷ b ∷ ps) =
      let (xs, t, n, e) = snoc_two a b ps in subst IsCut (sym e) (IsCut-two xs t n)
