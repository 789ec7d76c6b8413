-- ===== src/LocalDns/Removed.antt =====
-- internal/tools/localdns.go: what a removal leaves in a setting, for records of any kind.
use pihole_mcp.Prelude.{
  ◌≡◌, refl, ap, inl, inr, String, Bool, true, false, ◌&&◌, ◌||◌, not, List, [], ◌∷◌, All, str_eq,
  str-eq_iff, keep, any, contains, Bool-cases, arith,
}
use pihole_mcp.LocalDns.{Removal, drop_record, write_records, remove_name, replace_records}

-- A setting after FTL carried out a removal: an item is dropped by its value.
unfoldable pub after_removal : Removal → List String → List String
after_removal (drop_record rec) recs = keep (λ r. not (str_eq r rec)) recs
after_removal (write_records written) recs = written

abbrev pub others : String → List String → List String
others original recs = keep (λ r. not (str_eq r original)) recs

-- Where one record matches, every record that matches is that one.
keep-one :
    (p : String → Bool) (x : String) (xs : List String)
    → All (λ r. r ≡ x) (keep p xs)
    → All (λ r. p r ≡ true → r ≡ x) xs
keep-one p x [] h = tt
keep-one p x (y ∷ ys) h = elim (Bool-cases (p y)) [
  | inl e ↦ let (same, rest) = rw e at h in ((λ z. same), keep-one p x ys rest)
  | inr e ↦ ((λ z. absurd (ground arith)), keep-one p x ys (rw e at h))
]

pub keep-All : (p : String → Bool) (xs : List String) → All (λ r. p r ≡ true) (keep p xs)
keep-All p [] = tt
keep-All p (x ∷ xs) = elim (Bool-cases (p x)) [
  | inl e ↦ rw e (e, keep-All p xs)
  | inr e ↦ rw e (keep-All p xs)
]

-- Of what a record serves, a removal may take what `targeted` accepts, and a record that serves such
-- a thing matches.
module _ {Q : Type 0} (serves : String → Q → Bool) (targeted : Q → Bool)
    (matches : String → Bool) where
  abbrev pub served : List String → Q → Bool
  served recs q = any (λ rec. serves rec q) recs

  abbrev pub Touches : Type 0
  Touches = (rec : String) (q : Q) → serves rec q ≡ true → targeted q ≡ true → matches rec ≡ true

  -- A record other than the one that matches serves nothing that goes.
  other_untargeted :
      (original rec : String) (q : Q)
      → Touches
      → (matches rec ≡ true → rec ≡ original)
      → str_eq rec original ≡ false
      → (serves rec q && targeted q) ≡ false
  other_untargeted original rec q touch only e = elim (Bool-cases (serves rec q)) [
    | inr s ↦ rw s refl
    | inl s ↦ elim (Bool-cases (targeted q)) [
      | inr t ↦ rw (s, t) refl
      | inl t ↦
          absurd (let same = (str-eq_iff rec original).1 (only (touch rec q s t)) in ground arith)
    ]
  ]

  served-others :
      (original : String) (recs : List String) (q : Q)
      → Touches
      → All (λ r. matches r ≡ true → r ≡ original) recs
      → (served (others original recs) q
          || (contains recs original && (serves original q && not (targeted q))))
        ≡ (served recs q && not (targeted q))
  served-others original [] q touch h = refl
  served-others original (rec ∷ recs) q touch (only, h) =
      let ih = served-others original recs q touch h in
      elim (Bool-cases (str_eq rec original)) [
        | inl e ↦
            let same = ap (λ r. serves r q) ((str-eq_iff rec original).0 e) in
            rw e (ground (arith, ih, same))
        | inr e ↦
            let apart = other_untargeted original rec q touch only e in
            rw e (ground (arith, ih, apart))
      ]

  unlike : (a b : String) → matches a ≡ false → matches b ≡ true → str_eq a b ≡ false
  unlike a b apart found = elim (Bool-cases (str_eq a b)) [
    | inr e ↦ e
    | inl e ↦ absurd (let same = ap matches ((str-eq_iff a b).0 e) in ground arith)
  ]

  served-kept :
      (original remaining : String) (recs : List String) (q : Q)
      → contains recs remaining ≡ true
      → str_eq remaining original ≡ false
      → serves remaining q ≡ true
      → served (others original recs) q ≡ true
  served-kept original remaining [] q c a s = absurd (ground arith)
  served-kept original remaining (rec ∷ recs) q c a s = elim (Bool-cases (str_eq rec remaining)) [
    | inl e ↦
        let same = (str-eq_iff rec remaining).0 e in
        let here : serves rec q ≡ true = rw same s in
        let apart : str_eq rec original ≡ false = rw same a in rw apart (rw here refl)
    | inr e ↦
        let ih = served-kept original remaining recs q (ground arith) a s in ground (arith, ih)
  ]

  served-replaced :
      (records recs : List String) (original remaining : String) (q : Q)
      → contains records remaining ≡ false
      → served (replace_records records original remaining recs) q
        ≡ (served (others original recs) q || (contains recs original && serves remaining q))
  unfolding replace_records
  served-replaced records [] original remaining q c = refl
  served-replaced records (rec ∷ recs) original remaining q c =
      ground (arith, served-replaced records recs original remaining q c)

  replaced_already :
      (records recs : List String) (original remaining : String)
      → contains records remaining ≡ true
      → replace_records records original remaining recs ≡ others original recs
  unfolding replace_records
  replaced_already records [] original remaining c = refl
  replaced_already records (rec ∷ recs) original remaining c =
      ground (arith, replaced_already records recs original remaining c)

  -- What is left of the one record that matches: what it served, less what goes.
  abbrev pub IsReduced : String → List String → String → Type 0
  IsReduced original [] remaining = (q : Q) → (serves original q && not (targeted q)) ≡ false
  IsReduced original (k ∷ kept) remaining =
      (matches remaining ≡ false)
      × ((q : Q) → serves remaining q ≡ (serves original q && not (targeted q)))

  served-written :
      (records : List String) (original remaining : String) (q : Q)
      → Touches
      → All (λ r. matches r ≡ true → r ≡ original) records
      → str_eq remaining original ≡ false
      → serves remaining q ≡ (serves original q && not (targeted q))
      → served (replace_records records original remaining records) q
        ≡ (served records q && not (targeted q))
  served-written records original remaining q touch only apart less =
      let left = served-others original records q touch only in
      elim (Bool-cases (contains records remaining)) [
        | inr c ↦ rw (served-replaced records records original remaining q c) (rw less left)
        | inl c ↦
            rw (replaced_already records records original remaining c)
              (elim (Bool-cases (serves remaining q)) [
                | inr s ↦ ground (arith, left, less)
                | inl s ↦
                    let kept = served-kept original remaining records q c apart s in
                    ground (arith, left, kept)
              ])
      ]

  -- If one record matches, and it is reduced by what goes, then the setting serves after the removal
  -- what it served before, less what goes.
  pub served-after_removal :
      (records : List String) (original : String) (kept : List String) (remaining : String) (q : Q)
      → Touches
      → keep matches records ≡ original ∷ []
      → IsReduced original kept remaining
      → served (after_removal (remove_name records original kept remaining) records) q
        ≡ (served records q && not (targeted q))
  unfolding after_removal remove_name
  served-after_removal records original [] remaining q touch one less =
      let only = keep-one matches original records (rw one (refl, tt)) in
      let left = served-others original records q touch only in
      let none_left = less q in ground (arith, left, none_left)
  served-after_removal records original (k ∷ kept) remaining q touch one (unmatched, less) =
      let only = keep-one matches original records (rw one (refl, tt)) in
      let (found, rest) = rw one at (keep-All matches records) in
      served-written records original remaining q touch only
        (unlike remaining original unmatched found) (less q)
