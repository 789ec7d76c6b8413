-- ===== src/LocalDns/Aliases.antt =====
-- internal/tools/localdns.go: what `localCNAMEDeleteHandler` leaves of the CNAME records.
use pihole_mcp.Prelude.{
  ◌≡◌, refl, sym, ap, subst, inl, inr, ◌≤◌, length, length-keep, String, Bool, true, false, ◌&&◌,
  not, List, [], ◌∷◌, ◌++◌, map, All, All-append, str_eq, keep, any, contains, arith, join,
  split_by, is_char, trim_space, clear, AllClear, split_by-join, split_by-AllClear,
  clear-trim_space, trim_space_twice,
}
use pihole_mcp.LocalDns.{Lookups, split_cname, alias_matches, other_names, cname_removal}
use pihole_mcp.LocalDns.Names.{All-keep, any-contains, contains-other_names, any-other_names}
use pihole_mcp.LocalDns.Removed.{IsReduced, Touches, after_removal, keep-All, served-after_removal}
use pihole_mcp.LocalDns.Parts.{is_tail, IsCut-cases, cut_parts-tail}

-- A part of a record: no comma in it, and no space around it.
abbrev pub IsPart : String → Type 0
IsPart w = (clear (is_char b',') w ≡ true) × (trim_space w ≡ w)

All-split : (P : String → Type 0) (xs ys : List String) → All P (xs ++ ys) → All P xs × All P ys
All-split P [] ys h = (tt, h)
All-split P (x ∷ xs) ys (h, hs) = let (l, r) = All-split P xs ys hs in ((h, l), r)

parts-AllClear : (ws : List String) → All IsPart ws → AllClear (is_char b',') ws
parts-AllClear [] h = tt
parts-AllClear (w ∷ ws) ((c, t), hs) = (c, parts-AllClear ws hs)

map-trim_parts : (ws : List String) → All IsPart ws → map trim_space ws ≡ ws
map-trim_parts [] h = refl
map-trim_parts (w ∷ ws) ((c, t), hs) = rw t (ap (λ r. w ∷ r) (map-trim_parts ws hs))

trimmed-AllParts : (ws : List String) → AllClear (is_char b',') ws → All IsPart (map trim_space ws)
trimmed-AllParts [] h = tt
trimmed-AllParts (w ∷ ws) (h, hs) =
    ((clear-trim_space (is_char b',') w h, trim_space_twice w), trimmed-AllParts ws hs)

abbrev pub parts_of : String → List String
parts_of rec = map trim_space (split_by (is_char b',') rec)

parts_of-AllParts : (rec : String) → All IsPart (parts_of rec)
parts_of-AllParts rec =
    trimmed-AllParts (split_by (is_char b',') rec) (split_by-AllClear (is_char b',') rec)

parts_of-join :
    (w : String) (ws : List String) → All IsPart (w ∷ ws) → parts_of (join "," (w ∷ ws)) ≡ w ∷ ws
parts_of-join w ws h =
    rw (split_by-join (is_char b',') "," w ws refl (parts-AllClear (w ∷ ws) h))
      (map-trim_parts (w ∷ ws) h)

-- Writing aliases, a target and, where it is a number, a TTL as a record and splitting the record
-- again gives them back.
pub split_cname-join :
    (is_number : String → Bool) (a : String) (aliases rest : List String)
    → All IsPart ((a ∷ aliases) ++ rest)
    → is_tail is_number (a ∷ aliases) rest ≡ true
    → split_cname is_number (join "," ((a ∷ aliases) ++ rest)) ≡ (a ∷ aliases, rest)
unfolding split_cname
split_cname-join is_number a aliases rest h t =
    rw (parts_of-join a (aliases ++ rest) h) (cut_parts-tail is_number a aliases rest t)

abbrev pub cut_serves : List String × List String → String × String → Bool
cut_serves cut q = contains cut.0 q.0 && str_eq (join "," cut.1) q.1

-- Whether a record points an alias, as it is written, at what a text says: a target, a TTL with it.
unfoldable pub cname_serves : {A : Type 0} → Lookups A → String → String × String → Bool
cname_serves lib rec q = cut_serves (split_cname lib.is_number rec) q

module _ {A : Type 0} (lib : Lookups A) (alias : String) where
  abbrev pub alias_targeted : String × String → Bool
  alias_targeted q = lib.equal_fold q.0 alias

  aliases_touch : Touches (cname_serves lib) alias_targeted (alias_matches lib alias)
  unfolding cname_serves alias_matches
  aliases_touch rec q s t =
      any-contains lib alias (split_cname lib.is_number rec).0 q.0 (ground arith) t

  cut_left :
      (aliases rest : List String) (q : String × String)
      → cut_serves (other_names lib alias aliases, rest) q
        ≡ (cut_serves (aliases, rest) q && not (alias_targeted q))
  cut_left aliases rest q =
      let kept = contains-other_names lib alias aliases q.0 in ground (arith, kept)

  -- Fewer aliases read the same tail.
  tail-fewer :
      (aliases kept rest : List String)
      → length kept ≤ length aliases
      → is_tail lib.is_number aliases rest ≡ true
      → is_tail lib.is_number kept rest ≡ true
  tail-fewer aliases kept [] l h = h
  tail-fewer aliases kept (t ∷ []) l h = ground arith
  tail-fewer aliases kept (t ∷ n ∷ []) l h = h
  tail-fewer aliases kept (t ∷ n ∷ m ∷ rest) l h = h

  remaining_cut :
      (original : String) (aliases rest : List String) (k : String) (kept : List String)
      → parts_of original ≡ aliases ++ rest
      → is_tail lib.is_number aliases rest ≡ true
      → other_names lib alias aliases ≡ k ∷ kept
      → split_cname lib.is_number (join "," ((k ∷ kept) ++ rest)) ≡ (k ∷ kept, rest)
  remaining_cut original aliases rest k kept p t e =
      let whole = subst (All IsPart) p (parts_of-AllParts original) in
      let (left, right) = All-split IsPart aliases rest whole in
      split_cname-join lib.is_number k kept rest
        (All-append IsPart (k ∷ kept) rest
          (subst (All IsPart) e (All-keep IsPart (λ n. not (lib.equal_fold n alias)) aliases left))
          right)
        (tail-fewer aliases (k ∷ kept) rest
          (subst (λ xs. length xs ≤ length aliases) e
            (length-keep (λ n. not (lib.equal_fold n alias)) aliases))
          t)

  alias_gone :
      (original : String) (aliases rest : List String)
      → split_cname lib.is_number original ≡ (aliases, rest)
      → other_names lib alias aliases ≡ []
      → (q : String × String) → (cname_serves lib original q && not (alias_targeted q)) ≡ false
  unfolding cname_serves
  alias_gone original aliases rest c e q =
      let left = rw e at (cut_left aliases rest q) in rw c (sym left)

  alias-IsReduced :
      (original : String) (aliases rest kept : List String)
      → split_cname lib.is_number original ≡ (aliases, rest)
      → parts_of original ≡ aliases ++ rest
      → is_tail lib.is_number aliases rest ≡ true
      → other_names lib alias aliases ≡ kept
      → IsReduced
          (cname_serves lib)
          alias_targeted
          (alias_matches lib alias)
          original
          kept
          (join "," (kept ++ rest))
  unfolding cname_serves alias_matches
  alias-IsReduced original aliases rest [] c p t e = alias_gone original aliases rest c e
  alias-IsReduced original aliases rest (k ∷ kept) c p t e =
      let cut = remaining_cut original aliases rest k kept p t e in
      (
        rw cut (rw e at (any-other_names lib alias aliases)),
        λ q. rw cut (rw c (rw e at (cut_left aliases rest q))),
      )

  -- A record of one part that matches has no other alias.
  none_other :
      (parts : List String)
      → length parts ≤ 1
      → any (λ a. lib.equal_fold a alias) parts ≡ true
      → other_names lib alias parts ≡ []
  none_other [] l m = refl
  none_other (a ∷ []) l m = let same : lib.equal_fold a alias ≡ true = ground arith in rw same refl
  none_other (a ∷ b ∷ parts) l m = absurd (omega arith)

  -- The removal is reduced whatever the record looks like.
  removal-IsReduced :
      (original : String)
      → alias_matches lib alias original ≡ true
      → IsReduced
          (cname_serves lib)
          alias_targeted
          (alias_matches lib alias)
          original
          (other_names lib alias (split_cname lib.is_number original).0)
          (join "," (
            other_names lib alias (split_cname lib.is_number original).0
            ++ (split_cname lib.is_number original).1))
  unfolding split_cname alias_matches
  removal-IsReduced original m = elim (IsCut-cases lib.is_number (parts_of original)) [
    | inl (c, short) ↦
        let none_left = none_other (parts_of original) short (rw c at m) in
        rw c (rw none_left (alias_gone original (parts_of original) [] c none_left))
    | inr (aliases, rest, c, t, p) ↦
        rw c (alias-IsReduced original aliases rest (other_names lib alias aliases) c p t refl)
  ]

  -- If one record matches the alias of a delete, then afterwards an alias points at a target, with a
  -- TTL or without, exactly if it did before and it is not, up to case, the alias that was to go: the
  -- other aliases of that record stay.
  pub only_named_alias_goes :
      (records : List String) (original : String) (q : String × String)
      → keep (alias_matches lib alias) records ≡ original ∷ []
      → any
          (λ rec. cname_serves lib rec q)
          (after_removal (cname_removal lib records alias original) records)
        ≡ (any (λ rec. cname_serves lib rec q) records && not (alias_targeted q))
  unfolding cname_removal
  only_named_alias_goes records original q one =
      let (found, rest) = rw one at (keep-All (alias_matches lib alias) records) in
      served-after_removal (cname_serves lib) alias_targeted (alias_matches lib alias) records
        original (other_names lib alias (split_cname lib.is_number original).0)
        (join "," (
          other_names lib alias (split_cname lib.is_number original).0
          ++ (split_cname lib.is_number original).1))
        q aliases_touch one (removal-IsReduced original found)
