-- ===== src/LocalDns/Hosts.antt =====
-- internal/tools/localdns.go: what `localDNSDeleteHandler` leaves of the host records.
use Prim.Native.String
use pihole_mcp.Prelude.{
  ◌≡◌, refl, sym, subst, ◌∙◌, inl, inr, String, Bool, true, false, ◌&&◌, not, List, [], ◌∷◌, str_eq,
  str-eq_iff, keep, any, contains, Bool-cases, arith, fields, join, AllWords, fields-AllWords,
  fields-join,
}
use pihole_mcp.LocalDns.{
  Lookups, words_match, host_matches, other_names, host_removal, host_words_removal, same_addr,
}
use pihole_mcp.LocalDns.Names.{any-contains, contains-other_names, any-other_names}
use pihole_mcp.LocalDns.Removed.{
  served, IsReduced, Touches, after_removal, keep-All, served-after_removal,
}

-- Whether a line's words give a name to an address, both as they are written.
abbrev pub words_serve : List String → String × String → Bool
words_serve [] q = false
words_serve (ip ∷ names) q = str_eq ip q.0 && contains names q.1

unfoldable pub host_serves : String → String × String → Bool
host_serves rec q = words_serve (fields rec) q

keep-AllWords : (p : String → Bool) (ws : List String) → AllWords ws → AllWords (keep p ws)
keep-AllWords p [] h = tt
keep-AllWords p (w ∷ ws) (h, hs) = elim (Bool-cases (p w)) [
  | inl e ↦ rw e (h, keep-AllWords p ws hs)
  | inr e ↦ rw e (keep-AllWords p ws hs)
]

names-AllWords :
    (ip : String) (names : List String) (original : String)
    → fields original ≡ ip ∷ names
    → AllWords (ip ∷ names)
names-AllWords ip names original f = subst AllWords f (fields-AllWords original)

module _ {A : Type 0} (lib : Lookups A) (addr : A) (hostname : String) where
  -- What a delete is to take: the name, in any case, under any spelling of the address.
  abbrev pub host_targeted : String × String → Bool
  host_targeted q = same_addr lib q.0 addr && lib.equal_fold q.1 hostname

  words_touch :
      (ws : List String) (q : String × String)
      → words_serve ws q ≡ true
      → host_targeted q ≡ true
      → words_match lib addr hostname ws ≡ true
  unfolding words_match
  words_touch [] q s t = absurd (ground arith)
  words_touch (ip ∷ names) q s t =
      let same = (str-eq_iff ip q.0).0 (ground arith) in
      let found = any-contains lib hostname names q.1 (ground arith) (ground arith) in
      rw same (rw found (ground arith))

  hosts_touch : Touches host_serves host_targeted (host_matches lib addr hostname)
  unfolding host_serves host_matches
  hosts_touch rec q s t = words_touch (fields rec) q s t

  -- Of a line with the address, a pair is served and not targeted exactly if its name stays.
  words_left :
      (ip : String) (names : List String) (q : String × String)
      → same_addr lib ip addr ≡ true
      → words_serve (ip ∷ other_names lib hostname names) q
        ≡ (words_serve (ip ∷ names) q && not (host_targeted q))
  words_left ip names q s =
      let kept = contains-other_names lib hostname names q.1 in
      elim (Bool-cases (str_eq ip q.0)) [
        | inr e ↦ rw e refl
        | inl e ↦
            let same : same_addr lib q.0 addr ≡ true = rw (sym ((str-eq_iff ip q.0).0 e)) s in
            rw e (ground (arith, kept, same))
      ]

  -- The words of the line that is written back.
  remaining_words :
      (ip : String) (names : List String) (k : String) (kept : List String) (original : String)
      → fields original ≡ ip ∷ names
      → other_names lib hostname names ≡ k ∷ kept
      → fields (String.◌++◌ ip (String.◌++◌ " " (join " " (k ∷ kept)))) ≡ ip ∷ k ∷ kept
  unfolding join
  remaining_words ip names k kept original f e =
      let (w, ws) = names-AllWords ip names original f in
      fields-join ip (k ∷ kept)
        (w, subst AllWords e (keep-AllWords (λ n. not (lib.equal_fold n hostname)) names ws))

  no_name_served : (ip : String) (q : String × String) → words_serve (ip ∷ []) q ≡ false
  no_name_served ip q = ground arith

  host-IsReduced :
      (original ip : String) (names kept : List String)
      → fields original ≡ ip ∷ names
      → same_addr lib ip addr ≡ true
      → other_names lib hostname names ≡ kept
      → IsReduced host_serves host_targeted
          (host_matches lib addr hostname)
          original
          kept
          (String.◌++◌ ip (String.◌++◌ " " (join " " kept)))
  unfolding host_serves host_matches words_match
  host-IsReduced original ip names [] f s e =
      λ q. let left = rw e at (words_left ip names q s) in rw f (sym left ∙ no_name_served ip q)
  host-IsReduced original ip names (k ∷ kept) f s e =
      let words = remaining_words ip names k kept original f e in
      (
        rw words (rw s (rw e at (any-other_names lib hostname names))),
        λ q. rw words (rw f (rw e at (words_left ip names q s))),
      )

  host_words_left :
      (records : List String) (original : String) (words : List String) (q : String × String)
      → fields original ≡ words
      → keep (host_matches lib addr hostname) records ≡ original ∷ []
      → words_match lib addr hostname words ≡ true
      → served host_serves host_targeted
          (host_matches lib addr hostname)
          (after_removal (host_words_removal lib records hostname original words) records)
          q
        ≡ (served host_serves host_targeted (host_matches lib addr hostname) records q
            && not (host_targeted q))
  unfolding words_match
  host_words_left records original [] q f one m = absurd (ground arith)
  host_words_left records original (ip ∷ names) q f one m =
      served-after_removal host_serves host_targeted (host_matches lib addr hostname) records
        original (other_names lib hostname names)
        (String.◌++◌ ip (String.◌++◌ " " (join " " (other_names lib hostname names)))) q hosts_touch
        one
        (host-IsReduced original ip names (other_names lib hostname names) f (ground arith) refl)

  -- If one record matches the address and the name of a delete, then afterwards an address has a name
  -- exactly if it had it before and the two are not, up to case and the spelling of the address, the
  -- ones that were to go: every other name on that line stays.
  pub only_named_host_goes :
      (records : List String) (original : String) (q : String × String)
      → keep (host_matches lib addr hostname) records ≡ original ∷ []
      → any
          (λ rec. host_serves rec q)
          (after_removal (host_removal lib records hostname original) records)
        ≡ (any (λ rec. host_serves rec q) records && not (host_targeted q))
  unfolding host_removal host_matches
  only_named_host_goes records original q one =
      let (found, rest) = rw one at (keep-All (host_matches lib addr hostname) records) in
      host_words_left records original (fields original) q refl one found
