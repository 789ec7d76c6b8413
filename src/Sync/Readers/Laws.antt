-- ===== src/Sync/Readers/Laws.antt =====
-- The readers of internal/pihole/sync.go: the keys of their maps, replies without their list, and
-- the plus sign in an escaped path segment.
use Prim.Native.Char.{code}
use text.Mathlib.TextLemmas.{cons-append, nil-append}
use pihole_mcp.Prelude.{
  String, ◌≡◌, ◌≢◌, refl, ◌⊎◌, inl, inr, some, List, [], ◌∷◌, arith, ◌==◌, Bool-cases, str-eq_iff,
  Map, lookup, insert, lookup-insert, subst,
}
use pihole_mcp.Sync.{
  Item, SyncCategory, ReadResult, entries, unread, Diff, computed, compute_diff, add_category,
  DiffResult, failed,
}
use pihole_mcp.Sync.Readers.{
  replace_plus, Escaping, escape_path_segment, items_map, read_items, Listed, listed, unlisted,
}

abbrev pub NoPlus : String → Type 0
NoPlus String.[] = Unit
NoPlus (String.◌∷◌ c s) = (code c ≢ b'+') × NoPlus s

NoPlus-replace_plus : (s : String) → NoPlus (replace_plus s)
unfolding replace_plus
NoPlus-replace_plus String.[] = tt
NoPlus-replace_plus (String.◌∷◌ c s) = elim (Bool-cases (code c == b'+')) [
  | inl e ↦
      rw (e, cons-append, cons-append, cons-append, nil-append)
        (omega arith, (omega arith, (omega arith, NoPlus-replace_plus s)))
  | inr e ↦ rw e (ground arith, NoPlus-replace_plus s)
]

-- FTL reads a plus sign in a path as a space; no escaped segment has one.
pub escaped-NoPlus : (esc : Escaping) (s : String) → NoPlus (escape_path_segment esc s)
unfolding escape_path_segment
escaped-NoPlus esc s = NoPlus-replace_plus (esc.path_escape s)

-- Every entry stands under its own key.
abbrev pub IsKeyed : Map Item → Type 0
IsKeyed m = (k : String) (it : Item) → lookup k m ≡ some it → it.key ≡ k

IsKeyed-insert : (it : Item) (m : Map Item) → IsKeyed m → IsKeyed (insert it.key it m)
IsKeyed-insert it m h k i e =
    ground (arith, lookup-insert it.key k it m, str-eq_iff it.key k, h k i)

items_map-IsKeyed :
    {A : Type 0} (item : A → Item) (items : List A) (m : Map Item)
    → IsKeyed m
    → IsKeyed (items_map item items m)
unfolding items_map
items_map-IsKeyed item [] m h = h
items_map-IsKeyed item (a ∷ rest) m h =
    items_map-IsKeyed item rest (insert (item a).key (item a) m) (IsKeyed-insert (item a) m h)

entries_of : (m m' : Map Item) → entries m ≡ entries m' → m ≡ m'
entries_of m m' h = cc

IsKeyed-nil : IsKeyed []
unfolding lookup
IsKeyed-nil k it e = cc

-- What any reader returns is a map that is keyed by its items.
pub read_items-IsKeyed :
    {A : Type 0} (item : A → Item) (l : Listed A) (m : Map Item)
    → read_items item l ≡ entries m
    → IsKeyed m
unfolding read_items
read_items-IsKeyed item (unlisted why) m h = cc
read_items-IsKeyed item (listed items) m h =
    subst IsKeyed (entries_of _ m h) (items_map-IsKeyed item items [] IsKeyed-nil)

-- The source's reply for a category that is compared could not be read.
abbrev pub IsUnread : ReadResult → Type 0
IsUnread (unread why) = Unit
IsUnread (entries m) = ⊥

add_category-unread :
    (cat : SyncCategory) (s t : ReadResult) (rest : DiffResult) (d : Diff)
    → IsUnread s ⊎ IsUnread t
    → add_category cat s t rest ≡ computed d
    → ⊥
add_category-unread cat (unread why) t rest d h e = cc
add_category-unread cat (entries s) (unread why) rest d h e = cc
add_category-unread cat (entries s) (entries t) rest d (inl h) e = h
add_category-unread cat (entries s) (entries t) rest d (inr h) e = h

rest_computed :
    (cat : SyncCategory) (s t : ReadResult) (rest : DiffResult) (d : Diff)
    → add_category cat s t rest ≡ computed d
    → (d' : Diff) × (rest ≡ computed d')
rest_computed cat (unread why) t rest d e = cc
rest_computed cat (entries s) (unread why) rest d e = cc
rest_computed cat (entries s) (entries t) (failed c why) d e = cc
rest_computed cat (entries s) (entries t) (computed r) d e = (r, refl)

abbrev pub IsIn : SyncCategory → List SyncCategory → Type 0
IsIn cat [] = ⊥
IsIn cat (c ∷ cs) = (c ≡ cat) ⊎ IsIn cat cs

-- A category that either Pi-hole did not answer with its list stops the comparison: there is no
-- diff, so nothing is planned and no entry is deleted for want of it.
pub unread_stops :
    (source target : String) (src tgt : SyncCategory → ReadResult) (cat : SyncCategory)
    (cats : List SyncCategory) (d : Diff)
    → IsIn cat cats
    → IsUnread (src cat) ⊎ IsUnread (tgt cat)
    → compute_diff source target src tgt cats ≢ computed d
unfolding compute_diff
unread_stops source target src tgt cat [] d i h e = i
unread_stops source target src tgt cat (c ∷ cs) d (inl same) h e =
    add_category-unread c (src c) (tgt c) _ d (rw same h) e
unread_stops source target src tgt cat (c ∷ cs) d (inr i) h e =
    let (d', e') = rest_computed c (src c) (tgt c) _ d e in
    unread_stops source target src tgt cat cs d' i h e'
