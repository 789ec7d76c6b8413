-- ===== src/Sync/Cnames.antt =====
-- internal/pihole/sync.go: the CNAME list that `applyCNAMEs` writes back in one request.
use pihole_mcp.Prelude.{
  String, ◌≡◌, refl, ap, inl, inr, true, ◌&&◌, ◌||◌, not, List, [], ◌∷◌, arith, str_eq, str-eq_iff,
  if◌then◌else◌, Bool-cases, contains, IsDistinct,
}

-- The second loop: what is to be added and is not there yet.
unfoldable pub add_records : List String → List String → List String
add_records present [] = []
add_records present (rec ∷ recs) =
    let old = contains present rec in
    let rest = add_records (if old then present else rec ∷ present) recs in
    if old then rest else rec ∷ rest

-- Both loops: the current records that are not dropped, then the added ones, each once.
unfoldable pub next_records : List String → List String → List String → List String → List String
unfolding add_records
next_records present drops adds [] = add_records present adds
next_records present drops adds (rec ∷ current) =
    let kept = not (contains drops rec) && not (contains present rec) in
    let rest = next_records (if kept then rec ∷ present else present) drops adds current in
    if kept then rec ∷ rest else rest

-- `next` of `applyCNAMEs`.
unfoldable pub cname_next : List String → List String → List String → List String
unfolding next_records
cname_next current drops adds = next_records [] drops adds current

contains_same : (l : List String) (j k : String) → str_eq j k ≡ true → contains l j ≡ contains l k
contains_same l j k h = ap (contains l) ((str-eq_iff j k).0 h)

contains-add_records :
    (k : String) (present adds : List String)
    → contains (add_records present adds) k ≡ (contains adds k && not (contains present k))
unfolding add_records
contains-add_records k present [] = refl
contains-add_records k present (rec ∷ recs) = elim (Bool-cases (contains present rec)) [
  | inl old ↦
      rw old (ground (arith, contains-add_records k present recs, contains_same present rec k))
  | inr new ↦
      rw new
        (ground (arith, contains-add_records k (rec ∷ present) recs, contains_same present rec k))
]

contains-next_records :
    (k : String) (present drops adds current : List String)
    → contains (next_records present drops adds current) k ≡ (
        ((contains current k && not (contains drops k)) || contains adds k)
        && not (contains present k))
unfolding next_records
contains-next_records k present drops adds [] = contains-add_records k present adds
contains-next_records k present drops adds (rec ∷ current) =
    elim (Bool-cases (not (contains drops rec) && not (contains present rec))) [
      | inl kept ↦ rw kept (
          ground (
            arith,
            contains-next_records k (rec ∷ present) drops adds current,
            contains_same present rec k,
            contains_same drops rec k,
          ))
      | inr left ↦ rw left (
          ground (
            arith,
            contains-next_records k present drops adds current,
            contains_same present rec k,
            contains_same drops rec k,
          ))
    ]

IsDistinct-add_records : (present adds : List String) → IsDistinct (add_records present adds)
unfolding add_records
IsDistinct-add_records present [] = tt
IsDistinct-add_records present (rec ∷ recs) = elim (Bool-cases (contains present rec)) [
  | inl old ↦ rw old (IsDistinct-add_records present recs)
  | inr new ↦ rw new (
    ground (arith, contains-add_records rec (rec ∷ present) recs, str-eq_iff rec rec),
    IsDistinct-add_records (rec ∷ present) recs,
  )
]

IsDistinct-next_records :
    (present drops adds current : List String)
    → IsDistinct (next_records present drops adds current)
unfolding next_records
IsDistinct-next_records present drops adds [] = IsDistinct-add_records present adds
IsDistinct-next_records present drops adds (rec ∷ current) =
    elim (Bool-cases (not (contains drops rec) && not (contains present rec))) [
      | inl kept ↦ rw kept (
        ground (
          arith,
          contains-next_records rec (rec ∷ present) drops adds current,
          str-eq_iff rec rec,
        ),
        IsDistinct-next_records (rec ∷ present) drops adds current,
      )
      | inr left ↦ rw left (IsDistinct-next_records present drops adds current)
    ]

-- The list that a sync writes back holds a record exactly if it was there and is not deleted, or is
-- to be added; and it holds no record twice.
pub cname_next_exact :
    (current drops adds : List String)
    → ((k : String)
        → contains (cname_next current drops adds) k
          ≡ ((contains current k && not (contains drops k)) || contains adds k))
      × IsDistinct (cname_next current drops adds)
unfolding cname_next
cname_next_exact current drops adds = (
  (λ k. ground (arith, contains-next_records k [] drops adds current)),
  IsDistinct-next_records [] drops adds current,
)
