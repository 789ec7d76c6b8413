-- ===== src/Sync/InSync.antt =====
-- `InSync` of internal/pihole/sync.go over all categories that `ComputeDiff` read.
use pihole_mcp.Prelude.{String, ◌≡◌, refl, ◌↔◌, Bool, true, false, List, [], ◌∷◌, arith}
use pihole_mcp.Sync.{
  SyncCategory, CategoryDiff, Diff, ReadResult, entries, unread, DiffResult, computed, failed,
  add_category, compute_diff, totals_of, in_sync,
}
use pihole_mcp.Sync.Agreement.{MapsMatch, IsEmpty, MapsMatch-of_IsEmpty, IsEmpty-of_MapsMatch}

-- Both Pi-holes were read, and the target matches the source.
abbrev pub CategoryMatches : Bool → ReadResult → ReadResult → Type 0
CategoryMatches prune (entries s) (entries t) = MapsMatch prune s t
CategoryMatches prune (entries s) (unread why) = ⊥
CategoryMatches prune (unread why) t = ⊥

abbrev pub AllMatch :
    Bool → (SyncCategory → ReadResult) → (SyncCategory → ReadResult) → List SyncCategory → Type 0
AllMatch prune src tgt [] = Unit
AllMatch prune src tgt (cat ∷ cats) =
    CategoryMatches prune (src cat) (tgt cat) × AllMatch prune src tgt cats

abbrev AllEmpty : Bool → List CategoryDiff → Type 0
AllEmpty prune [] = Unit
AllEmpty prune (cd ∷ cds) = IsEmpty prune cd × AllEmpty prune cds

abbrev TotalsAreZero : Bool → List CategoryDiff → Type 0
TotalsAreZero true cds =
    ((totals_of cds).added ≡ 0) × ((totals_of cds).changed ≡ 0) × ((totals_of cds).removed ≡ 0)
TotalsAreZero false cds = ((totals_of cds).added ≡ 0) × ((totals_of cds).changed ≡ 0) × Unit {0}

totals_iff : (prune : Bool) (cds : List CategoryDiff) → TotalsAreZero prune cds ↔ AllEmpty prune cds
unfolding totals_of
totals_iff true [] = ((λ h. tt), (λ h. (refl, refl, refl)))
totals_iff false [] = ((λ h. tt), (λ h. (refl, refl, tt)))
totals_iff true (cd ∷ cds) =
    let (to, from) = totals_iff true cds in
    (
      (λ (a, c, r).
          ((omega arith, omega arith, omega arith), to (omega arith, omega arith, omega arith))),
      (λ (e, es). let (a, c, r) = from es in (omega arith, omega arith, omega arith)),
    )
totals_iff false (cd ∷ cds) =
    let (to, from) = totals_iff false cds in
    (
      (λ (a, c, r). ((omega arith, omega arith, tt), to (omega arith, omega arith, tt))),
      (λ (e, es). let (a, c, r) = from es in (omega arith, omega arith, tt)),
    )

in_sync-totals :
    (prune : Bool) (d : Diff) → (in_sync prune d ≡ true) ↔ TotalsAreZero prune d.categories
unfolding in_sync
in_sync-totals true d = ((λ h. (ground arith, ground arith, ground arith)), (λ h. ground arith))
in_sync-totals false d = ((λ h. (ground arith, ground arith, tt)), (λ h. ground arith))

categories_of : (r r' : Diff) → computed r ≡ computed r' → r.categories ≡ r'.categories
categories_of r r' h = cc

category_iff :
    (prune : Bool) (cat : SyncCategory) (s t : ReadResult) (rest : DiffResult) (d : Diff)
    (M : Type 0)
    → add_category cat s t rest ≡ computed d
    → ((d' : Diff) → rest ≡ computed d' → AllEmpty prune d'.categories ↔ M)
    → AllEmpty prune d.categories ↔ (CategoryMatches prune s t × M)
category_iff prune cat (unread why) t rest d M h ih = cc
category_iff prune cat (entries s) (unread why) rest d M h ih = cc
category_iff prune cat (entries s) (entries t) (failed c why) d M h ih = cc
category_iff prune cat (entries s) (entries t) (computed r) d M h ih =
    let (to, from) = ih r refl in
    rw (← categories_of _ d h) (
      (λ (e, es). (MapsMatch-of_IsEmpty cat s t prune e, to es)),
      (λ (m, ms). (IsEmpty-of_MapsMatch cat s t prune m, from ms)),
    )

AllEmpty-iff_AllMatch :
    (prune : Bool) (source target : String) (src tgt : SyncCategory → ReadResult)
    (cats : List SyncCategory) (d : Diff)
    → compute_diff source target src tgt cats ≡ computed d
    → AllEmpty prune d.categories ↔ AllMatch prune src tgt cats
unfolding compute_diff
AllEmpty-iff_AllMatch prune source target src tgt [] d h =
    rw (← categories_of _ d h) ((λ x. tt), (λ x. tt))
AllEmpty-iff_AllMatch prune source target src tgt (cat ∷ cats) d h =
    category_iff prune cat (src cat) (tgt cat) (compute_diff source target src tgt cats) d
      (AllMatch prune src tgt cats) h
      (λ d' e. AllEmpty-iff_AllMatch prune source target src tgt cats d' e)

-- A diff is in sync exactly when, in every compared category, the target has each entry of the
-- source with the same settings, and, if extra entries are to be pruned, no other entry.
pub in_sync_iff :
    (prune : Bool) (source target : String) (src tgt : SyncCategory → ReadResult)
    (cats : List SyncCategory) (d : Diff)
    → compute_diff source target src tgt cats ≡ computed d
    → (in_sync prune d ≡ true) ↔ AllMatch prune src tgt cats
in_sync_iff prune source target src tgt cats d h =
    let (z, z') = in_sync-totals prune d in
    let (e, e') = totals_iff prune d.categories in
    let (m, m') = AllEmpty-iff_AllMatch prune source target src tgt cats d h in
    ((λ x. m (e (z x))), (λ x. z' (e' (m' x))))
