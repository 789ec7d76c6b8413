-- ===== src/SyncTool/Saved.antt =====
-- internal/tools/sync.go: the backup that `instanceSyncHandler` saves before it writes.
use pihole_mcp.Prelude.{
  ◌≡◌, refl, ap, ◌⊎◌, inl, inr, String, Bool, true, Option, none, some, List, str_eq, Bool-cases,
  or_else, arith,
}
use pihole_mcp.Registry.{Registry, get_client, default_client}
use pihole_mcp.Sync.{SyncCategory, Diff, computed}
use pihole_mcp.Sync.Apply.{apply_plan}
use pihole_mcp.SyncTool.{Refusal, no_default, unknown_instance, SyncRequest, parse_sync_categories}
use pihole_mcp.SyncTool.Backup.{export_snapshot}
use pihole_mcp.SyncTool.Handler.{
  Calls, SyncOutput, answered, two_instances, with_source, with_target, resolve_source_target,
  compare_instances, prunes, apply_backed_up, apply_confirmed, instance_sync,
}
use pihole_mcp.SyncTool.Kept.{ReadsKeep, BackupKeeps, compare_instances-keep, export_snapshot-keep}
use pihole_mcp.SyncTool.Confirmed.{untouched_or_Confirmed}

module _ {C A F W : Type 0} (calls : Calls C A F W) where
  two_instances-target : (s t : C) {s' t' : C} → two_instances calls s t ≡ inr (s', t') → t ≡ t'
  two_instances-target s t e = ground arith

  with_source-target :
      (s : Option C) (why : Refusal) (t : C) {s' t' : C}
      → with_source calls s why t ≡ inr (s', t')
      → t ≡ t'
  with_source-target none why t e = cc
  with_source-target (some s) why t e = two_instances-target s t e

  with_target-target :
      (r : Registry C) (source : String) (found : Option C) (target : String) {s t : C}
      → with_target calls r source found target ≡ inr (s, t)
      → found ≡ some t
  with_target-target r source none target e = cc
  with_target-target r source (some t) target e = elim (Bool-cases (str_eq source "")) [
    | inl b ↦ ap some (with_source-target (default_client r) no_default t (rw b at e))
    | inr b ↦
        ap some (with_source-target (get_client r source) (unknown_instance source) t (rw b at e))
  ]

  -- The instance that is written to is the one that the request names as its target.
  resolve_source_target-target :
      (r : Registry C) (source target : Option String) {s t : C}
      → resolve_source_target calls r source target ≡ inr (s, t)
      → get_client r (or_else "" target) ≡ some t
  unfolding resolve_source_target
  resolve_source_target-target r source target e =
      with_target-target r (or_else "" source) (get_client r (or_else "" target))
        (or_else "" target) e

  -- The world that a backup of an instance leaves.
  abbrev pub after_backup : C → W → W
  after_backup t v = (export_snapshot calls.name calls.backup t v).1

  -- The comparison is followed by a backup of the instance that the request names as its target,
  -- which succeeds, and that by the plan on that instance; the answer names the path of the backup.
  abbrev pub BackedUp : Registry C → SyncRequest → W → Type 0
  BackedUp r req w =
      (s : C) × (t : C) × (cats : List SyncCategory) × (d : Diff) × (path : String) × (get_client r
          (or_else "" req.target)
        ≡ some t)
      × (resolve_source_target calls r req.source req.target ≡ inr (s, t))
      × (parse_sync_categories req.categories ≡ inr cats)
      × ((compare_instances calls s t cats w).0 ≡ computed d)
      × (let v = (compare_instances calls s t cats w).1 in
          ((export_snapshot calls.name calls.backup t v).0 ≡ inr path)
          × ((instance_sync calls r req w).1
              ≡ (apply_plan (calls.target_of t) d (prunes calls req) (after_backup t v)).1))
      × ((o : SyncOutput) × (err : Bool) × ((instance_sync calls r req w).0 ≡ answered o err)
          × (o.snapshot_path ≡ path))

  backed_up-cases :
      (P : W → Type 0) (s t : C) (req : SyncRequest) (d : Diff) (saved : String ⊎ String) (w : W)
      → P w
      → P (apply_backed_up calls s t req d saved w).1
        ⊎ ((path : String) × (saved ≡ inr path)
            × ((apply_backed_up calls s t req d saved w).1
                ≡ (apply_plan (calls.target_of t) d (prunes calls req) w).1)
            × ((o : SyncOutput) × (err : Bool) × ((apply_backed_up calls s t req d saved w).0
                  ≡ answered o err)
                × (o.snapshot_path ≡ path)))
  backed_up-cases P s t req d (inl e) w p = inl p
  backed_up-cases P s t req d (inr path) w p = inr (path, refl, refl, (_, _, refl, refl))

  -- Unless the request turns the backup off: what reads and backups leave as it is stays, or, right
  -- after the comparison, a backup of the instance that the request names as its target was saved,
  -- only then that instance was written, and the answer names the path of that backup.
  pub written_only_with_backup :
      (P : W → Type 0) (r : Registry C) (req : SyncRequest) (w : W)
      → or_else true req.snapshot ≡ true
      → ReadsKeep calls P
      → BackupKeeps calls P
      → P w
      → P (instance_sync calls r req w).1 ⊎ BackedUp r req w
  unfolding apply_confirmed
  written_only_with_backup P r req w on k b p = elim (untouched_or_Confirmed calls P r req w k p) [
    | inl kept ↦ inl kept
    | inr (s, t, cats, d, ep, ec, e, mode, bears, ahead, some_left, runs) ↦
        let v = (compare_instances calls s t cats w).1 in
        let saved = export_snapshot calls.name calls.backup t v in
        elim (backed_up-cases P s t req d saved.0 saved.1
          (export_snapshot-keep calls P t v b (compare_instances-keep calls P s t cats w k p))) [
            | inl kept ↦ inl (rw runs (rw on kept))
            | inr (path, made, then_plan, (o, err, answer, names)) ↦ inr (
              s,
              t,
              cats,
              d,
              path,
              resolve_source_target-target r req.source req.target ep,
              ep,
              ec,
              e,
              (made, rw runs (rw on then_plan)),
              (o, err, rw runs (rw on answer), names),
            )
          ]
  ]
