-- ===== src/SyncTool/Kept.antt =====
-- internal/tools/sync.go: what the reads of a comparison and the calls of a backup leave as it is.
use pihole_mcp.Prelude.{◌⊎◌, inl, inr, String, Option, none, some, List, [], ◌∷◌}
use pihole_mcp.Sync.{SyncCategory, ReadResult, entries, unread, DiffResult}
use pihole_mcp.SyncTool.Backup.{export_snapshot, save_stream, write_file, finish_file}
use pihole_mcp.SyncTool.Handler.{Calls, compare_instances, read_target, read_both}

module _ {C A F W : Type 0} (calls : Calls C A F W) where
  -- What the reads leave as it is.
  abbrev pub ReadsKeep : (W → Type 0) → Type 0
  ReadsKeep P = (c : C) (cat : SyncCategory) (w : W) → P w → P (calls.read c cat w).1

  -- What the calls of a backup leave as it is.
  abbrev pub BackupKeeps : (W → Type 0) → Type 0
  BackupKeeps P =
      ((w : W) → P w → P (calls.backup.reap_stale w))
      × ((c : C) (w : W) → P w → P (calls.backup.open_stream c w).1)
      × ((a : A) (w : W) → P w → P (calls.backup.close_stream a w))
      × ((name : String) (w : W) → P w → P (calls.backup.create_file name w).1)
      × ((f : F) (a : A) (w : W) → P w → P (calls.backup.copy f a w).1)
      × ((f : F) (w : W) → P w → P (calls.backup.close_file f w).1)
      × ((f : F) (w : W) → P w → P (calls.backup.remove f w))

  module _ (P : W → Type 0) where
    read_both-keep :
        (cat : SyncCategory) (src : _) (res : ReadResult) (rest : W → DiffResult × W) (w : W)
        → ((v : W) → P v → P (rest v).1)
        → P w
        → P (read_both calls cat src res rest w).1
    read_both-keep cat src (unread why) rest w k p = p
    read_both-keep cat src (entries tgt) rest w k p = k w p

    read_target-keep :
        (t : C) (cat : SyncCategory) (res : ReadResult) (rest : W → DiffResult × W) (w : W)
        → ReadsKeep P
        → ((v : W) → P v → P (rest v).1)
        → P w
        → P (read_target calls t cat res rest w).1
    read_target-keep t cat (unread why) rest w r k p = p
    read_target-keep t cat (entries src) rest w r k p =
        read_both-keep cat src (calls.read t cat w).0 rest (calls.read t cat w).1 k (r t cat w p)

    pub compare_instances-keep :
        (s t : C) (cats : List SyncCategory) (w : W)
        → ReadsKeep P
        → P w
        → P (compare_instances calls s t cats w).1
    unfolding compare_instances
    compare_instances-keep s t [] w r p = p
    compare_instances-keep s t (cat ∷ cats) w r p =
        read_target-keep t cat (calls.read s cat w).0 (compare_instances calls s t cats)
          (calls.read s cat w).1 r (λ v q. compare_instances-keep s t cats v r q) (r s cat w p)

    finish_file-keep :
        (f : F) (copied closed : Option String) (w : W)
        → ((v : W) → P v → P (calls.backup.remove f v))
        → P w
        → P (finish_file calls.name calls.backup f copied closed w).1
    finish_file-keep f none none w r p = p
    finish_file-keep f none (some e) w r p = r w p
    finish_file-keep f (some e) closed w r p = r w p

    write_file-keep :
        (a : A) (made : String ⊎ F) (w : W)
        → BackupKeeps P
        → P w
        → P (write_file calls.name calls.backup a made w).1
    write_file-keep a (inl e) w k p = p
    write_file-keep a (inr f) w (reap, opens, closes, creates, copies, closes_file, removes) p =
        finish_file-keep f _ _ _ (λ v. removes f v) (closes_file f _ (copies f a w p))

    save_stream-keep :
        (c : C) (opened : String ⊎ A) (w : W)
        → BackupKeeps P
        → P w
        → P (save_stream calls.name calls.backup c opened w).1
    save_stream-keep c (inl e) w k p = p
    save_stream-keep c (inr a) w (reap, opens, closes, creates, copies, closes_file, removes) p =
        closes a _ (
          write_file-keep a _ _ (reap, opens, closes, creates, copies, closes_file, removes)
            (creates _ w p))

    pub export_snapshot-keep :
        (c : C) (w : W) → BackupKeeps P → P w → P (export_snapshot calls.name calls.backup c w).1
    unfolding export_snapshot
    export_snapshot-keep c w (reap, opens, closes, creates, copies, closes_file, removes) p =
        save_stream-keep c _ _ (reap, opens, closes, creates, copies, closes_file, removes)
          (opens c _ (reap w p))
