-- ===== src/SyncTool/Handler.antt =====
-- internal/tools/sync.go: `instanceDiffHandler` and `instanceSyncHandler`, over the readers, the
-- application and the backup that they call. `C` is a client and `W` the world that the calls change.
use pihole_mcp.Prelude.{
  ◌⊎◌, inl, inr, ℕ, String, Bool, true, false, ◌&&◌, not, Option, none, some, List, [], ◌∷◌, map,
  ltb, ◌==◌, str_eq, if◌then◌else◌, length, or_else, Map,
}
use pihole_mcp.Registry.{Registry, get_client, default_client}
use pihole_mcp.Sync.{
  SyncCategory, Diff, ReadResult, entries, unread, DiffResult, computed, failed, with_category,
  category_diff, Item, totals_of, in_sync, prune_wipes,
}
use pihole_mcp.Sync.Apply.{Target, OpResult, ApplyResult, apply_plan}
use pihole_mcp.SyncTool.{
  PlanStep, CategoryCount, TokenText, Refusal, unknown_instance, no_default, same_instance,
  not_compared, prune_would_empty, no_token, stale_token, not_backed_up, SyncRequest, shown_plan,
  counts, token, parse_sync_categories, count_of,
}
use pihole_mcp.SyncTool.Backup.{BackupCalls, export_snapshot}

-- What the handlers call.
pub record Calls (C A F W : Type 0) : Type 0 where
  pub name : C → String
  pub read : C → SyncCategory → W → ReadResult × W
  pub target_of : C → Target W
  pub backup : BackupCalls C A F W
  pub text : TokenText

pub record SyncOutput : Type 0 where
  pub source : String
  pub target : String
  pub mode : String
  pub in_sync : Bool
  pub prune : Bool
  pub confirm_token : String
  pub plan : List PlanStep
  pub snapshot_path : String
  pub applied : ℕ
  pub failed : ℕ
  pub ops : List OpResult
  pub restarted : Bool
  pub restart_error : String

pub record DiffOutput : Type 0 where
  pub source : String
  pub target : String
  pub in_sync : Bool
  pub added : ℕ
  pub changed : ℕ
  pub removed : ℕ
  pub categories : List CategoryCount
  pub plan : List PlanStep

-- A result of a tool: an error, or an output with `IsError`.
pub data Answer (O : Type 0) : Type 0 where
  refused : Refusal → Answer O
  answered : O → Bool → Answer O

module _ {C A F W : Type 0} (calls : Calls C A F W) where
  abbrev pub two_instances : C → C → Refusal ⊎ (C × C)
  two_instances s t =
      if str_eq (calls.name s) (calls.name t)
      then inl (same_instance (calls.name t))
      else inr (s, t)

  abbrev pub with_source : Option C → Refusal → C → Refusal ⊎ (C × C)
  with_source none why t = inl why
  with_source (some s) why t = two_instances s t

  abbrev pub with_target : Registry C → String → Option C → String → Refusal ⊎ (C × C)
  with_target r source none target = inl (unknown_instance target)
  with_target r source (some t) target =
      if str_eq source ""
      then with_source (default_client r) no_default t
      else with_source (get_client r source) (unknown_instance source) t

  -- `resolveSourceTarget`
  unfoldable pub resolve_source_target :
      Registry C → Option String → Option String → Refusal ⊎ (C × C)
  resolve_source_target r source target =
      let t = or_else "" target in with_target r (or_else "" source) (get_client r t) t

  -- `ComputeDiff` with the calls of the readers in their order; `rest` is what follows.
  abbrev pub read_both :
      SyncCategory → Map Item → ReadResult → (W → DiffResult × W) → W → DiffResult × W
  read_both cat src (unread why) rest w = (failed cat why, w)
  read_both cat src (entries tgt) rest w =
      let (d, w') = rest w in (with_category (category_diff cat src tgt) d, w')

  abbrev pub read_target : C → SyncCategory → ReadResult → (W → DiffResult × W) → W → DiffResult × W
  read_target t cat (unread why) rest w = (failed cat why, w)
  read_target t cat (entries src) rest w =
      let (tgt, w') = calls.read t cat w in read_both cat src tgt rest w'

  unfoldable pub compare_instances : C → C → List SyncCategory → W → DiffResult × W
  compare_instances s t [] w =
      (computed (record { source = calls.name s; target = calls.name t; categories = [] }), w)
  compare_instances s t (cat ∷ cats) w =
      let (src, w') = calls.read s cat w in read_target t cat src (compare_instances s t cats) w'

  abbrev pub diff_output : C → C → Diff → DiffOutput
  diff_output s t d =
      let n = totals_of d.categories in
      record {
        source = calls.name s;
        target = calls.name t;
        in_sync = in_sync true d;
        added = n.added;
        changed = n.changed;
        removed = n.removed;
        categories = counts d;
        plan = shown_plan false d;
      }

  abbrev pub diff_compared : C → C → DiffResult → Answer DiffOutput
  diff_compared s t (failed cat why) = refused (not_compared cat why)
  diff_compared s t (computed d) = answered (diff_output s t d) false

  abbrev pub diff_of : Refusal ⊎ (C × C) → Refusal ⊎ List SyncCategory → W → Answer DiffOutput × W
  diff_of (inl why) cats w = (refused why, w)
  diff_of (inr (s, t)) (inl why) w = (refused why, w)
  diff_of (inr (s, t)) (inr cats) w =
      let (d, w') = compare_instances s t cats w in (diff_compared s t d, w')

  -- `instanceDiffHandler`
  unfoldable pub instance_diff : Registry C → SyncRequest → W → Answer DiffOutput × W
  instance_diff r req w =
      diff_of (resolve_source_target r req.source req.target) (parse_sync_categories req.categories)
        w

  abbrev pub mode_of : SyncRequest → String
  mode_of req = or_else "plan" req.mode

  abbrev pub prunes : SyncRequest → Bool
  prunes req = or_else false req.prune

  -- The output before anything is applied.
  abbrev pub plan_output : C → C → SyncRequest → Diff → SyncOutput
  plan_output s t req d = record {
    source = calls.name s;
    target = calls.name t;
    mode = mode_of req;
    in_sync = in_sync (prunes req) d;
    prune = prunes req;
    confirm_token = "";
    plan = shown_plan (prunes req) d;
    snapshot_path = "";
    applied = 0;
    failed = 0;
    ops = [];
    restarted = false;
    restart_error = "";
  }

  abbrev pub applied_output : SyncOutput → String → ApplyResult → SyncOutput
  applied_output o path res = record o {
    snapshot_path = path;
    applied = res.applied;
    failed = res.failed;
    ops = res.ops;
    restarted = res.restarted;
    restart_error = res.restart_error;
    in_sync = res.failed == 0;
  }

  -- What follows the backup, whose path is empty where none was asked for.
  abbrev pub apply_backed_up :
      C → C → SyncRequest → Diff → String ⊎ String → W → Answer SyncOutput × W
  apply_backed_up s t req d (inl e) w = (refused (not_backed_up e), w)
  apply_backed_up s t req d (inr path) w =
      let (res, w') = apply_plan (calls.target_of t) d (prunes req) w in
      (
        answered (applied_output (plan_output s t req d) path res)
            (ltb 0 res.failed && res.applied == 0),
        w',
      )

  abbrev pub back_up : C → Bool → W → (String ⊎ String) × W
  back_up t false w = (inr "", w)
  back_up t true w = export_snapshot calls.name calls.backup t w

  unfoldable pub apply_confirmed : C → C → SyncRequest → Diff → W → Answer SyncOutput × W
  apply_confirmed s t req d w =
      let (saved, w') = back_up t (or_else true req.snapshot) w in
      apply_backed_up s t req d saved w'

  -- mode=apply, by the token that was given and whether it is the current one.
  unfoldable pub apply_mode : C → C → SyncRequest → Diff → W → Answer SyncOutput × W
  unfolding apply_confirmed
  apply_mode s t req d w =
      let provided = or_else "" req.confirm_token in
      if str_eq provided ""
      then (refused no_token, w)
      else if not (str_eq provided (token calls.text (prunes req) d))
      then (refused stale_token, w)
      else if in_sync (prunes req) d
      then (answered (plan_output s t req d) false, w)
      else apply_confirmed s t req d w

  abbrev pub would_empty : SyncRequest → Diff → Bool
  would_empty req d = prunes req && ltb 0 (length (prune_wipes d))

  unfoldable pub sync_diff : C → C → SyncRequest → Diff → W → Answer SyncOutput × W
  unfolding apply_mode
  sync_diff s t req d w =
      if would_empty req d
      then (refused (prune_would_empty (map count_of (prune_wipes d))), w)
      else if not (str_eq (mode_of req) "apply")
      then (
        answered
            (record (plan_output s t req d) { confirm_token = token calls.text (prunes req) d })
            false,
        w,
      )
      else apply_mode s t req d w

  abbrev pub sync_compared : C → C → SyncRequest → DiffResult → W → Answer SyncOutput × W
  sync_compared s t req (failed cat why) w = (refused (not_compared cat why), w)
  sync_compared s t req (computed d) w = sync_diff s t req d w

  abbrev pub sync_of :
      SyncRequest → Refusal ⊎ (C × C) → Refusal ⊎ List SyncCategory → W → Answer SyncOutput × W
  sync_of req (inl why) cats w = (refused why, w)
  sync_of req (inr (s, t)) (inl why) w = (refused why, w)
  sync_of req (inr (s, t)) (inr cats) w =
      let (d, w') = compare_instances s t cats w in sync_compared s t req d w'

  -- `instanceSyncHandler`
  unfoldable pub instance_sync : Registry C → SyncRequest → W → Answer SyncOutput × W
  instance_sync r req w =
      sync_of req (resolve_source_target r req.source req.target)
        (parse_sync_categories req.categories) w
