-- ===== src/SyncTool/Steady.antt =====
-- internal/tools/sync.go: `instanceDiffHandler` on two Pi-holes whose configuration stays as it is.
use pihole_mcp.Prelude.{◌≡◌, ◌≢◌, refl, sym, ap, ◌↔◌, inr, Bool, true, false, List, [], ◌∷◌}
use pihole_mcp.Registry.{Registry}
use pihole_mcp.Sync.{
  SyncCategory, ReadResult, entries, unread, DiffResult, computed, failed, compute_diff,
  add_category, in_sync,
}
use pihole_mcp.Sync.InSync.{AllMatch, in_sync_iff}
use pihole_mcp.SyncTool.{Refusal, SyncRequest, parse_sync_categories}
use pihole_mcp.SyncTool.Handler.{
  Calls, DiffOutput, Answer, refused, answered, diff_compared, resolve_source_target,
  compare_instances, read_target, read_both, instance_diff,
}

abbrev in_sync_of : Answer DiffOutput → Bool
in_sync_of (refused why) = false
in_sync_of (answered o err) = o.in_sync

abbrev answer_refused : {O : Type 0} → Answer O → Bool
answer_refused (refused why) = true
answer_refused (answered o err) = false

refused-ne-answered :
    {O : Type 0} {why : Refusal} {o : O} {err : Bool} → refused why ≢ answered o err
refused-ne-answered e = let flags = ap answer_refused e in cc

module _ {C A F W : Type 0} (calls : Calls C A F W) (read : C → SyncCategory → ReadResult) where
  -- Whatever happens between the reads, they answer the same.
  abbrev pub IsSteady : Type 0
  IsSteady = (c : C) (cat : SyncCategory) (w : W) → (calls.read c cat w).0 ≡ read c cat

  read_both-steady :
      (cat : SyncCategory) (src : _) (tgt : ReadResult) (rest : W → DiffResult × W) (d : DiffResult)
      (w : W)
      → ((v : W) → (rest v).0 ≡ d)
      → (read_both calls cat src tgt rest w).0 ≡ add_category cat (entries src) tgt d
  read_both-steady cat src (unread why) rest d w h = refl
  read_both-steady cat src (entries tgt) rest d w h = rw (h w) refl

  read_target-steady :
      (t : C) (cat : SyncCategory) (src : ReadResult) (rest : W → DiffResult × W) (d : DiffResult)
      (w : W)
      → IsSteady
      → ((v : W) → (rest v).0 ≡ d)
      → (read_target calls t cat src rest w).0 ≡ add_category cat src (read t cat) d
  read_target-steady t cat (unread why) rest d w s h = refl
  read_target-steady t cat (entries src) rest d w s h =
      rw (read_both-steady cat src (calls.read t cat w).0 rest d (calls.read t cat w).1 h)
        (rw (s t cat w) refl)

  -- The handlers' comparison, read by read, computes the diff of what the two Pi-holes hold.
  compare_instances-compute_diff :
      (s t : C) (cats : List SyncCategory) (w : W)
      → IsSteady
      → (compare_instances calls s t cats w).0
        ≡ compute_diff (calls.name s) (calls.name t) (read s) (read t) cats
  unfolding compare_instances compute_diff
  compare_instances-compute_diff s t [] w h = refl
  compare_instances-compute_diff s t (cat ∷ cats) w h =
      rw
        (read_target-steady t cat (calls.read s cat w).0 (compare_instances calls s t cats)
          (compute_diff (calls.name s) (calls.name t) (read s) (read t) cats) (calls.read s cat w).1
          h (λ v. compare_instances-compute_diff s t cats v h))
        (rw (h s cat w) refl)

  verdict-compared :
      (s t : C) (cats : List SyncCategory) (x : DiffResult) (o : DiffOutput) (err : Bool)
      → compute_diff (calls.name s) (calls.name t) (read s) (read t) cats ≡ x
      → diff_compared calls s t x ≡ answered o err
      → (o.in_sync ≡ true) ↔ AllMatch true (read s) (read t) cats
  verdict-compared s t cats (failed cat why) o err e a = absurd (refused-ne-answered a)
  verdict-compared s t cats (computed d) o err e a =
      let same : o.in_sync ≡ in_sync true d = ap in_sync_of (sym a) in
      rw same (in_sync_iff true (calls.name s) (calls.name t) (read s) (read t) cats d e)

  -- On two Pi-holes whose configuration stays as it is, what pihole_instance_diff answers says in_sync
  -- exactly when in every compared category the target has the source's entries with the same
  -- settings and no other.
  pub diff_tool_verdict :
      (r : Registry C) (req : SyncRequest) (w : W) (s t : C) (cats : List SyncCategory)
      (o : DiffOutput) (err : Bool)
      → IsSteady
      → resolve_source_target calls r req.source req.target ≡ inr (s, t)
      → parse_sync_categories req.categories ≡ inr cats
      → (instance_diff calls r req w).0 ≡ answered o err
      → (o.in_sync ≡ true) ↔ AllMatch true (read s) (read t) cats
  unfolding instance_diff
  diff_tool_verdict r req w s t cats o err h ep ec a =
      verdict-compared s t cats (compute_diff (calls.name s) (calls.name t) (read s) (read t) cats)
        o err refl (rw (sym (compare_instances-compute_diff s t cats w h)) (rw (ep, ec) at a))
