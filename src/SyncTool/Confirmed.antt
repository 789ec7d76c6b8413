-- ===== src/SyncTool/Confirmed.antt =====
-- internal/tools/sync.go: when `instanceSyncHandler` does more than read.
use pihole_mcp.Prelude.{
  ◌≡◌, refl, ◌⊎◌, inl, inr, false, List, str_eq, str-eq_iff, Bool-cases, or_else,
}
use pihole_mcp.Registry.{Registry}
use pihole_mcp.Sync.{SyncCategory, Diff, ReadError, DiffResult, computed, failed, in_sync}
use pihole_mcp.SyncTool.{Refusal, SyncRequest, token, parse_sync_categories}
use pihole_mcp.SyncTool.Handler.{
  Calls, resolve_source_target, compare_instances, mode_of, prunes, would_empty, apply_confirmed,
  apply_mode, sync_diff, sync_of, instance_sync,
}
use pihole_mcp.SyncTool.Kept.{ReadsKeep, compare_instances-keep}

diff_result-cases :
    (x : DiffResult)
    → ((d : Diff) × (x ≡ computed d))
      ⊎ ((c : SyncCategory) × (why : ReadError) × (x ≡ failed c why))
diff_result-cases (computed d) = inl (d, refl)
diff_result-cases (failed c why) = inr (c, why, refl)

module _ {C A F W : Type 0} (calls : Calls C A F W) where
  -- A request that goes through: the application of the plan whose token it bears, on the world that
  -- the comparison left.
  abbrev pub Confirmed : Registry C → SyncRequest → W → Type 0
  Confirmed r req w =
      (s : C) × (t : C) × (cats : List SyncCategory) × (d : Diff) × (resolve_source_target calls r
          req.source req.target
        ≡ inr (s, t))
      × (parse_sync_categories req.categories ≡ inr cats)
      × ((compare_instances calls s t cats w).0 ≡ computed d)
      × (mode_of calls req ≡ "apply")
      × (or_else "" req.confirm_token ≡ token calls.text (prunes calls req) d)
      × (in_sync (prunes calls req) d ≡ false)
      × (would_empty calls req d ≡ false)
      × (instance_sync calls r req w
          ≡ apply_confirmed calls s t req d (compare_instances calls s t cats w).1)

  -- Past the guards of a computed diff, the world is as it was or the request goes through.
  sync_diff-cases :
      (s t : C) (req : SyncRequest) (d : Diff) (w : W)
      → ((sync_diff calls s t req d w).1 ≡ w)
        ⊎ ((mode_of calls req ≡ "apply")
            × (or_else "" req.confirm_token ≡ token calls.text (prunes calls req) d)
            × (in_sync (prunes calls req) d ≡ false)
            × (would_empty calls req d ≡ false)
            × (sync_diff calls s t req d w ≡ apply_confirmed calls s t req d w))
  unfolding sync_diff apply_mode
  sync_diff-cases s t req d w = elim (Bool-cases (would_empty calls req d)) [
    | inl e ↦ inl (rw e refl)
    | inr e ↦ elim (Bool-cases (str_eq (mode_of calls req) "apply")) [
      | inr m ↦ inl (rw (e, m) refl)
      | inl m ↦ elim (Bool-cases (str_eq (or_else "" req.confirm_token) "")) [
        | inl g ↦ inl (rw (e, m, g) refl)
        | inr g ↦
            elim (Bool-cases
              (str_eq (or_else "" req.confirm_token) (token calls.text (prunes calls req) d))) [
                | inr k ↦ inl (rw (e, m, g, k) refl)
                | inl k ↦ elim (Bool-cases (in_sync (prunes calls req) d)) [
                  | inl i ↦ inl (rw (e, m, g, k, i) refl)
                  | inr i ↦ inr (
                    (str-eq_iff (mode_of calls req) "apply").0 m,
                    (str-eq_iff (or_else "" req.confirm_token)
                          (token calls.text (prunes calls req) d)).0
                        k,
                    i,
                    e,
                    rw (e, m, g, k, i) refl,
                  )
                ]
              ]
      ]
    ]
  ]

  sync_of-cases :
      (P : W → Type 0) (r : Registry C) (req : SyncRequest) (w : W)
      → (pair : Refusal ⊎ (C × C)) → (cats : Refusal ⊎ List SyncCategory)
      → resolve_source_target calls r req.source req.target ≡ pair
      → parse_sync_categories req.categories ≡ cats
      → ReadsKeep calls P
      → P w
      → P (sync_of calls req pair cats w).1 ⊎ Confirmed r req w
  unfolding instance_sync
  sync_of-cases P r req w (inl why) cats ep ec k p = inl p
  sync_of-cases P r req w (inr (s, t)) (inl why) ep ec k p = inl p
  sync_of-cases P r req w (inr (s, t)) (inr cats) ep ec k p =
      let kept = compare_instances-keep calls P s t cats w k p in
      elim (diff_result-cases (compare_instances calls s t cats w).0) [
        | inr (c, why, e) ↦ inl (rw e kept)
        | inl (d, e) ↦ elim (sync_diff-cases s t req d (compare_instances calls s t cats w).1) [
          | inl same ↦ inl (rw e (rw same kept))
          | inr (mode, bears, ahead, kept_some, runs) ↦
              inr (s, t, cats, d, ep, ec, e, mode, bears, ahead, kept_some, rw (ep, ec, e) runs)
        ]
      ]

  -- Whatever the reads leave as it is, a request leaves as it is, unless its mode is apply, it bears
  -- the token of the diff just read, that diff has something to do, and pruning would empty no
  -- category; then the handler runs the application of that diff and nothing else.
  pub untouched_or_Confirmed :
      (P : W → Type 0) (r : Registry C) (req : SyncRequest) (w : W)
      → ReadsKeep calls P
      → P w
      → P (instance_sync calls r req w).1 ⊎ Confirmed r req w
  unfolding instance_sync
  untouched_or_Confirmed P r req w k p =
      sync_of-cases P r req w (resolve_source_target calls r req.source req.target)
        (parse_sync_categories req.categories) refl refl k p
