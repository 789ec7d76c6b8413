-- ===== src/Sync/Apply/Counts.antt =====
-- internal/pihole/sync.go: the outcomes in the result of `ApplyPlan`.

use pihole_mcp.Prelude.{
  ℕ, ◌+◌, String, Bool, true, false, Option, none, some, List, [], ◌∷◌, ◌++◌, ◌≡◌, refl,
  if◌then◌else◌, length, keep, any, arith,
}
use pihole_mcp.Sync.{category_name, Action, PlannedOp, Diff, plan}
use pihole_mcp.Sync.Apply.{
  after_post, after_lost, patch_unless, Records, current, unreadable, Patched, saved, refused,
  uncertain, Target, OpResult, ApplyResult, no_result, record_op, record_all, record_restart,
  is_cname, after_patch, after_read, cnames_live, apply_cnames, apply_live, apply_from, apply_plan,
  restart_after_sync,
}

-- The planned operations that a test on category, action and item accepts, and the outcomes it
-- accepts.
unfoldable pub count_planned : (String → Action → String → Bool) → List PlannedOp → ℕ
count_planned p [] = 0
count_planned p (op ∷ ops) =
    (if p (category_name op.category) op.action op.label then 1 else 0) + count_planned p ops

unfoldable pub count_done : (String → Action → String → Bool) → List OpResult → ℕ
count_done p [] = 0
count_done p (o ∷ os) = (if p o.category o.action o.item then 1 else 0) + count_done p os

count_done-append :
    (p : String → Action → String → Bool) (xs ys : List OpResult)
    → count_done p (xs ++ ys) ≡ count_done p xs + count_done p ys
unfolding count_done
count_done-append p [] ys = omega arith
count_done-append p (x ∷ xs) ys = let ih = count_done-append p xs ys in omega arith

record_op-count :
    (p : String → Action → String → Bool) (op : PlannedOp) (err : Option String) (r : ApplyResult)
    → count_done p (record_op op err r).ops ≡ count_planned p (op ∷ []) + count_done p r.ops
unfolding count_done count_planned record_op
record_op-count p op none r =
    let e = count_done-append p r.ops (
      record {
        category = category_name op.category;
        action = op.action;
        item = op.label;
        error = "";
      }
      ∷ []) in
    omega arith
record_op-count p op (some t) r =
    let e = count_done-append p r.ops (
      record {
        category = category_name op.category;
        action = op.action;
        item = op.label;
        error = t;
      }
      ∷ []) in
    omega arith

-- What a step did: one outcome for each of `ops`, each counted as applied or failed.
unfoldable pub Gained : List PlannedOp → ApplyResult → ApplyResult → Type 0
Gained ops r r' =
    ((p : String → Action → String → Bool)
      → count_done p r'.ops ≡ count_planned p ops + count_done p r.ops)
    × (r'.applied + r'.failed ≡ length ops + (r.applied + r.failed))

record_op-Gained :
    (op : PlannedOp) (err : Option String) (r : ApplyResult)
    → Gained (op ∷ []) r (record_op op err r)
unfolding Gained record_op
record_op-Gained op none r = (λ p. record_op-count p op none r, omega arith)
record_op-Gained op (some e) r = (λ p. record_op-count p op (some e) r, omega arith)

count_planned-append :
    (p : String → Action → String → Bool) (xs ys : List PlannedOp)
    → count_planned p (xs ++ ys) ≡ count_planned p xs + count_planned p ys
unfolding count_planned
count_planned-append p [] ys = omega arith
count_planned-append p (x ∷ xs) ys = let ih = count_planned-append p xs ys in omega arith

length-append : (xs ys : List PlannedOp) → length (xs ++ ys) ≡ length xs + length ys
length-append [] ys = omega arith
length-append (x ∷ xs) ys = let ih = length-append xs ys in omega arith

Gained-none : (r : ApplyResult) → Gained [] r r
unfolding Gained count_planned
Gained-none r = (λ p. omega arith, omega arith)

Gained-step :
    (xs ys : List PlannedOp) (r s t : ApplyResult)
    → Gained xs r s
    → Gained ys s t
    → Gained (xs ++ ys) r t
unfolding Gained
Gained-step xs ys r s t (p1, n1) (p2, n2) = (counts, totals)
  where
    counts :
        (p : String → Action → String → Bool)
        → count_done p t.ops ≡ count_planned p (xs ++ ys) + count_done p r.ops
    counts p = let a = p1 p in let b = p2 p in let c = count_planned-append p xs ys in omega arith

    totals : t.applied + t.failed ≡ length (xs ++ ys) + (r.applied + r.failed)
    totals = let c = length-append xs ys in omega arith

record_all-Gained :
    (ops : List PlannedOp) (err : Option String) (r : ApplyResult)
    → Gained ops r (record_all ops err r)
unfolding record_all
record_all-Gained [] err r = Gained-none r
record_all-Gained (op ∷ ops) err r =
    Gained-step (op ∷ []) ops r (record_op op err r) (record_all ops err (record_op op err r))
      (record_op-Gained op err r) (record_all-Gained ops err (record_op op err r))

record_restart-Gained :
    (ops : List PlannedOp) (err : Option String) (r r' : ApplyResult)
    → Gained ops r r'
    → Gained ops r (record_restart err r')
unfolding Gained record_restart
record_restart-Gained ops none r r' g = g
record_restart-Gained ops (some e) r r' g = g

-- The operations that the loop gives outcomes to.
abbrev due : List PlannedOp → Bool → List PlannedOp → List PlannedOp
due cnames done [] = []
due cnames done (op ∷ ops) =
    let later = due cnames true ops in
    let other = due cnames done ops in
    if is_cname op then (if done then later else cnames ++ later) else op ∷ other

due-count :
    (p : String → Action → String → Bool) (cnames ops : List PlannedOp)
    → count_planned p (due cnames false ops)
        + (if any is_cname ops then 0 else count_planned p cnames)
      ≡ count_planned p cnames + count_planned p (due cnames true ops)
unfolding count_planned
due-count p cnames [] = omega arith
due-count p cnames (op ∷ ops) =
    let split = count_planned-append p cnames (due cnames true ops) in
    ground (arith, due-count p cnames ops)

due-split :
    (p : String → Action → String → Bool) (cnames ops : List PlannedOp)
    → count_planned p (keep is_cname ops) + count_planned p (due cnames true ops)
      ≡ count_planned p ops
unfolding count_planned
due-split p cnames [] = omega arith
due-split p cnames (op ∷ ops) = ground (arith, due-split p cnames ops)

keep-none :
    (p : String → Action → String → Bool) (ops : List PlannedOp)
    → any is_cname ops ≡ false
    → count_planned p (keep is_cname ops) ≡ 0
unfolding count_planned
keep-none p [] e = refl
keep-none p (op ∷ ops) e = ground (arith, keep-none p ops)

-- Every operation is due once.
due-all :
    (p : String → Action → String → Bool) (ops : List PlannedOp)
    → count_planned p (due (keep is_cname ops) false ops) ≡ count_planned p ops
due-all p ops =
    let c = due-count p (keep is_cname ops) ops in
    let s = due-split p (keep is_cname ops) ops in ground (arith, keep-none p ops)

length-count : (ops : List PlannedOp) → length ops ≡ count_planned (λ c a i. true) ops
unfolding count_planned
length-count [] = refl
length-count (op ∷ ops) = omega (arith, length-count ops)

module _ {W : Type 0} (target : Target W) where
  after_post-Gained :
      (ops : List PlannedOp) (sent : ℕ) (err : Option String) (r r' : ApplyResult) (w : W)
      → Gained ops r r'
      → Gained ops r (after_post target sent err r' w).0
  unfolding Gained
  after_post-Gained ops sent (some e) r r' w g = g
  after_post-Gained ops sent none r r' w g = record_restart-Gained ops _ r r' g

  after_lost-Gained :
      (ops : List PlannedOp) (waited : Option String) (r r' : ApplyResult) (w : W)
      → Gained ops r r'
      → Gained ops r (after_lost target waited r' w).0
  unfolding restart_after_sync
  after_lost-Gained ops none r r' w g = record_restart-Gained ops none r r' g
  after_lost-Gained ops (some _) r r' w g = after_post-Gained ops _ _ r r' _ g

  after_patch-Gained :
      (ops : List PlannedOp) (sent : ℕ) (x : Patched) (r : ApplyResult) (w : W)
      → Gained ops r (after_patch target ops sent x r w).0
  after_patch-Gained ops sent saved r w =
      record_restart-Gained ops _ r _ (record_all-Gained ops none r)
  after_patch-Gained ops sent (refused e) r w = record_all-Gained ops (some e) r
  after_patch-Gained ops sent (uncertain e) r w =
      after_lost-Gained ops _ r _ _ (record_all-Gained ops (some e) r)

  patch_unless-Gained :
      (same : Bool) (next : List String) (ops : List PlannedOp) (r : ApplyResult) (w : W)
      → Gained ops r (patch_unless target same next ops r w).0
  patch_unless-Gained true next ops r w = record_all-Gained ops none r
  patch_unless-Gained false next ops r w = after_patch-Gained ops _ _ r _

  after_read-Gained :
      (ops : List PlannedOp) (x : Records) (r : ApplyResult) (w : W)
      → Gained ops r (after_read target ops x r w).0
  after_read-Gained ops (unreadable e) r w = record_all-Gained ops _ r
  after_read-Gained ops (current recs) r w = patch_unless-Gained _ _ ops r w

  cnames_live-Gained :
      (err : Option String) (ops : List PlannedOp) (r : ApplyResult) (w : W)
      → Gained ops r (cnames_live target err ops r w).0
  cnames_live-Gained (some e) ops r w = record_all-Gained ops (some e) r
  cnames_live-Gained none ops r w = after_read-Gained ops _ r _

  apply_live-Gained :
      (err : Option String) (op : PlannedOp) (r : ApplyResult) (w : W)
      → Gained (op ∷ []) r (apply_live target err op r w).0
  apply_live-Gained (some e) op r w = record_op-Gained op (some e) r
  apply_live-Gained none op r w = record_op-Gained op _ r

  op-Gained :
      (cnames : List PlannedOp) (op : PlannedOp) (ops : List PlannedOp) (b done : Bool)
      (r : ApplyResult) (w : W)
      → ((d : Bool) (r : ApplyResult) (w : W)
          → Gained (due cnames d ops) r (apply_from target cnames d ops r w).0)
      → is_cname op ≡ b
      → Gained (due cnames done (op ∷ ops)) r (apply_from target cnames done (op ∷ ops) r w).0
  unfolding apply_cnames apply_from
  op-Gained cnames op ops true true r w ih e = rw (e, apply_from) (ih true r w)
  op-Gained cnames op ops true false r w ih e =
      rw (e, apply_from)
        (Gained-step cnames (due cnames true ops) r _ _
          (cnames_live-Gained (target.ctx_error w) cnames r w) (ih true _ _))
  op-Gained cnames op ops false done r w ih e =
      rw (e, apply_from)
        (Gained-step (op ∷ []) (due cnames done ops) r _ _
          (apply_live-Gained (target.ctx_error w) op r w) (ih done _ _))

  apply_from-Gained :
      (cnames ops : List PlannedOp) (done : Bool) (r : ApplyResult) (w : W)
      → Gained (due cnames done ops) r (apply_from target cnames done ops r w).0
  unfolding apply_from
  apply_from-Gained cnames [] done r w = Gained-none r
  apply_from-Gained cnames (op ∷ ops) done r w =
      op-Gained cnames op ops (is_cname op) done r w (λ d r w. apply_from-Gained cnames ops d r w)
        refl

  -- Whatever the target answers, `ApplyPlan` gives every planned operation exactly one outcome: each
  -- test on category, action and item accepts as many outcomes as planned operations, and the
  -- counts of applied and of failed operations add up to the length of the plan.
  pub every_op_recorded :
      (d : Diff) (prune : Bool) (w : W)
      → ((p : String → Action → String → Bool)
          → count_done p (apply_plan target d prune w).0.ops ≡ count_planned p (plan prune d))
        × ((apply_plan target d prune w).0.applied + (apply_plan target d prune w).0.failed
            ≡ length (plan prune d))
  unfolding apply_plan Gained count_done
  every_op_recorded d prune w =
      let ops = plan prune d in
      let (counts, total) = apply_from-Gained (keep is_cname ops) ops false no_result w in
      (
        λ p. (let c = counts p in let e = due-all p ops in omega arith),
        (let e = due-all (λ c a i. true) ops in
            let m = length-count ops in
            let n = length-count (due (keep is_cname ops) false ops) in omega arith),
      )
