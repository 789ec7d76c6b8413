-- ===== src/Sync/Apply.antt =====
-- internal/pihole/sync.go: `ApplyPlan`, `runLocked`, `applyCNAMEs` and the restart after it. The
-- target and the context act on a world `W`: a write answers nil or an error text, `ctx_error` is
-- `ctx.Err()`. The locks of locks.go are taken and released in `W`.
pub mod Counts
use Prim.Native.String
use pihole_mcp.Prelude.{
  ℕ, suc, ◌+◌, String, Bool, true, false, not, ◌&&◌, Option, none, some, List, [], ◌∷◌, ◌++◌, map,
  str_eq, if◌then◌else◌, length, keep,
}
use pihole_mcp.Sync.{
  SyncCategory, local_dns, cname, same_category, category_name, Write, WriteFunc, Action, PlannedOp,
  Diff, plan,
}
use pihole_mcp.Sync.Cnames.{cname_next}

pub data Patched : Type 0 where
  saved : Patched
  refused : String → Patched
  -- the reply was lost: an `*UncertainError`
  uncertain : String → Patched

pub data Records : Type 0 where
  current : List String → Records
  unreadable : String → Records

pub record Target (W : Type 0) : Type 0 where
  pub ctx_error : W → Option String
  pub lock : String → W → W
  pub unlock : String → W → W
  pub write : Write → W → Option String × W
  -- `readDNSValues` of dns.cnameRecords
  pub read_cnames : W → Records × W
  -- the PATCH of the whole setting
  pub patch_cnames : List String → W → Patched × W
  pub clock : W → ℕ × W
  pub await_restart : ℕ → W → Option String × W
  pub post_restart : W → Option String × W

pub record OpResult : Type 0 where
  pub category : String
  pub action : Action
  pub item : String
  pub error : String

pub record ApplyResult : Type 0 where
  pub applied : ℕ
  pub failed : ℕ
  pub ops : List OpResult
  pub restarted : Bool
  pub restart_error : String

abbrev pub no_result : ApplyResult
no_result = record { applied = 0; failed = 0; ops = []; restarted = false; restart_error = "" }

-- One outcome in the result: a failure with its text, or an application.
unfoldable pub record_op : PlannedOp → Option String → ApplyResult → ApplyResult
record_op op none r = record r {
  applied = r.applied + 1;
  ops =
      r.ops
      ++ record {
        category = category_name op.category;
        action = op.action;
        item = op.label;
        error = "";
      }
        ∷ [];
}
record_op op (some e) r = record r {
  failed = r.failed + 1;
  ops =
      r.ops
      ++ record {
        category = category_name op.category;
        action = op.action;
        item = op.label;
        error = e;
      }
        ∷ [];
}

-- `record` of `applyCNAMEs`: the same outcome for every operation.
unfoldable pub record_all : List PlannedOp → Option String → ApplyResult → ApplyResult
record_all [] err r = r
record_all (op ∷ ops) err r = record_all ops err (record_op op err r)

unfoldable pub record_restart : Option String → ApplyResult → ApplyResult
record_restart (some e) r = record r { restart_error = e }
record_restart none r = record r { restarted = true }

-- The lock of `categorySettings`, under the key that `LockSettings` makes of the setting's name.
abbrev pub setting_lock : SyncCategory → Option String
setting_lock local_dns = some "setting dns.hosts"
setting_lock cname = some "setting dns.cnamerecords"
setting_lock _ = none

-- The lock that `runLocked` holds: the setting of a DNS array, else the entry, if there is one.
abbrev pub lock_key : Option String → String → Option String
lock_key (some key) entry = some key
lock_key none entry = if str_eq entry "" then none else some (String.◌++◌ "entry " entry)

abbrev pub is_delete : Action → Bool
is_delete Action.delete = true
is_delete _ = false

abbrev pub is_add : Action → Bool
is_add Action.add = true
is_add _ = false

abbrev pub labels : (Action → Bool) → List PlannedOp → List String
labels p [] = []
labels p (op ∷ ops) = let rest = labels p ops in if p op.action then op.label ∷ rest else rest

-- `slices.Equal`
abbrev pub same_texts : List String → List String → Bool
same_texts [] [] = true
same_texts (x ∷ xs) (y ∷ ys) = str_eq x y && same_texts xs ys
same_texts _ _ = false

abbrev pub is_cname : PlannedOp → Bool
is_cname op = same_category op.category cname

module _ {W : Type 0} (target : Target W) where
  -- An operation with no function to run is a nil call in the source; the readers make none.
  abbrev pub run_op : Option WriteFunc → W → Option String × W
  run_op none w = (some "nil write", w)
  run_op (some run) w = target.write (run false) w

  abbrev pub with_lock : Option String → (W → Option String × W) → W → Option String × W
  with_lock none run w = run w
  with_lock (some key) run w =
      let (err, w') = run (target.lock key w) in (err, target.unlock key w')

  unfoldable pub run_locked : PlannedOp → W → Option String × W
  run_locked op w = with_lock (lock_key (setting_lock op.category) op.entry) (run_op op.run) w

  -- What follows the restart request that was sent at `sent`.
  abbrev pub after_post : ℕ → Option String → ApplyResult → W → ApplyResult × W
  after_post sent (some e) r w = (
    record r {
      restart_error =
          String.◌++◌
            "Pi-hole saved the CNAME changes but they take effect only after FTL restarts, and the request to restart it failed: "
            e;
    },
    w,
  )
  after_post sent none r w =
      let (waited, w') = target.await_restart sent w in (record_restart waited r, w')

  unfoldable pub restart_after_sync : ApplyResult → W → ApplyResult × W
  restart_after_sync r w =
      let (sent, w1) = target.clock w in
      let (err, w2) = target.post_restart w1 in after_post sent err r w2

  -- The lost reply of the PATCH: what the wait for a restart found.
  abbrev pub after_lost : Option String → ApplyResult → W → ApplyResult × W
  after_lost none r w = (record_restart none r, w)
  after_lost (some _) r w = restart_after_sync r w

  -- What follows the PATCH that was sent at `sent`.
  abbrev pub after_patch : List PlannedOp → ℕ → Patched → ApplyResult → W → ApplyResult × W
  after_patch ops sent saved r w =
      let (waited, w') = target.await_restart sent w in
      (record_restart waited (record_all ops none r), w')
  after_patch ops sent (refused e) r w = (record_all ops (some e) r, w)
  after_patch ops sent (uncertain e) r w =
      let (waited, w') = target.await_restart sent w in
      after_lost waited (record_all ops (some e) r) w'

  -- The write of `next`, unless it changes nothing.
  abbrev pub patch_unless : Bool → List String → List PlannedOp → ApplyResult → W → ApplyResult × W
  patch_unless true next ops r w = (record_all ops none r, w)
  patch_unless false next ops r w =
      let (sent, w1) = target.clock w in
      let (patched, w2) = target.patch_cnames next w1 in after_patch ops sent patched r w2

  abbrev pub after_read : List PlannedOp → Records → ApplyResult → W → ApplyResult × W
  after_read ops (unreadable e) r w =
      (record_all ops (some (String.◌++◌ "read the current CNAME records: " e)) r, w)
  after_read ops (current recs) r w =
      let next = cname_next recs (labels is_delete ops) (labels is_add ops) in
      patch_unless (same_texts next recs) next ops r w

  abbrev pub cnames_live : Option String → List PlannedOp → ApplyResult → W → ApplyResult × W
  cnames_live (some e) ops r w = (record_all ops (some e) r, w)
  cnames_live none ops r w =
      let (recs, w1) = target.read_cnames (target.lock "setting dns.cnamerecords" w) in
      let (r', w2) = after_read ops recs r w1 in (r', target.unlock "setting dns.cnamerecords" w2)

  unfoldable pub apply_cnames : List PlannedOp → ApplyResult → W → ApplyResult × W
  apply_cnames ops r w = cnames_live (target.ctx_error w) ops r w

  abbrev pub apply_live : Option String → PlannedOp → ApplyResult → W → ApplyResult × W
  apply_live (some e) op r w = (record_op op (some e) r, w)
  apply_live none op r w = let (err, w') = run_locked op w in (record_op op err r, w')

  -- One operation of the loop; the Booleans are its category's test and `cnamesDone`.
  abbrev pub apply_op :
      List PlannedOp → Bool → Bool → PlannedOp → ApplyResult → W → Bool × ApplyResult × W
  apply_op cnames true true op r w = (true, r, w)
  apply_op cnames true false op r w = let (r', w') = apply_cnames cnames r w in (true, r', w')
  apply_op cnames false done op r w =
      let (r', w') = apply_live (target.ctx_error w) op r w in (done, r', w')

  -- The loop of `ApplyPlan`; `done` is `cnamesDone`.
  unfoldable pub apply_from :
      List PlannedOp → Bool → List PlannedOp → ApplyResult → W → ApplyResult × W
  apply_from cnames done [] r w = (r, w)
  apply_from cnames done (op ∷ ops) r w =
      let (done', r', w') = apply_op cnames (is_cname op) done op r w in
      apply_from cnames done' ops r' w'

  unfoldable pub apply_plan : Diff → Bool → W → ApplyResult × W
  apply_plan d prune w =
      let ops = plan prune d in apply_from (keep is_cname ops) false ops no_result w
