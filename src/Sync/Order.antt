-- ===== src/Sync/Order.antt =====
-- The order of a plan of internal/pihole/sync.go.
use mathlib.Core.List.{reverse, map-append, append-nil}
use pihole_mcp.Prelude.{
  ℕ, ◌-◌, ◌≤◌, ◌≡◌, refl, Bool, true, false, Option, none, some, List, [], ◌∷◌, ◌++◌, map, arith,
  All, All-append,
}
use pihole_mcp.Sync.{
  SyncCategory, groups, lists, domains, clients, local_dns, cname, apply_order, Item, CategoryDiff,
  Diff, Action, PlannedOp, by_cat, add_op, update_op, delete_op, write_ops, delete_ops, writes_in,
  deletes_in, plan,
}

-- The place of a category in `applyOrder`.
abbrev pub rank : SyncCategory → ℕ
rank groups = 0
rank lists = 1
rank domains = 2
rank clients = 3
rank local_dns = 4
rank cname = 5

-- When an operation has its turn: adds and updates by category, then deletes by category backwards.
abbrev pub turn_of : Action → SyncCategory → ℕ
turn_of Action.add cat = rank cat
turn_of Action.update cat = rank cat
turn_of Action.delete cat = 11 - rank cat

abbrev pub turn : PlannedOp → ℕ
turn op = turn_of op.action op.category

abbrev pub IsSorted : List ℕ → Type 0
IsSorted [] = Unit
IsSorted (n ∷ ns) = All (λ m. n ≤ m) ns × IsSorted ns

-- A run of turns between two bounds, in order.
record IsWithin (lo hi : ℕ) (ns : List ℕ) : Type 0 where
  sorted : IsSorted ns
  above : All (λ n. lo ≤ n) ns
  below : All (λ n. n ≤ hi) ns

All-weaken_lo : (lo lo' : ℕ) (ns : List ℕ) → lo ≤ lo' → All (λ n. lo' ≤ n) ns → All (λ n. lo ≤ n) ns
All-weaken_lo lo lo' [] h _ = tt
All-weaken_lo lo lo' (n ∷ ns) h (p, ps) = (omega arith, All-weaken_lo lo lo' ns h ps)

All-weaken_hi : (hi hi' : ℕ) (ns : List ℕ) → hi' ≤ hi → All (λ n. n ≤ hi') ns → All (λ n. n ≤ hi) ns
All-weaken_hi hi hi' [] h _ = tt
All-weaken_hi hi hi' (n ∷ ns) h (p, ps) = (omega arith, All-weaken_hi hi hi' ns h ps)

IsSorted-append :
    (mid : ℕ) (ms ns : List ℕ)
    → IsSorted ms
    → All (λ n. n ≤ mid) ms
    → IsSorted ns
    → All (λ n. mid ≤ n) ns
    → IsSorted (ms ++ ns)
IsSorted-append mid [] ns a b c d = c
IsSorted-append mid (m ∷ ms) ns (a, as') (b, bs) c d = (
  All-append (λ n. m ≤ n) ms ns a (All-weaken_lo m mid ns b d),
  IsSorted-append mid ms ns as' bs c d,
)

IsWithin-append :
    (lo mid hi : ℕ) (ms ns : List ℕ)
    → lo ≤ mid
    → mid ≤ hi
    → IsWithin lo mid ms
    → IsWithin mid hi ns
    → IsWithin lo hi (ms ++ ns)
IsWithin-append lo mid hi ms ns h k m n = record {
  sorted = IsSorted-append mid ms ns m.sorted m.below n.sorted n.above;
  above = All-append (λ x. lo ≤ x) ms ns m.above (All-weaken_lo lo mid ns h n.above);
  below = All-append (λ x. x ≤ hi) ms ns (All-weaken_hi hi mid ms k m.below) n.below;
}

IsWithin-nil : (lo hi : ℕ) → IsWithin lo hi []
IsWithin-nil lo hi = record { sorted = tt; above = tt; below = tt }

-- The turns of one category's writes, or deletes, are all the same.
turns-map :
    (f : Item → PlannedOp) (t : ℕ) (items : List Item)
    → ((it : Item) → turn (f it) ≡ t)
    → IsWithin t t (map turn (map f items))
turns-map f t [] h = IsWithin-nil t t
turns-map f t (it ∷ items) h =
    let r = turns-map f t items h in
    record {
      sorted = (rw (h it) r.above, r.sorted);
      above = (omega (arith, h it), r.above);
      below = (omega (arith, h it), r.below);
    }

turns-write_ops :
    (cat : SyncCategory) (o : Option CategoryDiff)
    → IsWithin (rank cat) (rank cat) (map turn (write_ops cat o))
turns-write_ops cat none = IsWithin-nil _ _
turns-write_ops cat (some cd) = rw map-append (
    IsWithin-append (rank cat) (rank cat) (rank cat) (map turn (map (add_op cat) cd.added))
      (map turn (map (update_op cat) cd.changed)) (omega arith) (omega arith)
      (turns-map (add_op cat) (rank cat) cd.added (λ it. refl))
      (turns-map (update_op cat) (rank cat) cd.changed (λ it. refl)))

turns-delete_ops :
    (cat : SyncCategory) (o : Option CategoryDiff)
    → IsWithin (11 - rank cat) (11 - rank cat) (map turn (delete_ops cat o))
turns-delete_ops cat none = IsWithin-nil _ _
turns-delete_ops cat (some cd) = turns-map (delete_op cat) (11 - rank cat) cd.removed (λ it. refl)

-- A list of categories in the order that `at` gives them, from `lo` on, below `hi`.
abbrev Ascends : (SyncCategory → ℕ) → ℕ → ℕ → List SyncCategory → Type 0
Ascends at lo hi [] = lo ≤ hi
Ascends at lo hi (cat ∷ cats) = (lo ≤ at cat) × (at cat ≤ hi) × Ascends at (at cat) hi cats

IsWithin-from : (lo lo' hi : ℕ) (ns : List ℕ) → lo ≤ lo' → IsWithin lo' hi ns → IsWithin lo hi ns
IsWithin-from lo lo' hi ns h r = record {
  sorted = r.sorted;
  above = All-weaken_lo lo lo' ns h r.above;
  below = r.below;
}

turns-writes_in :
    (cats : List SyncCategory) (d : Diff) (lo hi : ℕ)
    → Ascends rank lo hi cats
    → IsWithin lo hi (map turn (writes_in cats d))
unfolding writes_in
turns-writes_in [] d lo hi h = IsWithin-nil lo hi
turns-writes_in (cat ∷ cats) d lo hi (a, b, c) = rw map-append (
    IsWithin-append lo (rank cat) hi _ _ a b
      (IsWithin-from lo (rank cat) (rank cat) _ a (turns-write_ops cat (by_cat cat d.categories)))
      (turns-writes_in cats d (rank cat) hi c))

abbrev reversed_rank : SyncCategory → ℕ
reversed_rank cat = 11 - rank cat

turns-deletes_in :
    (cats : List SyncCategory) (d : Diff) (lo hi : ℕ)
    → Ascends reversed_rank lo hi cats
    → IsWithin lo hi (map turn (deletes_in cats d))
unfolding deletes_in
turns-deletes_in [] d lo hi h = IsWithin-nil lo hi
turns-deletes_in (cat ∷ cats) d lo hi (a, b, c) = rw map-append (
    IsWithin-append lo (reversed_rank cat) hi _ _ a b
      (IsWithin-from lo (reversed_rank cat) (reversed_rank cat) _ a
        (turns-delete_ops cat (by_cat cat d.categories)))
      (turns-deletes_in cats d (reversed_rank cat) hi c))

-- Every plan creates and updates groups first and CNAME records last, and only then deletes,
-- CNAME records first and groups last.
pub plan-IsSorted : (prune : Bool) (d : Diff) → IsSorted (map turn (plan prune d))
unfolding plan
plan-IsSorted true d =
    rw map-append
      (IsWithin-append 0 5 11 _ _ (omega arith) (omega arith)
        (turns-writes_in apply_order d 0 5 (omega arith))
        (IsWithin-from 5 6 11 _ (omega arith)
          (turns-deletes_in (reverse apply_order) d 6 11 (omega arith)))).sorted
plan-IsSorted false d = rw append-nil (turns-writes_in apply_order d 0 5 (omega arith)).sorted
