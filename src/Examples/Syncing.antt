-- ===== src/Examples/Syncing.antt =====
-- The sync of internal/pihole/sync.go from a Pi-hole with one group to one with none.
use pihole_mcp.Prelude.{
  ℕ, ◌+◌, ◌≡◌, ◌≢◌, refl, ◌↔◌, inl, inr, String, Bool, true, false, ◌&&◌, ◌||◌, not, none, some, [],
  ◌∷◌, map, contains, length, IsDistinct, lookup, insert,
}
use pihole_mcp.Sync.{
  CategoryDiff, SyncCategory, groups, Item, Diff, ReadResult, entries, unread, no_list,
  compute_diff, computed, category_diff, collect, sorted_keys, sort_keys, pick_added, pick_changed,
  in_sync, plan, Action,
}
use pihole_mcp.Sync.InSync.{AllMatch, in_sync_iff}
use pihole_mcp.Sync.Convergence.{settings_of, write_all, delete_all, synced, diff_converges}
use pihole_mcp.Sync.Order.{IsSorted, turn, plan-IsSorted}
use pihole_mcp.Sync.Cnames.{cname_next, cname_next_exact}
use pihole_mcp.Sync.Readers.{Escaping, group_item, listed, read_items}
use pihole_mcp.Sync.Readers.Laws.{IsKeyed, read_items-IsKeyed, unread_stops}
use pihole_mcp.Sync.Apply.{Target, saved, current, apply_plan}
use pihole_mcp.Sync.Apply.Counts.{count_done, count_planned, every_op_recorded}

abbrev plain : Escaping
plain = record { path_escape = λ s. s; query_escape = λ s. s }

abbrev kids : Item
kids = group_item plain (record { name = "Kids"; comment = ""; enabled = true })

abbrev with_kids : SyncCategory → ReadResult
with_kids c = entries (("group|Kids", kids) ∷ [])

abbrev with_none : SyncCategory → ReadResult
with_none c = entries []

abbrev unread_lists : SyncCategory → ReadResult
unread_lists c = unread (no_list "/lists" "lists")

abbrev kids_added : Diff
kids_added = record {
  source = "a";
  target = "b";
  categories =
      record { category = groups; source_count = 1; added = kids ∷ []; changed = []; removed = [] }
      ∷ [];
}

diff_computed : compute_diff "a" "b" with_kids with_none (groups ∷ []) ≡ computed kids_added
unfolding compute_diff category_diff collect sorted_keys sort_keys pick_added pick_changed lookup
diff_computed = refl

in_sync_iff_example :
    (in_sync true kids_added ≡ true) ↔ AllMatch true with_kids with_none (groups ∷ [])
in_sync_iff_example =
    in_sync_iff true "a" "b" with_kids with_none (groups ∷ []) kids_added diff_computed

plan-IsSorted_example : IsSorted (map turn (plan true kids_added))
plan-IsSorted_example = plan-IsSorted true kids_added

cname_next_exact_example :
    ((k : String)
      → contains (cname_next ("a,b" ∷ "c,d" ∷ []) ("a,b" ∷ []) ("a,e" ∷ [])) k ≡ (
          (contains ("a,b" ∷ "c,d" ∷ []) k && not (contains ("a,b" ∷ []) k))
          || contains ("a,e" ∷ []) k))
    × IsDistinct (cname_next ("a,b" ∷ "c,d" ∷ []) ("a,b" ∷ []) ("a,e" ∷ []))
cname_next_exact_example = cname_next_exact ("a,b" ∷ "c,d" ∷ []) ("a,b" ∷ []) ("a,e" ∷ [])

unread_stops_example :
    compute_diff "a" "b" with_kids unread_lists (groups ∷ []) ≢ computed kids_added
unread_stops_example =
    unread_stops "a" "b" with_kids unread_lists groups (groups ∷ []) kids_added (inl refl) (inr tt)

read_once :
    read_items
      (group_item plain)
      (listed (record { name = "Kids"; comment = ""; enabled = true } ∷ []))
    ≡ entries (("group|Kids", kids) ∷ [])
unfolding read_items insert group_item
read_once = refl

-- A target that refuses every write.
abbrev refusing : Target ℕ
refusing = record {
  ctx_error = λ w. none;
  lock = λ k w. w;
  unlock = λ k w. w;
  write = λ x w. (some "refused", w + 1);
  read_cnames = λ w. (current [], w);
  patch_cnames = λ next w. (saved, w);
  clock = λ w. (w, w);
  await_restart = λ sent w. (none, w);
  post_restart = λ w. (none, w);
}

every_op_recorded_example :
    ((p : String → Action → String → Bool)
      → count_done p (apply_plan refusing kids_added true 0).0.ops
        ≡ count_planned p (plan true kids_added))
    × ((apply_plan refusing kids_added true 0).0.applied
          + (apply_plan refusing kids_added true 0).0.failed
        ≡ length (plan true kids_added))
every_op_recorded_example = every_op_recorded refusing kids_added true 0

abbrev old : Item
old = group_item plain (record { name = "Old"; comment = "unused"; enabled = false })

read_old :
    read_items
      (group_item plain)
      (listed (record { name = "Old"; comment = "unused"; enabled = false } ∷ []))
    ≡ entries (("group|Old", old) ∷ [])
unfolding read_items insert group_item
read_old = refl

old-IsKeyed : IsKeyed (("group|Old", old) ∷ [])
old-IsKeyed =
    read_items-IsKeyed (group_item plain)
      (listed (record { name = "Old"; comment = "unused"; enabled = false } ∷ []))
      (("group|Old", old) ∷ []) read_old

kids-IsKeyed : IsKeyed (("group|Kids", kids) ∷ [])
kids-IsKeyed =
    read_items-IsKeyed (group_item plain)
      (listed (record { name = "Kids"; comment = ""; enabled = true } ∷ []))
      (("group|Kids", kids) ∷ []) read_once

abbrev kids_and_old : CategoryDiff
kids_and_old = category_diff groups (("group|Kids", kids) ∷ []) (("group|Old", old) ∷ [])

diff_converges_example :
    delete_all kids_and_old.removed
      (write_all kids_and_old.changed
        (write_all kids_and_old.added (settings_of (("group|Old", old) ∷ []))))
      "group|Kids"
    ≡ synced
        (lookup "group|Kids" (("group|Kids", kids) ∷ []))
        (lookup "group|Kids" (("group|Old", old) ∷ []))
diff_converges_example =
    diff_converges groups (("group|Kids", kids) ∷ []) (("group|Old", old) ∷ []) "group|Kids"
      kids-IsKeyed old-IsKeyed
