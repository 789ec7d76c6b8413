-- ===== src/Examples/Locking.antt =====
-- Two goroutines and one key of internal/pihole/locks.go: the first takes the lock and gives it back.
use pihole_mcp.Prelude.{◌≤◌, ◌≡◌, refl, true, false, none, [], ◌∷◌, String, lookup}
use pihole_mcp.Locks.{
  KeyedMutex, enter, set_locked, leave, outside, holding, no_locks, enters, acquires, releases,
  leaves, Reaches, start, next,
}
use pihole_mcp.Locks.Safety.{holders}
use pihole_mcp.Locks.Exclusion.{all_outside, one_holder, nothing_left}

abbrev kids : String
kids = "entry /groups/Kids"

abbrev referred : KeyedMutex
referred = (enter kids no_locks).1

abbrev taken : KeyedMutex
taken = set_locked true (enter kids no_locks).0 referred

free : (referred.heap (enter kids no_locks).0).locked ≡ false
unfolding enter lookup
free = refl

first_holds : Reaches (all_outside 2) taken (holding kids (enter kids no_locks).0 ∷ outside ∷ [])
first_holds =
    next (next start (enters no_locks [] (outside ∷ []) kids))
      (acquires referred [] (outside ∷ []) kids (enter kids no_locks).0 free)

one_holder_example : holders kids (holding kids (enter kids no_locks).0 ∷ outside ∷ []) ≤ 1
one_holder_example =
    one_holder 2 taken (holding kids (enter kids no_locks).0 ∷ outside ∷ []) kids first_holds

abbrev released : KeyedMutex
released = set_locked false (enter kids no_locks).0 taken

abbrev dropped : KeyedMutex
dropped = leave kids (enter kids no_locks).0 released

back_out : Reaches (all_outside 2) dropped (all_outside 2)
back_out =
    next (next first_holds (releases taken [] (outside ∷ []) kids (enter kids no_locks).0))
      (leaves released [] (outside ∷ []) kids (enter kids no_locks).0)

nothing_left_example : lookup kids dropped.held ≡ none
nothing_left_example = nothing_left 2 2 dropped kids back_out
