-- ===== src/Locks/Left.antt =====
-- internal/pihole/locks.go: the critical section of the unlock, against the invariant.
use pihole_mcp.Prelude.{
  ℕ, ◌-◌, ◌≤◌, ◌<◌, String, ◌≡◌, refl, sym, ap, subst, ◌∙◌, Bool, true, false, some, List, ◌∷◌,
  ◌++◌, arith, ◌==◌, str_eq, str-eq_iff, if◌then◌else◌, Bool-cases, inl, inr, Map, lookup, delete,
  lookup-delete, All,
}
use pihole_mcp.Locks.{KeyedLock, KeyedMutex, put, leave, Place, outside, leaving}
use pihole_mcp.Locks.Safety.{
  uses, holds, total, IsMapped, IsSafe, total-at, All-IsMapped, All-here, All-at, same_lock,
  as_number,
}
use pihole_mcp.Locks.Relocked.{put-refs, put-locked_same}

module _ (k : KeyedMutex) (b a : List Place) (key : String) (i : ℕ)
    (h : IsSafe k (b ++ leaving key i ∷ a)) where
  left_here : lookup key k.held ≡ some i
  left_here = All-here (IsMapped k.held) b a (leaving key i) h.mapped

  left_below : i < k.fresh
  left_below = (h.used key i left_here).1

  abbrev lessened : KeyedLock
  lessened = record (k.heap i) { refs = (k.heap i).refs - 1 }

  abbrev left_dropped : Bool → Map ℕ
  left_dropped last = if last then delete key k.held else k.held

  left_without : All (IsMapped k.held) (b ++ outside ∷ a)
  left_without = All-at (IsMapped k.held) b a (leaving key i) outside h.mapped (λ m. tt)

  left_counted : (j : ℕ) → total (uses j) (b ++ outside ∷ a) ≡ (put i lessened k.heap j).refs
  left_counted j = elim (Bool-cases (j == i)) [
    | inl s ↦
        let same : (k.heap j).refs ≡ (k.heap i).refs = ap (λ x. (k.heap x).refs) (ground arith) in
        ground (
          arith,
          put-refs i j lessened k.heap,
          total-at (uses j) b a outside,
          total-at (uses j) b a (leaving key i),
          h.counted j,
        )
    | inr s ↦ ground (
      arith,
      put-refs i j lessened k.heap,
      total-at (uses j) b a outside,
      total-at (uses j) b a (leaving key i),
      h.counted j,
    )
  ]

  left_exclusive :
      (j : ℕ) → total (holds j) (b ++ outside ∷ a) ≡ as_number (put i lessened k.heap j).locked
  unfolding as_number
  left_exclusive j =
      let same : total (holds j) (b ++ outside ∷ a) ≡ total (holds j) (b ++ leaving key i ∷ a) =
        omega (arith, total-at (holds j) b a outside, total-at (holds j) b a (leaving key i)) in
      same ∙ h.exclusive j ∙ ap as_number (sym (put-locked_same i j lessened k.heap refl))

  left_found :
      (last : Bool) (key' : String) (j : ℕ)
      → lookup key' (left_dropped last) ≡ some j
      → lookup key' k.held ≡ some j
  left_found true key' j m = ground (arith, lookup-delete key key' k.held)
  left_found false key' j m = m

  left_other : (key' : String) (j : ℕ) → lookup key' (delete key k.held) ≡ some j → (j == i) ≡ false
  left_other key' j m = elim (Bool-cases (j == i)) [
    | inl s ↦
        let at_i : lookup key' k.held ≡ some i =
          left_found true key' j m ∙ ap some (let same : j ≡ i = ground arith in same) in
        let same_key = h.distinct key key' i left_here at_i in
        ground (arith, lookup-delete key key' k.held, str-eq_iff key key')
    | inr s ↦ s
  ]

  left_kept :
      (last : Bool)
      → ((k.heap i).refs - 1 == 0) ≡ last
      → (key' : String) (j : ℕ) → 1 ≤ total (uses j) (b ++ outside ∷ a)
      → lookup key' k.held ≡ some j
      → lookup key' (left_dropped last) ≡ some j
  left_kept false z key' j n m = m
  left_kept true z key' j n m = elim (Bool-cases (str_eq key key')) [
    | inl s ↦
        let same_key : key ≡ key' = (str-eq_iff key key').0 s in
        let same : j ≡ i = same_lock key key' k.held i j (sym same_key) left_here m in
        let used_here : 1 ≤ total (uses i) (b ++ outside ∷ a) =
          subst (λ x. 1 ≤ total (uses x) (b ++ outside ∷ a)) same n in
        ground (arith, left_counted i, put-refs i i lessened k.heap)
    | inr s ↦ ground (arith, lookup-delete key key' k.held)
  ]

  left_refs_left :
      (last : Bool)
      → ((k.heap i).refs - 1 == 0) ≡ last
      → (key' : String) (j : ℕ) → lookup key' (left_dropped last) ≡ some j
      → 1 ≤ (put i lessened k.heap j).refs
  left_refs_left true z key' j m = ground (
    arith,
    put-refs i j lessened k.heap,
    left_other key' j m,
    (h.used key' j (left_found true key' j m)).0,
  )
  left_refs_left false z key' j m =
      ground (arith, put-refs i j lessened k.heap, (h.used key' j m).0)

  -- The end of an unlock; `last` says whether it drops the last reference.
  left :
      (last : Bool)
      → ((k.heap i).refs - 1 == 0) ≡ last
      → IsSafe
          (record k {
            held = if last then delete key k.held else k.held;
            heap = put i (record (k.heap i) { refs = (k.heap i).refs - 1 }) k.heap;
          })
          (b ++ outside ∷ a)
  unfolding as_number
  left last z = record {
    counted = left_counted;
    exclusive = left_exclusive;
    mapped =
        All-IsMapped k.held (left_dropped last) (b ++ outside ∷ a) (left_kept last z) left_without;
    used =
        λ key' j m. (left_refs_left last z key' j m, (h.used key' j (left_found last key' j m)).1);
    distinct = λ key1 key2 j m n.
        h.distinct key1 key2 j (left_found last key1 j m) (left_found last key2 j n);
    unallocated = λ j n.
        let old = h.unallocated j n in
        (
          ground (arith, put-refs i j lessened k.heap, old.0, left_below),
          put-locked_same i j lessened k.heap refl ∙ old.1,
        );
  }

pub left-IsSafe :
    (k : KeyedMutex) (b a : List Place) (key : String) (i : ℕ)
    → IsSafe k (b ++ leaving key i ∷ a)
    → IsSafe (leave key i k) (b ++ outside ∷ a)
unfolding leave
left-IsSafe k b a key i h = left k b a key i h ((k.heap i).refs - 1 == 0) refl
