-- ===== src/Locks/Entered.antt =====
-- internal/pihole/locks.go: the first critical section of `lock`, against the invariant.
use pihole_mcp.Prelude.{
  ℕ, ◌+◌, ◌≤◌, ◌<◌, String, ◌≡◌, refl, sym, ap, ◌∙◌, false, Option, none, some, List, ◌∷◌, ◌++◌,
  arith, ◌==◌, str_eq, str-eq_iff, Bool-cases, inl, inr, Map, lookup, insert, lookup-insert, ◌⊎◌,
}
use pihole_mcp.Locks.{KeyedLock, KeyedMutex, put, ref_lock, enter, Place, outside, waiting}
use pihole_mcp.Locks.Safety.{
  uses, holds, total, IsMapped, IsSafe, total-at, All-IsMapped, All-at, as_number,
}
use pihole_mcp.Locks.Relocked.{put-refs, put-locked, put-locked_same}

-- Another goroutine on a key that has an object.
entered_old :
    (k : KeyedMutex) (b a : List Place) (key : String) (i : ℕ)
    → lookup key k.held ≡ some i
    → IsSafe k (b ++ outside ∷ a)
    → IsSafe (ref_lock (some i) key k).1 (b ++ waiting key i ∷ a)
unfolding as_number
entered_old k b a key i e h = record {
  counted = counted;
  exclusive = exclusive;
  mapped = All-at (IsMapped k.held) b a outside (waiting key i) h.mapped (λ u. e);
  used =
      λ key' j m. (ground (arith, put-refs i j l k.heap, (h.used key' j m).0), (h.used key' j m).1);
  distinct = h.distinct;
  unallocated = unallocated;
}
  where
    l : KeyedLock
    l = record (k.heap i) { refs = (k.heap i).refs + 1 }

    counted : (j : ℕ) → total (uses j) (b ++ waiting key i ∷ a) ≡ (put i l k.heap j).refs
    counted j = elim (Bool-cases (j == i)) [
      | inl s ↦
          let same : (k.heap j).refs ≡ (k.heap i).refs = ap (λ x. (k.heap x).refs) (ground arith) in
          ground (
            arith,
            put-refs i j l k.heap,
            total-at (uses j) b a outside,
            total-at (uses j) b a (waiting key i),
            h.counted j,
          )
      | inr s ↦ ground (
        arith,
        put-refs i j l k.heap,
        total-at (uses j) b a outside,
        total-at (uses j) b a (waiting key i),
        h.counted j,
      )
    ]

    exclusive :
        (j : ℕ) → total (holds j) (b ++ waiting key i ∷ a) ≡ as_number (put i l k.heap j).locked
    exclusive j =
        let same : total (holds j) (b ++ waiting key i ∷ a) ≡ total (holds j) (b ++ outside ∷ a) =
          omega (arith, total-at (holds j) b a outside, total-at (holds j) b a (waiting key i)) in
        same ∙ h.exclusive j ∙ ap as_number (sym (put-locked_same i j l k.heap refl))

    unallocated :
        (j : ℕ) → k.fresh ≤ j → ((put i l k.heap j).refs ≡ 0) × ((put i l k.heap j).locked ≡ false)
    unallocated j n =
        let below : i < k.fresh = (h.used key i e).1 in
        (
          ground (arith, put-refs i j l k.heap, (h.unallocated j n).0),
          put-locked_same i j l k.heap refl ∙ (h.unallocated j n).1,
        )

module _ (k : KeyedMutex) (b a : List Place) (key : String) (e : lookup key k.held ≡ none)
    (h : IsSafe k (b ++ outside ∷ a)) where
  abbrev made : KeyedLock
  made = record { locked = false; refs = 1 }

  abbrev new_held : Map ℕ
  new_held = insert key k.fresh k.held

  new_kept : (key' : String) (j : ℕ) → lookup key' k.held ≡ some j → lookup key' new_held ≡ some j
  new_kept key' j m = elim (Bool-cases (str_eq key key')) [
    | inl s ↦ let same : key ≡ key' = (str-eq_iff key key').0 s in cc
    | inr s ↦ ground (arith, lookup-insert key key' k.fresh k.held)
  ]

  new_found :
      (key' : String) (j : ℕ)
      → lookup key' new_held ≡ some j
      → ((key ≡ key') × (j ≡ k.fresh)) ⊎ (lookup key' k.held ≡ some j)
  new_found key' j m = elim (Bool-cases (str_eq key key')) [
    | inl s ↦ inl ((str-eq_iff key key').0 s, ground (arith, lookup-insert key key' k.fresh k.held))
    | inr s ↦ inr (ground (arith, lookup-insert key key' k.fresh k.held))
  ]

  new_counted :
      (j : ℕ) → total (uses j) (b ++ waiting key k.fresh ∷ a) ≡ (put k.fresh made k.heap j).refs
  new_counted j = elim (Bool-cases (j == k.fresh)) [
    | inl s ↦
        let none_yet = (h.unallocated j (ground arith)).0 in
        ground (
          arith,
          put-refs k.fresh j made k.heap,
          total-at (uses j) b a outside,
          total-at (uses j) b a (waiting key k.fresh),
          h.counted j,
        )
    | inr s ↦ ground (
      arith,
      put-refs k.fresh j made k.heap,
      total-at (uses j) b a outside,
      total-at (uses j) b a (waiting key k.fresh),
      h.counted j,
    )
  ]

  new_exclusive :
      (j : ℕ)
      → total (holds j) (b ++ waiting key k.fresh ∷ a)
        ≡ as_number (put k.fresh made k.heap j).locked
  unfolding as_number
  new_exclusive j =
      let same : total (holds j) (b ++ waiting key k.fresh ∷ a)
          ≡ total (holds j) (b ++ outside ∷ a) =
        omega
          (arith, total-at (holds j) b a outside, total-at (holds j) b a (waiting key k.fresh)) in
      let unlocked = (h.unallocated k.fresh (omega arith)).1 in
      same
      ∙ h.exclusive j
      ∙ ap as_number (sym (put-locked_same k.fresh j made k.heap (sym unlocked)))

  new_used :
      (key' : String) (j : ℕ)
      → lookup key' new_held ≡ some j
      → (1 ≤ (put k.fresh made k.heap j).refs) × (j < k.fresh + 1)
  new_used key' j m = elim (new_found key' j m) [
    | inl (s, t) ↦ (ground (arith, put-refs k.fresh j made k.heap), omega arith)
    | inr o ↦
        let old = h.used key' j o in
        (ground (arith, put-refs k.fresh j made k.heap, old.0, old.1), omega (arith, old.1))
  ]

  new_distinct :
      (key1 key2 : String) (j : ℕ)
      → lookup key1 new_held ≡ some j
      → lookup key2 new_held ≡ some j
      → key1 ≡ key2
  new_distinct key1 key2 j m n = elim (new_found key1 j m) [
    | inl (s, t) ↦ elim (new_found key2 j n) [
      | inl (s', t') ↦ sym s ∙ s'
      | inr o ↦ ground (arith, (h.used key2 j o).1)
    ]
    | inr o ↦ elim (new_found key2 j n) [
      | inl (s', t') ↦ ground (arith, (h.used key1 j o).1)
      | inr o' ↦ h.distinct key1 key2 j o o'
    ]
  ]

  -- A goroutine on a key that has none: the object is made.
  entered_new : IsSafe (ref_lock none key k).1 (b ++ waiting key k.fresh ∷ a)
  unfolding as_number
  entered_new = record {
    counted = new_counted;
    exclusive = new_exclusive;
    mapped =
        All-at (IsMapped new_held) b a outside (waiting key k.fresh)
          (All-IsMapped k.held new_held (b ++ outside ∷ a) (λ key' j n m. new_kept key' j m)
            h.mapped)
          (λ u. lookup-insert key key k.fresh k.held ∙ ground (arith, str-eq_iff key key));
    used = new_used;
    distinct = new_distinct;
    unallocated = λ j n.
        let old = h.unallocated j (omega arith) in
        (
          ground (arith, put-refs k.fresh j made k.heap, old.0),
          ground (arith, put-locked k.fresh j made k.heap, old.1),
        );
  }

pub entered :
    (k : KeyedMutex) (b a : List Place) (key : String)
    → IsSafe k (b ++ outside ∷ a)
    → IsSafe (enter key k).1 (b ++ waiting key (enter key k).0 ∷ a)
unfolding enter
entered k b a key h = go (lookup key k.held) refl
  where
    go :
        (o : Option ℕ)
        → lookup key k.held ≡ o
        → IsSafe (ref_lock o key k).1 (b ++ waiting key (ref_lock o key k).0 ∷ a)
    go none e = entered_new k b a key e h
    go (some i) e = entered_old k b a key i e h
