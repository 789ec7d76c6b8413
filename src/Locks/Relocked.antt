-- ===== src/Locks/Relocked.antt =====
-- internal/pihole/locks.go: locking and unlocking a lock object, against the invariant.
use pihole_mcp.Prelude.{
  ℕ, ◌<◌, String, ◌≡◌, refl, sym, ap, ◌∙◌, Bool, true, false, some, List, ◌∷◌, ◌++◌, arith, ◌==◌,
  if◌then◌else◌, Bool-cases, inl, inr, lookup,
}
use pihole_mcp.Locks.{KeyedLock, KeyedMutex, put, set_locked, Place, waiting, holding, leaving}
use pihole_mcp.Locks.Safety.{
  uses, holds, total, IsMapped, IsSafe, total-at, All-here, All-at, as_number, as_number-le,
}

pub put-refs :
    (i j : ℕ) (l : KeyedLock) (heap : ℕ → KeyedLock)
    → (put i l heap j).refs ≡ (if j == i then l.refs else (heap j).refs)
put-refs i j l heap = elim (Bool-cases (j == i)) [ inl e ↦ rw e refl | inr e ↦ rw e refl ]

pub put-locked :
    (i j : ℕ) (l : KeyedLock) (heap : ℕ → KeyedLock)
    → (put i l heap j).locked ≡ (if j == i then l.locked else (heap j).locked)
put-locked i j l heap = elim (Bool-cases (j == i)) [ inl e ↦ rw e refl | inr e ↦ rw e refl ]

if_same : (i j : ℕ) (f : ℕ → ℕ) → (if j == i then f i else f j) ≡ f j
if_same i j f = elim (Bool-cases (j == i)) [
  | inl e ↦ rw e (let same : j ≡ i = ground arith in ap f (sym same))
  | inr e ↦ rw e refl
]

relocked-refs :
    (b : Bool) (i j : ℕ) (k : KeyedMutex) → ((set_locked b i k).heap j).refs ≡ (k.heap j).refs
unfolding set_locked
relocked-refs b i j k =
    put-refs i j (record (k.heap i) { locked = b }) k.heap ∙ if_same i j (λ x. (k.heap x).refs)

relocked-locked :
    (b : Bool) (i j : ℕ) (k : KeyedMutex)
    → ((set_locked b i k).heap j).locked ≡ (if j == i then b else (k.heap j).locked)
unfolding set_locked
relocked-locked b i j k = put-locked i j (record (k.heap i) { locked = b }) k.heap

-- Locking or unlocking keeps what does not depend on who holds what.
relock-IsSafe :
    (v : Bool) (k : KeyedMutex) (b a : List Place) (p q : Place) (i : ℕ)
    → ((j : ℕ) → uses j p ≡ uses j q)
    → (IsMapped k.held p → IsMapped k.held q)
    → ((j : ℕ) → total (holds j) (b ++ q ∷ a) ≡ as_number (if j == i then v else (k.heap j).locked))
    → i < k.fresh
    → IsSafe k (b ++ p ∷ a)
    → IsSafe (set_locked v i k) (b ++ q ∷ a)
unfolding set_locked
relock-IsSafe v k b a p q i same mapped held fresh h = record {
  counted = λ j. omega (
    arith,
    total-at (uses j) b a p,
    total-at (uses j) b a q,
    same j,
    h.counted j,
    relocked-refs v i j k,
  );
  exclusive = λ j. held j ∙ ap as_number (sym (relocked-locked v i j k));
  mapped = All-at (IsMapped k.held) b a p q h.mapped mapped;
  used = λ key j e. (omega (arith, relocked-refs v i j k, (h.used key j e).0), (h.used key j e).1);
  distinct = h.distinct;
  unallocated = λ j n. (
    omega (arith, relocked-refs v i j k, (h.unallocated j n).0),
    relocked-locked v i j k ∙ ground (arith, (h.unallocated j n).1),
  );
}

held_after :
    (v : Bool) (k : KeyedMutex) (b a : List Place) (p q : Place) (i : ℕ)
    → ((j : ℕ) → (j == i) ≡ false → holds j p ≡ holds j q)
    → total (holds i) (b ++ q ∷ a) ≡ as_number v
    → IsSafe k (b ++ p ∷ a)
    → (j : ℕ) → total (holds j) (b ++ q ∷ a) ≡ as_number (if j == i then v else (k.heap j).locked)
held_after v k b a p q i other here h j = elim (Bool-cases (j == i)) [
  | inl e ↦
      let same : j ≡ i = ground arith in rw e (ap (λ x. total (holds x) (b ++ q ∷ a)) same ∙ here)
  | inr e ↦
      let this = other j e in
      rw e (omega (arith, total-at (holds j) b a p, total-at (holds j) b a q, h.exclusive j))
]

pub acquires-IsSafe :
    (k : KeyedMutex) (b a : List Place) (key : String) (i : ℕ)
    → (k.heap i).locked ≡ false
    → IsSafe k (b ++ waiting key i ∷ a)
    → IsSafe (set_locked true i k) (b ++ holding key i ∷ a)
unfolding as_number
acquires-IsSafe k b a key i free h =
    let here : lookup key k.held ≡ some i =
      All-here (IsMapped k.held) b a (waiting key i) h.mapped in
    let none_holds : total (holds i) (b ++ waiting key i ∷ a) ≡ 0 =
      h.exclusive i ∙ ap as_number free in
    let one_holds : total (holds i) (b ++ holding key i ∷ a) ≡ 1 =
      ground
        (arith, total-at (holds i) b a (waiting key i), total-at (holds i) b a (holding key i)) in
    relock-IsSafe true k b a (waiting key i) (holding key i) i (λ j. refl) (λ m. m)
      (held_after true k b a (waiting key i) (holding key i) i (λ j e. ground arith) one_holds h)
      (h.used key i here).1 h

pub releases-IsSafe :
    (k : KeyedMutex) (b a : List Place) (key : String) (i : ℕ)
    → IsSafe k (b ++ holding key i ∷ a)
    → IsSafe (set_locked false i k) (b ++ leaving key i ∷ a)
unfolding as_number
releases-IsSafe k b a key i h =
    let here : lookup key k.held ≡ some i =
      All-here (IsMapped k.held) b a (holding key i) h.mapped in
    let none_holds : total (holds i) (b ++ leaving key i ∷ a) ≡ 0 = ground (
      arith,
      total-at (holds i) b a (holding key i),
      total-at (holds i) b a (leaving key i),
      h.exclusive i,
      as_number-le (k.heap i).locked,
    ) in
    relock-IsSafe false k b a (holding key i) (leaving key i) i (λ j. refl) (λ m. m)
      (held_after false k b a (holding key i) (leaving key i) i (λ j e. ground arith) none_holds h)
      (h.used key i here).1 h

pub put-locked_same :
    (i j : ℕ) (l : KeyedLock) (heap : ℕ → KeyedLock)
    → l.locked ≡ (heap i).locked
    → (put i l heap j).locked ≡ (heap j).locked
put-locked_same i j l heap e = elim (Bool-cases (j == i)) [
  | inl s ↦ rw s (e ∙ ap (λ x. (heap x).locked) (let same : i ≡ j = ground arith in same))
  | inr s ↦ rw s refl
]
