-- ===== src/Locks/Exclusion.antt =====
-- internal/pihole/locks.go: who holds a key, and which lock objects there are, over all runs.
use pihole_mcp.Prelude.{
  ℕ, zero, suc, ◌≤◌, String, ◌≡◌, refl, Option, none, some, List, [], ◌∷◌, arith, lookup, All,
}
use pihole_mcp.Locks.{
  KeyedMutex, Place, outside, no_locks, Step, enters, acquires, releases, leaves, Reaches, start,
  next,
}
use pihole_mcp.Locks.Safety.{
  uses, holds, total, holders, IsMapped, IsSafe, holders-le_one, as_number,
}
use pihole_mcp.Locks.Relocked.{acquires-IsSafe, releases-IsSafe}
use pihole_mcp.Locks.Entered.{entered}
use pihole_mcp.Locks.Left.{left-IsSafe}

Step-IsSafe :
    {k k' : KeyedMutex} {ps ps' : List Place} → Step k ps k' ps' → IsSafe k ps → IsSafe k' ps'
Step-IsSafe (enters k b a key) h = entered k b a key h
Step-IsSafe (acquires k b a key i free) h = acquires-IsSafe k b a key i free h
Step-IsSafe (releases k b a key i) h = releases-IsSafe k b a key i h
Step-IsSafe (leaves k b a key i) h = left-IsSafe k b a key i h

-- So many goroutines, none of them in `lock`.
abbrev pub all_outside : ℕ → List Place
all_outside zero = []
all_outside (suc n) = outside ∷ all_outside n

no_uses : (n i : ℕ) → total (uses i) (all_outside n) ≡ 0
no_uses zero i = refl
no_uses (suc n) i = omega (arith, no_uses n i)

no_holds : (n i : ℕ) → total (holds i) (all_outside n) ≡ 0
no_holds zero i = refl
no_holds (suc n) i = omega (arith, no_holds n i)

all_outside-IsMapped : (n : ℕ) → All (IsMapped []) (all_outside n)
all_outside-IsMapped zero = tt
all_outside-IsMapped (suc n) = (tt, all_outside-IsMapped n)

start-IsSafe : (n : ℕ) → IsSafe no_locks (all_outside n)
unfolding as_number lookup
start-IsSafe n = record {
  counted = λ i. no_uses n i;
  exclusive = λ i. no_holds n i;
  mapped = all_outside-IsMapped n;
  used = λ key i e. ground arith;
  distinct = λ key key' i e e'. ground arith;
  unallocated = λ i e. (refl, refl);
}

Reaches-IsSafe :
    (n : ℕ) {k : KeyedMutex} {ps : List Place} → Reaches (all_outside n) k ps → IsSafe k ps
Reaches-IsSafe n start = start-IsSafe n
Reaches-IsSafe n (next r s) = Step-IsSafe s (Reaches-IsSafe n r)

-- Whatever the goroutines do, and in whatever order, no two of them hold one key at once, although
-- its lock object is made on demand and dropped in between.
pub one_holder :
    (n : ℕ) (k : KeyedMutex) (ps : List Place) (key : String)
    → Reaches (all_outside n) k ps
    → holders key ps ≤ 1
one_holder n k ps key r = holders-le_one key k ps (Reaches-IsSafe n r)

-- Once every goroutine is out of `lock` and its unlock, no key has a lock object any more.
pub nothing_left :
    (n m : ℕ) (k : KeyedMutex) (key : String)
    → Reaches (all_outside n) k (all_outside m)
    → lookup key k.held ≡ none
nothing_left n m k key r = go (lookup key k.held) refl
  where
    h : IsSafe k (all_outside m)
    h = Reaches-IsSafe n r

    go : (o : Option ℕ) → lookup key k.held ≡ o → lookup key k.held ≡ none
    go none e = e
    go (some i) e = ground (arith, no_uses m i, h.counted i, (h.used key i e).0)
