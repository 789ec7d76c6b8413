-- ===== src/Locks.antt =====
-- internal/pihole/locks.go: `keyedMutex`. A lock object is an entry of a heap, by a number that
-- stands for its address; `held` maps a key to one. The critical sections of `k.mu` are atomic, and
-- so are locking and unlocking `l.mu`, whose state is one Boolean.
pub mod Safety
pub mod Relocked
pub mod Entered
pub mod Left
pub mod Exclusion
use pihole_mcp.Prelude.{
  ℕ, ◌+◌, ◌-◌, String, Bool, true, false, Option, none, some, List, [], ◌∷◌, ◌++◌, ◌≡◌, ◌==◌,
  if◌then◌else◌, Map, lookup, insert, delete,
}

pub record KeyedLock : Type 0 where
  pub locked : Bool
  pub refs : ℕ

pub record KeyedMutex : Type 0 where
  pub held : Map ℕ
  pub heap : ℕ → KeyedLock
  -- the address that the next allocation gets
  pub fresh : ℕ

abbrev pub put : ℕ → KeyedLock → (ℕ → KeyedLock) → ℕ → KeyedLock
put i l heap j = if j == i then l else heap j

abbrev pub ref_lock : Option ℕ → String → KeyedMutex → ℕ × KeyedMutex
ref_lock (some i) key k =
    let l : KeyedLock = k.heap i in
    (i, record k { heap = put i (record l { refs = l.refs + 1 }) k.heap })
ref_lock none key k = (
  k.fresh,
  record {
    held = insert key k.fresh k.held;
    heap = put k.fresh (record { locked = false; refs = 1 }) k.heap;
    fresh = k.fresh + 1;
  },
)

-- The first critical section of `lock`: the object of the key, made if there is none.
unfoldable pub enter : String → KeyedMutex → ℕ × KeyedMutex
enter key k = ref_lock (lookup key k.held) key k

-- `l.mu.Lock()` of a free lock, and `l.mu.Unlock()`
unfoldable pub set_locked : Bool → ℕ → KeyedMutex → KeyedMutex
set_locked b i k =
    let l : KeyedLock = k.heap i in record k { heap = put i (record l { locked = b }) k.heap }

-- The critical section of the unlock: the key goes with the last reference.
unfoldable pub leave : String → ℕ → KeyedMutex → KeyedMutex
leave key i k =
    let l : KeyedLock = k.heap i in
    record k {
      held = if l.refs - 1 == 0 then delete key k.held else k.held;
      heap = put i (record l { refs = l.refs - 1 }) k.heap;
    }

-- Where a goroutine is: not in `lock` at all, before `l.mu.Lock()`, between the return of `lock` and
-- the unlock, or between the two statements of the unlock.
pub data Place : Type 0 where
  outside : Place
  waiting holding leaving : String → ℕ → Place

abbrev pub no_locks : KeyedMutex
no_locks = record { held = []; heap = λ i. record { locked = false; refs = 0 }; fresh = 0 }

-- One step of one of the goroutines.
pub data Step : KeyedMutex → List Place → KeyedMutex → List Place → Type 0 where
  enters :
      (k : KeyedMutex) (before after : List Place) (key : String)
      → Step k
          (before ++ outside ∷ after)
          (enter key k).1
          (before ++ waiting key (enter key k).0 ∷ after)
  acquires :
      (k : KeyedMutex) (before after : List Place) (key : String) (i : ℕ)
      → (k.heap i).locked ≡ false
      → Step k
          (before ++ waiting key i ∷ after)
          (set_locked true i k)
          (before ++ holding key i ∷ after)
  releases :
      (k : KeyedMutex) (before after : List Place) (key : String) (i : ℕ)
      → Step k
          (before ++ holding key i ∷ after)
          (set_locked false i k)
          (before ++ leaving key i ∷ after)
  leaves :
      (k : KeyedMutex) (before after : List Place) (key : String) (i : ℕ)
      → Step k (before ++ leaving key i ∷ after) (leave key i k) (before ++ outside ∷ after)

-- What any number of goroutines can come to from `start`.
pub data Reaches (start : List Place) : KeyedMutex → List Place → Type 0 where
  start : Reaches start no_locks start
  next :
      {k k' : KeyedMutex} {ps ps' : List Place}
      → Reaches start k ps
      → Step k ps k' ps'
      → Reaches start k' ps'
