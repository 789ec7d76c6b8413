-- ===== src/Locks/Safety.antt =====
-- The invariant of `keyedMutex` in internal/pihole/locks.go: each object counts the goroutines that
-- refer to it, and its Boolean says whether one of them holds it.
use pihole_mcp.Prelude.{
  ℕ, ◌+◌, ◌≤◌, ◌<◌, String, ◌≡◌, refl, Bool, true, false, Option, none, some, List, [], ◌∷◌, ◌++◌,
  arith, ◌==◌, str_eq, str-eq_iff, if◌then◌else◌, Bool-cases, inl, inr, Map, lookup, All,
}
use pihole_mcp.Locks.{KeyedMutex, Place, outside, waiting, holding, leaving}

abbrev pub at : ℕ → ℕ → ℕ
at i j = if i == j then 1 else 0

-- Whether the goroutine refers to the lock object `i`, holds it, or holds the key.
abbrev pub uses : ℕ → Place → ℕ
uses i outside = 0
uses i (waiting key j) = at i j
uses i (holding key j) = at i j
uses i (leaving key j) = at i j

abbrev pub holds : ℕ → Place → ℕ
holds i (holding key j) = at i j
holds i _ = 0

abbrev holds_key : String → Place → ℕ
holds_key key (holding k j) = if str_eq k key then 1 else 0
holds_key key _ = 0

abbrev pub total : (Place → ℕ) → List Place → ℕ
total f [] = 0
total f (p ∷ ps) = f p + total f ps

-- How many goroutines hold the key.
unfoldable pub holders : String → List Place → ℕ
holders key ps = total (holds_key key) ps

pub total-at :
    (f : Place → ℕ) (b a : List Place) (p : Place)
    → total f (b ++ p ∷ a) ≡ f p + (total f b + total f a)
total-at f [] a p = omega arith
total-at f (q ∷ b) a p = omega (arith, total-at f b a p)

abbrev pub IsMapped : Map ℕ → Place → Type 0
IsMapped held outside = Unit
IsMapped held (waiting key i) = lookup key held ≡ some i
IsMapped held (holding key i) = lookup key held ≡ some i
IsMapped held (leaving key i) = lookup key held ≡ some i

unfoldable pub as_number : Bool → ℕ
as_number b = if b then 1 else 0

pub record IsSafe (k : KeyedMutex) (ps : List Place) : Type 0 where
  pub counted : (i : ℕ) → total (uses i) ps ≡ (k.heap i).refs
  pub exclusive : (i : ℕ) → total (holds i) ps ≡ as_number (k.heap i).locked
  pub mapped : All (IsMapped k.held) ps
  pub used :
      (key : String) (i : ℕ) → lookup key k.held ≡ some i → (1 ≤ (k.heap i).refs) × (i < k.fresh)
  pub distinct :
      (key key' : String) (i : ℕ)
      → lookup key k.held ≡ some i
      → lookup key' k.held ≡ some i
      → key ≡ key'
  pub unallocated : (i : ℕ) → k.fresh ≤ i → ((k.heap i).refs ≡ 0) × ((k.heap i).locked ≡ false)

pub same_lock :
    (key k : String) (held : Map ℕ) (i j : ℕ)
    → k ≡ key
    → lookup key held ≡ some i
    → lookup k held ≡ some j
    → j ≡ i
same_lock key k held i j s e m = cc

holders-le :
    (key : String) (i : ℕ) (held : Map ℕ) (ps : List Place)
    → lookup key held ≡ some i
    → All (IsMapped held) ps
    → total (holds_key key) ps ≤ total (holds i) ps
holders-le key i held [] e h = omega arith
holders-le key i held (outside ∷ ps) e (m, h) = omega (arith, holders-le key i held ps e h)
holders-le key i held (waiting k j ∷ ps) e (m, h) = omega (arith, holders-le key i held ps e h)
holders-le key i held (leaving k j ∷ ps) e (m, h) = omega (arith, holders-le key i held ps e h)
holders-le key i held (holding k j ∷ ps) e (m, h) =
    let ih = holders-le key i held ps e h in
    elim (Bool-cases (str_eq k key)) [
      | inl s ↦
          rw s (
            let same : j ≡ i = same_lock key k held i j ((str-eq_iff k key).0 s) e m in
            ground arith)
      | inr s ↦ rw s (omega arith)
    ]

not_mapped :
    (key k : String) (held : Map ℕ) (j : ℕ)
    → lookup key held ≡ none
    → lookup k held ≡ some j
    → str_eq k key ≡ false
not_mapped key k held j e m = elim (Bool-cases (str_eq k key)) [
  | inl s ↦ let same : k ≡ key = (str-eq_iff k key).0 s in cc
  | inr s ↦ s
]

holders-none :
    (key : String) (held : Map ℕ) (ps : List Place)
    → lookup key held ≡ none
    → All (IsMapped held) ps
    → total (holds_key key) ps ≡ 0
holders-none key held [] e h = refl
holders-none key held (outside ∷ ps) e (m, h) = omega (arith, holders-none key held ps e h)
holders-none key held (waiting k j ∷ ps) e (m, h) = omega (arith, holders-none key held ps e h)
holders-none key held (leaving k j ∷ ps) e (m, h) = omega (arith, holders-none key held ps e h)
holders-none key held (holding k j ∷ ps) e (m, h) =
    rw (not_mapped key k held j e m) (omega (arith, holders-none key held ps e h))

pub as_number-le : (b : Bool) → as_number b ≤ 1
unfolding as_number
as_number-le true = omega arith
as_number-le false = omega arith

pub holders-le_one :
    (key : String) (k : KeyedMutex) (ps : List Place) → IsSafe k ps → holders key ps ≤ 1
unfolding holders
holders-le_one key k ps h = go (lookup key k.held) refl
  where
    go : (o : Option ℕ) → lookup key k.held ≡ o → total (holds_key key) ps ≤ 1
    go none e = omega (arith, holders-none key k.held ps e h.mapped)
    go (some i) e = omega (
      arith,
      holders-le key i k.held ps e h.mapped,
      h.exclusive i,
      as_number-le (k.heap i).locked,
    )

-- A place that maps the key keeps its object, whatever is done to other keys.
pub All-IsMapped :
    (held held' : Map ℕ) (ps : List Place)
    → ((key : String) (i : ℕ)
        → 1 ≤ total (uses i) ps
        → lookup key held ≡ some i
        → lookup key held' ≡ some i)
    → All (IsMapped held) ps
    → All (IsMapped held') ps
All-IsMapped held held' [] f h = tt
All-IsMapped held held' (outside ∷ ps) f (m, h) =
    (tt, All-IsMapped held held' ps (λ key i n e. f key i (omega arith) e) h)
All-IsMapped held held' (waiting k j ∷ ps) f (m, h) =
    (f k j (ground arith) m, All-IsMapped held held' ps (λ key i n e. f key i (ground arith) e) h)
All-IsMapped held held' (holding k j ∷ ps) f (m, h) =
    (f k j (ground arith) m, All-IsMapped held held' ps (λ key i n e. f key i (ground arith) e) h)
All-IsMapped held held' (leaving k j ∷ ps) f (m, h) =
    (f k j (ground arith) m, All-IsMapped held held' ps (λ key i n e. f key i (ground arith) e) h)

pub All-at :
    (P : Place → Type 0) (b a : List Place) (p q : Place)
    → All P (b ++ p ∷ a)
    → (P p → P q)
    → All P (b ++ q ∷ a)
All-at P [] a p q (x, h) f = (f x, h)
All-at P (r ∷ b) a p q (x, h) f = (x, All-at P b a p q h f)

pub All-here : (P : Place → Type 0) (b a : List Place) (p : Place) → All P (b ++ p ∷ a) → P p
All-here P [] a p (x, h) = x
All-here P (r ∷ b) a p (x, h) = All-here P b a p h
