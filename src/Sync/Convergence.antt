-- ===== src/Sync/Convergence.antt =====
-- internal/pihole/sync.go: carrying out the diff of one category. Settings are the compared text of
-- each key; a write of an item sets that of its key, a deletion removes it.
use pihole_mcp.Prelude.{
  String, ◌≡◌, refl, ◌∙◌, ap, sym, subst, inl, inr, true, false, Option, none, some, List, [], ◌∷◌,
  arith, str_eq, str-eq_iff, if◌then◌else◌, Bool-cases, Option-cases, contains, Map, lookup,
}
use pihole_mcp.Sync.{
  Item, collect, pick_added, pick_changed, pick_removed, differs, category_diff, sorted_keys,
  SyncCategory,
}
use pihole_mcp.Sync.Keys.{picks, lookup_of_unvisited}
use pihole_mcp.Sync.Readers.Laws.{IsKeyed}

abbrev pub Settings : Type 0
Settings = String → Option String

abbrev pub compared_of : Option Item → Option String
compared_of none = none
compared_of (some it) = some it.compared

abbrev pub settings_of : Map Item → Settings
settings_of m k = compared_of (lookup k m)

-- Requests in order, each of which leaves its item's key with what `left` says.
abbrev pub run_all : (Item → Option String) → List Item → Settings → Settings
run_all left [] m k = m k
run_all left (it ∷ items) m k = run_all left items (λ j. if str_eq it.key j then left it else m j) k

abbrev pub write_all : List Item → Settings → Settings
write_all items m k = run_all (λ it. some it.compared) items m k

abbrev pub delete_all : List Item → Settings → Settings
delete_all items m k = run_all (λ it. none) items m k

-- What the target has after the sync, from what the two have before: an item with no settings to
-- compare is left as it is.
abbrev pub synced : Option Item → Option Item → Option String
synced none t = none
synced (some s) none = some s.compared
synced (some s) (some t) = if str_eq s.compared "" then some t.compared else some s.compared

abbrev done : (Item → Option String) → Option Item → Option String → Option String
done left none x = x
done left (some it) x = left it

-- A pick that takes the item of the key it looks at.
abbrev KeepsKey : (Option Item → Option Item → Option Item) → Map Item → Map Item → Type 0
KeepsKey pick src tgt = (k : String) (it : Item) → picks pick src tgt k ≡ some it → it.key ≡ k

module _ (pick : Option Item → Option Item → Option Item) (src tgt : Map Item)
    (left : Item → Option String) where
  run_all-collect :
      (ks : List String) (m : Settings) (k : String)
      → KeepsKey pick src tgt
      → run_all left (collect pick src tgt ks) m k
        ≡ (if contains ks k then done left (picks pick src tgt k) (m k) else m k)
  unfolding collect
  run_all-collect [] m k h = refl
  run_all-collect (j ∷ ks) m k h = elim (Option-cases (picks pick src tgt j)) [
    | inl p ↦ elim (Bool-cases (str_eq j k)) [
      | inl s ↦
          let same : j ≡ k = (str-eq_iff j k).0 s in
          let p' : picks pick src tgt k ≡ none = subst (λ x. picks pick src tgt x ≡ none) same p in
          rw p (rw s (run_all-collect ks m k h ∙ rw p' (ground arith)))
      | inr s ↦ rw p (rw s (run_all-collect ks m k h))
    ]
    | inr (it, p) ↦ elim (Bool-cases (str_eq j k)) [
      | inl s ↦
          let same : j ≡ k = (str-eq_iff j k).0 s in
          let p' : picks pick src tgt k ≡ some it =
            subst (λ x. picks pick src tgt x ≡ some it) same p in
          let here : str_eq it.key k ≡ true = rw (h j it p) s in
          rw p (rw s (run_all-collect ks _ k h ∙ rw p' (rw here (ground arith))))
      | inr s ↦
          let other : str_eq it.key k ≡ false = rw (h j it p) s in
          rw p (rw s (run_all-collect ks _ k h ∙ rw other refl))
    ]
  ]

-- A loop over all keys of a map that holds each key it picks.
run_sorted :
    (pick : Option Item → Option Item → Option Item) (src tgt m : Map Item)
    (left : Item → Option String) (s : Settings) (k : String)
    → KeepsKey pick src tgt
    → (lookup k m ≡ none → picks pick src tgt k ≡ none)
    → run_all left (collect pick src tgt (sorted_keys m)) s k
      ≡ done left (picks pick src tgt k) (s k)
run_sorted pick src tgt m left s k h none_there =
    run_all-collect pick src tgt left (sorted_keys m) s k h
    ∙ elim (Bool-cases (contains (sorted_keys m) k)) [
      | inl c ↦ rw c refl
      | inr c ↦ rw c (rw (none_there (lookup_of_unvisited k m c)) refl)
    ]

some-inj : (a b : Item) → some a ≡ some b → a ≡ b
some-inj a b e = cc

none-some : (a : Item) → none ≡ some a → ⊥
none-some a e = cc

added-KeepsKey : (src tgt : Map Item) → IsKeyed src → KeepsKey pick_added src tgt
unfolding pick_added
added-KeepsKey src tgt hs k it e = go (lookup k src) (lookup k tgt) refl e
  where
    go : (x y : Option Item) → lookup k src ≡ x → pick_added x y ≡ some it → it.key ≡ k
    go none y s p = ground arith
    go (some a) none s p = hs k it (s ∙ p)
    go (some a) (some b) s p = ground arith

removed-KeepsKey : (src tgt : Map Item) → IsKeyed tgt → KeepsKey pick_removed src tgt
unfolding pick_removed
removed-KeepsKey src tgt ht k it e = go (lookup k src) (lookup k tgt) refl e
  where
    go : (x y : Option Item) → lookup k tgt ≡ y → pick_removed x y ≡ some it → it.key ≡ k
    go none none s p = ground arith
    go none (some b) s p = ht k it (s ∙ p)
    go (some a) y s p = ground arith

changed-KeepsKey : (src tgt : Map Item) → IsKeyed src → KeepsKey pick_changed src tgt
unfolding pick_changed
changed-KeepsKey src tgt hs k it e = go (lookup k src) (lookup k tgt) refl e
  where
    go : (x y : Option Item) → lookup k src ≡ x → pick_changed x y ≡ some it → it.key ≡ k
    go none y s p = ground arith
    go (some a) none s p = ground arith
    go (some a) (some b) s p = elim (Bool-cases (differs a b)) [
      | inl d ↦
          let same : record a { before = b.compared } ≡ it = some-inj _ _ (rw d at p) in
          ap (λ x. x.key) (sym same) ∙ hs k a s
      | inr d ↦ absurd (none-some it (rw d at p))
    ]

not_removed : (x : Option Item) → pick_removed x none ≡ none
unfolding pick_removed
not_removed none = refl
not_removed (some a) = refl

not_changed : (y : Option Item) → pick_changed none y ≡ none
unfolding pick_changed
not_changed y = refl

not_added : (y : Option Item) → pick_added none y ≡ none
unfolding pick_added
not_added y = refl

done-synced :
    (x y : Option Item)
    → done
        (λ it. none)
        (pick_removed x y)
        (done
          (λ it. some it.compared)
          (pick_changed x y)
          (done (λ it. some it.compared) (pick_added x y) (compared_of y)))
      ≡ synced x y
unfolding pick_removed pick_changed pick_added
done-synced none none = refl
done-synced none (some b) = refl
done-synced (some a) none = refl
done-synced (some a) (some b) = ground (arith, str-eq_iff a.compared b.compared)

-- Carrying out the diff of a category, its writes and then its deletions, leaves the target with
-- exactly the source's entries: under each key what the source compares, or, where it compares
-- nothing, what the target had; and nothing under the keys that the source lacks. The two maps are
-- keyed by their items, as the readers return them.
pub diff_converges :
    (cat : SyncCategory) (src tgt : Map Item) (k : String)
    → IsKeyed src
    → IsKeyed tgt
    → delete_all
        (category_diff cat src tgt).removed
        (write_all
          (category_diff cat src tgt).changed
          (write_all (category_diff cat src tgt).added (settings_of tgt)))
        k
      ≡ synced (lookup k src) (lookup k tgt)
unfolding category_diff
diff_converges cat src tgt k hs ht =
    let after_adds = write_all (collect pick_added src tgt (sorted_keys src)) (settings_of tgt) in
    let after_writes = write_all (collect pick_changed src tgt (sorted_keys src)) after_adds in
    run_sorted pick_removed src tgt tgt (λ it. none) after_writes k (removed-KeepsKey src tgt ht)
      (λ e. ap (pick_removed (lookup k src)) e ∙ not_removed (lookup k src))
    ∙ ap (done (λ it. none) (picks pick_removed src tgt k)) (
        run_sorted pick_changed src tgt src (λ it. some it.compared) after_adds k
          (changed-KeepsKey src tgt hs)
          (λ e. ap (λ x. pick_changed x (lookup k tgt)) e ∙ not_changed (lookup k tgt))
        ∙ ap (done (λ it. some it.compared) (picks pick_changed src tgt k)) (
            run_sorted pick_added src tgt src (λ it. some it.compared) (settings_of tgt) k
              (added-KeepsKey src tgt hs)
              (λ e. ap (λ x. pick_added x (lookup k tgt)) e ∙ not_added (lookup k tgt))))
    ∙ done-synced (lookup k src) (lookup k tgt)
