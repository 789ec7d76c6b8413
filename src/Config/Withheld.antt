-- ===== src/Config/Withheld.antt =====
-- internal/tools/config.go: what is left of a configuration without the password hashes.
use pihole_mcp.Prelude.{
  ◌≡◌, refl, subst, ◌∙◌, ◌⊎◌, inl, inr, String, Bool, true, false, Option, none, some, List, [],
  ◌∷◌, str_eq, str-eq_iff, str-eq_refl, if◌then◌else◌, Bool-cases, Option-cases, arith,
}
use pihole_mcp.Json.{
  Json, null, flag, number, text, array, object, Members, no_members, member, find_member,
  drop_member, replace_member, get_member, members_of,
}
use pihole_mcp.Config.{delete_path, without_child, withhold_credentials}

abbrev value_of : Option Json → Json
value_of none = null
value_of (some v) = v

find-drop :
    (j k : String) (m : Members)
    → find_member k (drop_member j m) ≡ (if str_eq j k then none else find_member k m)
find-drop j k no_members = ground arith
find-drop j k (member i v m) =
    ground (arith, str-eq_iff j k, str-eq_iff i k, str-eq_iff i j, find-drop j k m)

find-replace :
    (j k : String) (x v : Json) (m : Members)
    → find_member j m ≡ some v
    → find_member k (replace_member j x m) ≡ (if str_eq j k then some x else find_member k m)
find-replace j k x v no_members h = ground arith
find-replace j k x v (member i w m) h = elim (Bool-cases (str_eq i j)) [
  | inl e ↦ rw e (ground (arith, str-eq_iff j k, str-eq_iff i k, str-eq_iff i j))
  | inr e ↦
      let ih = find-replace j k x v m (rw e at h) in
      rw e (ground (arith, ih, str-eq_iff j k, str-eq_iff i k, str-eq_iff i j))
]

-- A setting by its path, each part spelled exactly.
abbrev pub find_path : List String → Members → Option Json
find_path [] m = none
find_path (k ∷ []) m = find_member k m
find_path (k ∷ j ∷ ks) m = find_path (j ∷ ks) (members_of (value_of (find_member k m)))

-- Neither of two paths is on the way to the other.
abbrev pub apart : List String → List String → Bool
apart (x ∷ xs) (y ∷ ys) = if str_eq x y then apart xs ys else true
apart _ _ = false

members_at : (k : String) (m : Members) → get_member k m ≡ value_of (find_member k m)
members_at k no_members = refl
members_at k (member j v m) = ground (arith, members_at k m)

find_path-nothing : (p : List String) → find_path p no_members ≡ none
find_path-nothing [] = refl
find_path-nothing (k ∷ []) = refl
find_path-nothing (k ∷ j ∷ ks) = find_path-nothing (j ∷ ks)

json-cases :
    (v : Json)
    → ((c : Members) × (v ≡ object c))
      ⊎ ((members_of v ≡ no_members)
          × ((seg : String) (inner m : Members) → without_child seg inner (some v) m ≡ m))
json-cases (object c) = inl (c, refl)
json-cases null = inr (refl, λ seg inner m. refl)
json-cases (flag b) = inr (refl, λ seg inner m. refl)
json-cases (number n) = inr (refl, λ seg inner m. refl)
json-cases (text s) = inr (refl, λ seg inner m. refl)
json-cases (array es) = inr (refl, λ seg inner m. refl)

deleted_absent : (p : List String) (m : Members) → find_path p (delete_path p m) ≡ none
unfolding delete_path
deleted_absent [] m = refl
deleted_absent (k ∷ []) m = rw (find-drop k k m) (rw (str-eq_refl k) refl)
deleted_absent (seg ∷ k ∷ path) m = elim (Option-cases (find_member seg m)) [
  | inl e ↦ rw e (rw e (find_path-nothing (k ∷ path)))
  | inr (v, e) ↦ elim (json-cases v) [
    | inr (none_there, same) ↦
        rw e (rw (same seg) (rw e (rw none_there (find_path-nothing (k ∷ path)))))
    | inl (c, o) ↦
        let at_seg : find_member seg m ≡ some (object c) = rw o at e in
        let inner = delete_path (k ∷ path) c in
        rw (members_at seg m) (
          rw at_seg (
            rw (find-replace seg seg (object inner) (object c) m at_seg)
              (rw (str-eq_refl seg) (deleted_absent (k ∷ path) c))))
  ]
]

find_path-same :
    (y : String) (ys : List String) (m n : Members)
    → find_member y m ≡ find_member y n
    → find_path (y ∷ ys) m ≡ find_path (y ∷ ys) n
find_path-same y [] m n e = e
find_path-same y (z ∷ zs) m n e = rw e refl

find-without_child :
    (seg y : String) (inner m : Members) (o : Option Json)
    → find_member seg m ≡ o
    → str_eq seg y ≡ false
    → find_member y (without_child seg inner o m) ≡ find_member y m
find-without_child seg y inner m none e h = refl
find-without_child seg y inner m (some v) e h = elim (json-cases v) [
  | inr (none_there, same) ↦ rw (same seg) refl
  | inl (c, o) ↦ rw o (rw (find-replace seg y (object inner) v m e) (rw h refl))
]

-- Under the part that two paths share, the rest of them decides.
deleted_under :
    (seg k z : String) (path zs : List String) (m : Members)
    → ((c : Members) → find_path (z ∷ zs) (delete_path (k ∷ path) c) ≡ find_path (z ∷ zs) c)
    → find_path (seg ∷ z ∷ zs) (delete_path (seg ∷ k ∷ path) m) ≡ find_path (seg ∷ z ∷ zs) m
unfolding delete_path
deleted_under seg k z path zs m ih = elim (Option-cases (find_member seg m)) [
  | inl e ↦ rw e (rw e refl)
  | inr (v, e) ↦ elim (json-cases v) [
    | inr (none_there, same) ↦ rw e (rw (same seg) (rw e refl))
    | inl (c, o) ↦
        let at_seg : find_member seg m ≡ some (object c) = rw o at e in
        let inner = delete_path (k ∷ path) c in
        rw (members_at seg m) (
          rw at_seg (
            rw (find-replace seg seg (object inner) (object c) m at_seg)
              (rw (str-eq_refl seg) (ih c))))
  ]
]

deleted_apart :
    (p q : List String) (m : Members)
    → apart p q ≡ true
    → find_path q (delete_path p m) ≡ find_path q m
unfolding delete_path
deleted_apart [] q m h = absurd (ground arith)
deleted_apart (k ∷ []) [] m h = refl
deleted_apart (k ∷ []) (y ∷ ys) m h =
    find_path-same y ys (drop_member k m) m
      (rw (find-drop k y m) (let differ : str_eq k y ≡ false = ground arith in rw differ refl))
deleted_apart (seg ∷ k ∷ path) [] m h = refl
deleted_apart (seg ∷ k ∷ path) (y ∷ []) m h =
    find_path-same y [] (delete_path (seg ∷ k ∷ path) m) m (
      find-without_child seg y (delete_path (k ∷ path) (members_of (get_member seg m))) m
        (find_member seg m) refl (ground arith))
deleted_apart (seg ∷ k ∷ path) (y ∷ z ∷ zs) m h = elim (Bool-cases (str_eq seg y)) [
  | inr d ↦ find_path-same y (z ∷ zs) (delete_path (seg ∷ k ∷ path) m) m (
      find-without_child seg y (delete_path (k ∷ path) (members_of (get_member seg m))) m
        (find_member seg m) refl d)
  | inl s ↦
      let same = (str-eq_iff seg y).0 s in
      let rest : apart (k ∷ path) (z ∷ zs) ≡ true = rw s at h in
      subst
        (λ x. find_path (x ∷ z ∷ zs) (delete_path (seg ∷ k ∷ path) m) ≡ find_path (x ∷ z ∷ zs) m)
        same (deleted_under seg k z path zs m (λ c. deleted_apart (k ∷ path) (z ∷ zs) c rest))
]

abbrev pub pwhash_path : List String
pwhash_path = "webserver" ∷ "api" ∷ "pwhash" ∷ []

abbrev pub app_pwhash_path : List String
app_pwhash_path = "webserver" ∷ "api" ∷ "app_pwhash" ∷ []

-- A configuration is returned without the two password hashes, whatever they are, and with every
-- setting that neither is a hash nor lies above or below one, as it was.
pub withheld_exactly :
    (m : Members)
    → (find_path pwhash_path (withhold_credentials m) ≡ none)
      × (find_path app_pwhash_path (withhold_credentials m) ≡ none)
      × ((q : List String)
          → apart pwhash_path q ≡ true
          → apart app_pwhash_path q ≡ true
          → find_path q (withhold_credentials m) ≡ find_path q m)
unfolding withhold_credentials
withheld_exactly m =
    let first = delete_path pwhash_path m in
    (
      deleted_apart app_pwhash_path pwhash_path first refl ∙ deleted_absent pwhash_path m,
      deleted_absent app_pwhash_path first,
      λ q h h'. deleted_apart app_pwhash_path q first h' ∙ deleted_apart pwhash_path q m h,
    )
