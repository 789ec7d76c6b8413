-- ===== src/Config/Allowed.antt =====
-- internal/tools/config.go, config_risky.go: what the guards of a configuration write have found when
-- they let it pass.
use pihole_mcp.Prelude.{
  ◌≡◌, ◌≢◌, refl, ◌⊎◌, inl, inr, String, true, false, Option, none, some, List, [], ◌∷◌, All,
  Bool-cases, Option-cases, Map, keys, arith,
}
use pihole_mcp.Json.{Json, Members}
use pihole_mcp.Sync.{sort_keys, insert_key}
use pihole_mcp.Config.{Folding, risky_setting_for, has_line_break}
use pihole_mcp.Config.Detailed.{
  already_set, risky_change, newline_in, is_known, detailed_config_item, unknown_in,
  unknown_settings,
}

-- A setting in a write that the guards let through.
abbrev pub IsAllowed : Folding → Option Members → String × Json → Type 0
IsAllowed f before leaf =
    (has_line_break leaf.1 ≡ false)
    × ((risky_setting_for f leaf.0 ≡ none) ⊎ (already_set f before leaf.0 leaf.1 ≡ true))

abbrev pub IsKnownIn : Folding → Option Members → String → Type 0
IsKnownIn f none key = Unit
IsKnownIn f (some before) key = is_known (detailed_config_item f before key) ≡ true

some-ne-none : {A : Type 0} (a : A) → some a ≢ none
some-ne-none a h = cc

unread-known : (f : Folding) (ks : List String) → All (IsKnownIn f none) ks
unread-known f [] = tt
unread-known f (k ∷ ks) = (tt, unread-known f ks)

All-both {ℓ} :
    {A : Type ℓ} (P Q : A → Type 0) (xs : List A) → All P xs → All Q xs → All (λ x. P x × Q x) xs
All-both P Q [] p q = tt
All-both P Q (x ∷ xs) (p, ps) (q, qs) = ((p, q), All-both P Q xs ps qs)

pub List-cases {ℓ} :
    {A : Type ℓ} (xs : List A) → (xs ≡ []) ⊎ ((y : A) × (ys : List A) × (xs ≡ y ∷ ys))
List-cases [] = inl refl
List-cases (x ∷ xs) = inr (x, xs, refl)

module _ (f : Folding) where
  newline_in-none :
      (leaves : Map Json)
      → newline_in leaves ≡ none
      → All (λ leaf. has_line_break leaf.1 ≡ false) leaves
  unfolding newline_in
  newline_in-none [] h = tt
  newline_in-none ((k, v) ∷ leaves) h = elim (Bool-cases (has_line_break v)) [
    | inl e ↦ absurd (some-ne-none k (rw e at h))
    | inr e ↦ (e, newline_in-none leaves (rw e at h))
  ]

  -- A leaf that the walk passes names no risky setting, or is set already.
  risky_change-none :
      (before : Option Members) (leaves : Map Json)
      → risky_change f before leaves ≡ none
      → All
          (λ leaf.
            (risky_setting_for f leaf.0 ≡ none) ⊎ (already_set f before leaf.0 leaf.1 ≡ true))
          leaves
  unfolding risky_change
  risky_change-none before [] h = tt
  risky_change-none before ((k, v) ∷ leaves) h = elim (Option-cases (risky_setting_for f k)) [
    | inl e ↦ (inl e, risky_change-none before leaves (rw e at h))
    | inr (r, e) ↦ elim (Bool-cases (already_set f before k v)) [
      | inl s ↦ (inr s, risky_change-none before leaves (rw (e, s) at h))
      | inr s ↦ absurd (some-ne-none (k, r) (rw (e, s) at h))
    ]
  ]

  insert_key-ne-nil : (k : String) (ks : List String) → insert_key k ks ≢ []
  unfolding insert_key
  insert_key-ne-nil k [] h = cc
  insert_key-ne-nil k (j ∷ ks) h = ground (arith, h)

  unknown_in-nil :
      (before : Members) (ks : List String)
      → sort_keys (unknown_in f before ks) ≡ []
      → All (λ k. is_known (detailed_config_item f before k) ≡ true) ks
  unfolding sort_keys
  unknown_in-nil before [] h = tt
  unknown_in-nil before (k ∷ ks) h =
      elim (Bool-cases (is_known (detailed_config_item f before k))) [
        | inl e ↦ (e, unknown_in-nil before ks (rw e at h))
        | inr e ↦ absurd (insert_key-ne-nil k (sort_keys (unknown_in f before ks)) (rw e at h))
      ]

  pub unknown_settings-none :
      (before : Option Members) (leaves : Map Json)
      → unknown_settings f before leaves ≡ []
      → All (IsKnownIn f before) (keys leaves)
  unfolding unknown_settings
  unknown_settings-none none leaves h = unread-known f (keys leaves)
  unknown_settings-none (some before) leaves h = unknown_in-nil before (keys leaves) h

  pub allowed :
      (before : Option Members) (leaves : Map Json)
      → newline_in leaves ≡ none
      → risky_change f before leaves ≡ none
      → All (IsAllowed f before) leaves
  allowed before leaves n r =
      All-both _ _ leaves (newline_in-none leaves n) (risky_change-none before leaves r)
