-- ===== src/Config/Guard.antt =====
-- internal/tools/config.go, config_risky.go: what the tools that change the configuration send.
use pihole_mcp.Prelude.{
  ◌≡◌, refl, ◌⊎◌, inl, inr, String, Bool, Option, none, some, List, [], ◌∷◌, All, Option-cases, Map,
  keys,
}
use pihole_mcp.Json.{Json, object, Members}
use pihole_mcp.Sync.Readers.{Escaping}
use pihole_mcp.Config.{Folding, credential_key_in, config_leaves}
use pihole_mcp.Config.Detailed.{as_object, risky_change, newline_in, unknown_settings}
use pihole_mcp.Config.Expand.{BadKey, expand_config_keys}
use pihole_mcp.Config.Handlers.{
  ConfigCalls, ConfigAnswer, before_of, send_config, write_locked, unless_empty, unless_credential,
  set_expanded, set_object, set_parsed, set_given, config_set, unwrap_envelope,
}
use pihole_mcp.Config.Allowed.{IsAllowed, IsKnownIn, List-cases, unknown_settings-none, allowed}

module _ {W : Type 0} (f : Folding) (lower_number : Json → Json → Bool)
    (parse_json : String → String ⊎ Json) (esc : Escaping) (calls : ConfigCalls W)
    (P : W → Type 0) where
  -- What the locks and the read leave as it is.
  abbrev pub LockingKeeps : Type 0
  LockingKeeps =
      ((ks : List String) (w : W) → P w → P (calls.lock ks w))
      × ((ks : List String) (w : W) → P w → P (calls.unlock ks w))
      × ((w : W) → P w → P (calls.get_detailed w).1)

  -- The write that is sent: its settings, what was read under their locks, and what the guards found.
  abbrev pub SendsAllowed : Bool → W → ConfigAnswer × W → Type 0
  SendsAllowed restart w result =
      (payload : Members) × (leaves : Map Json) × (before : String ⊎ Option Members)
      × (config_leaves "" (object payload) [] ≡ leaves)
      × (credential_key_in f "" payload ≡ none)
      × ((calls.get_detailed (calls.lock (keys leaves) w)).0 ≡ before)
      × All (IsAllowed f (before_of f lower_number parse_json esc calls before)) leaves
      × All (IsKnownIn f (before_of f lower_number parse_json esc calls before)) (keys leaves)
      × (result ≡ (
          let (answer, w') =
            send_config f lower_number parse_json esc calls restart payload leaves before
              (calls.get_detailed (calls.lock (keys leaves) w)).1 in
          (answer, calls.unlock (keys leaves) w')))

  write_locked-cases :
      (restart : Bool) (payload : Members) (leaves : Map Json) (w : W)
      → config_leaves "" (object payload) [] ≡ leaves
      → credential_key_in f "" payload ≡ none
      → LockingKeeps
      → P w
      → P (write_locked f lower_number parse_json esc calls restart payload leaves w).1
        ⊎ SendsAllowed restart w
            (write_locked f lower_number parse_json esc calls restart payload leaves w)
  unfolding write_locked
  write_locked-cases restart payload leaves w el ec (locks, unlocks, reads) p =
      let read = calls.get_detailed (calls.lock (keys leaves) w) in
      let before = before_of f lower_number parse_json esc calls read.0 in
      let kept = unlocks (keys leaves) read.1 (reads _ (locks (keys leaves) w p)) in
      elim (Option-cases (newline_in leaves)) [
        | inr (k, e) ↦ inl (rw e kept)
        | inl n ↦ elim (Option-cases (risky_change f before leaves)) [
          | inr (r, e) ↦ inl (rw (n, e) kept)
          | inl r ↦ elim (List-cases (unknown_settings f before leaves)) [
            | inr (k, ks, e) ↦ inl (rw (n, r, e) kept)
            | inl u ↦ inr (
              payload,
              leaves,
              read.0,
              el,
              ec,
              refl,
              allowed f before leaves n r,
              unknown_settings-none f before leaves u,
              rw (n, r, u) refl,
            )
          ]
        ]
      ]

  unless_empty-cases :
      (restart : Bool) (payload : Members) (leaves : Map Json) (w : W)
      → config_leaves "" (object payload) [] ≡ leaves
      → credential_key_in f "" payload ≡ none
      → LockingKeeps
      → P w
      → P (unless_empty f lower_number parse_json esc calls restart payload leaves w).1
        ⊎ SendsAllowed restart w
            (unless_empty f lower_number parse_json esc calls restart payload leaves w)
  unless_empty-cases restart payload [] w el ec k p = inl p
  unless_empty-cases restart payload (leaf ∷ leaves) w el ec k p =
      write_locked-cases restart payload (leaf ∷ leaves) w el ec k p

  unless_credential-cases :
      (restart : Bool) (payload : Members) (found : Option String) (w : W)
      → credential_key_in f "" payload ≡ found
      → LockingKeeps
      → P w
      → P (unless_credential f lower_number parse_json esc calls found restart payload w).1
        ⊎ SendsAllowed restart w
            (unless_credential f lower_number parse_json esc calls found restart payload w)
  unless_credential-cases restart payload (some key) w ec k p = inl p
  unless_credential-cases restart payload none w ec k p =
      unless_empty-cases restart payload (config_leaves "" (object payload) []) w refl ec k p

  set_object-cases :
      (o : Option Members) (restart : Bool) (w : W)
      → LockingKeeps
      → P w
      → P (set_object f lower_number parse_json esc calls o restart w).1
        ⊎ SendsAllowed restart w (set_object f lower_number parse_json esc calls o restart w)
  set_object-cases none restart w k p = inl p
  set_object-cases (some m) restart w k p = expanded (expand_config_keys f m)
    where
      expanded :
          (e : BadKey ⊎ Members)
          → P (set_expanded f lower_number parse_json esc calls e restart w).1
            ⊎ SendsAllowed restart w (set_expanded f lower_number parse_json esc calls e restart w)
      expanded (inl why) = inl p
      expanded (inr payload) =
          unless_credential-cases restart (unwrap_envelope payload)
            (credential_key_in f "" (unwrap_envelope payload)) w refl k p

  set_given-cases :
      (config : Option String) (restart : Bool) (w : W)
      → LockingKeeps
      → P w
      → P (set_given f lower_number parse_json esc calls config restart w).1
        ⊎ SendsAllowed restart w (set_given f lower_number parse_json esc calls config restart w)
  set_given-cases none restart w k p = inl p
  set_given-cases (some config) restart w k p = parsed (parse_json config)
    where
      parsed :
          (v : String ⊎ Json)
          → P (set_parsed f lower_number parse_json esc calls v restart w).1
            ⊎ SendsAllowed restart w (set_parsed f lower_number parse_json esc calls v restart w)
      parsed (inl e) = inl p
      parsed (inr v) = set_object-cases (as_object v) restart w k p

  -- pihole_config_set leaves what locking and reading leave, or it sends one PATCH of settings, read
  -- under their locks: the search for password hashes finds none, no value has a line break, each
  -- risky setting has the value it had, and each is known to Pi-hole where its settings could be read.
  pub config_set-SendsAllowed :
      (config : Option String) (restart : Bool) (w : W)
      → LockingKeeps
      → P w
      → P (config_set f lower_number parse_json esc calls config restart w).1
        ⊎ SendsAllowed restart w (config_set f lower_number parse_json esc calls config restart w)
  unfolding config_set
  config_set-SendsAllowed config restart w k p = set_given-cases config restart w k p
