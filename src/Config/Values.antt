-- ===== src/Config/Values.antt =====
-- internal/tools/config.go: what `configAddValueHandler` and `configRemoveValueHandler` let through.
use pihole_mcp.Prelude.{
  ◌≡◌, refl, ◌⊎◌, inl, inr, String, Bool, false, Option, none, some, [], ◌∷◌, Bool-cases,
  Option-cases,
}
use pihole_mcp.Json.{Json}
use pihole_mcp.Sync.Readers.{Escaping}
use pihole_mcp.Validate.{validate_max_length, contains_any}
use pihole_mcp.Config.{Folding, is_credential_path, risky_setting_for, has_control}
use pihole_mcp.Config.Handlers.{
  ConfigCalls, ConfigAnswer, invalid, control_in_element, credential_write, risky_setting,
  line_break, ValueVerb, max_config_path_len, max_comment_length, refuse_value, value_locked,
  config_value,
}

module _ {W : Type 0} (f : Folding) (lower_number : Json → Json → Bool)
    (parse_json : String → String ⊎ Json) (esc : Escaping) (calls : ConfigCalls W) where
  -- An element and a value that may be sent.
  abbrev pub IsSendable : String → String → Type 0
  IsSendable element value =
      (is_credential_path f element ≡ false)
      × (risky_setting_for f element ≡ none)
      × (has_control element ≡ false)
      × (contains_any (13 ∷ 10 ∷ []) value ≡ false)
      × (validate_max_length element max_config_path_len ≡ none)
      × (validate_max_length value max_comment_length ≡ none)

  refuse_value-cases :
      (element value : String)
      → ((answer : ConfigAnswer) × (refuse_value f lower_number parse_json esc calls element value
            ≡ some answer))
        ⊎ ((refuse_value f lower_number parse_json esc calls element value ≡ none)
            × IsSendable element value)
  unfolding refuse_value
  refuse_value-cases element value =
      elim (Option-cases (validate_max_length element max_config_path_len)) [
        | inr (why, e) ↦ inl (invalid "element" why, rw e refl)
        | inl l ↦ elim (Bool-cases (has_control element)) [
          | inl e ↦ inl (control_in_element, rw (l, e) refl)
          | inr h ↦ elim (Option-cases (validate_max_length value max_comment_length)) [
            | inr (why, e) ↦ inl (invalid "value" why, rw (l, h, e) refl)
            | inl v ↦ elim (Bool-cases (is_credential_path f element)) [
              | inl e ↦ inl (credential_write element, rw (l, h, v, e) refl)
              | inr c ↦ elim (Option-cases (risky_setting_for f element)) [
                | inr (r, e) ↦ inl (risky_setting element r, rw (l, h, v, c, e) refl)
                | inl r ↦ elim (Bool-cases (contains_any (13 ∷ 10 ∷ []) value)) [
                  | inl e ↦ inl (line_break element, rw (l, h, v, c, r, e) refl)
                  | inr b ↦ inr (rw (l, h, v, c, r, b) refl, (c, r, h, b, l, v))
                ]
              ]
            ]
          ]
        ]
      ]

  -- Adding or removing a value of a list makes no call, or the element is neither a password hash nor a
  -- risky setting and has no control character, the value has no line break, both are within their
  -- limits, and the one write of the verb is made under the setting's lock.
  pub value_write_guarded :
      (verb : ValueVerb) (element value : Option String) (restart : Bool) (w : W)
      → ((config_value f lower_number parse_json esc calls verb element value restart w).1 ≡ w)
        ⊎ ((e : String) × (v : String) × (element ≡ some e)
            × (value ≡ some v)
            × IsSendable e v
            × (config_value f lower_number parse_json esc calls verb element value restart w
                ≡ value_locked f lower_number parse_json esc calls verb e v restart w))
  unfolding config_value
  value_write_guarded verb none value restart w = inl refl
  value_write_guarded verb (some e) none restart w = inl refl
  value_write_guarded verb (some e) (some v) restart w = elim (refuse_value-cases e v) [
    | inl (answer, r) ↦ inl (rw r refl)
    | inr (r, sendable) ↦ inr (e, v, refl, refl, sendable, rw r refl)
  ]
