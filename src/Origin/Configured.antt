-- ===== src/Origin/Configured.antt =====
-- internal/middleware/origin.go: the requests that a validator lets through, by its entries.
use pihole_mcp.Prelude.{
  ◌≡◌, refl, ap, ◌∙◌, inl, inr, String, Bool, true, false, ◌&&◌, ◌||◌, not, Option, none, some,
  List, [], ◌∷◌, All, any, str_eq, str-eq_refl, if◌then◌else◌, contains, trim_space, Bool-cases,
  arith,
}
use pihole_mcp.Origin.{
  Urls, OriginValidator, add_hosts, new_origin_validator, in_brackets, bracketed, other_spelling,
  host_allowed, strip_port, Checked, served, invalid_origin, invalid_host, origin_allowed,
  check_host, check_headers, is_empty, validate_origin,
}

-- No entry is the wildcard, and one is not blank.
abbrev pub IsPlain : List String → Type 0
IsPlain entries = All (λ raw. str_eq (trim_space raw) "*" ≡ false) entries

abbrev pub is_blank : String → Bool
is_blank raw = str_eq (trim_space raw) ""

-- Whether an allowed name is a host's name, up to the brackets of an IPv6 address.
abbrev pub other_name : String → String → Option String → Bool
other_name a h (some inner) = str_eq a inner
other_name a h none = str_eq a (bracketed h)

abbrev pub is_name_of : String → String → Bool
is_name_of a h = str_eq a h || other_name a h (in_brackets h)

abbrev pub is_served : Checked → Bool
is_served served = true
is_served invalid_origin = false
is_served invalid_host = false

pick_else {ℓ} : {A : Type ℓ} (b : Bool) (x y : A) → b ≡ false → (if b then x else y) ≡ y
pick_else true x y h = absurd (ground arith)
pick_else false x y h = refl

module _ (u : Urls) where
  -- Whether an entry of the configuration names the host, in any case.
  abbrev pub is_named : List String → String → Bool
  is_named entries host =
      any (λ raw. not (is_blank raw) && is_name_of (u.lower (trim_space raw)) (u.lower host))
        entries

  abbrev pub listed : List String → String → Bool
  listed entries x = any (λ raw. not (is_blank raw) && str_eq (u.lower (trim_space raw)) x) entries

  add_hosts-listed :
      (entries : List String) (v : OriginValidator) (x : String)
      → IsPlain entries
      → contains (add_hosts u entries v).allowed x ≡ (contains v.allowed x || listed entries x)
  unfolding add_hosts
  add_hosts-listed [] v x h = ground arith
  add_hosts-listed (raw ∷ entries) v x (plain, h) =
      let skipped = add_hosts-listed entries v x h in
      let added =
        add_hosts-listed entries (record v { allowed = u.lower (trim_space raw) ∷ v.allowed }) x
          h in
      elim (Bool-cases (is_blank raw)) [
        | inl e ↦ rw (e, add_hosts) skipped
        | inr e ↦ rw (e, plain, add_hosts) (ground (arith, added))
      ]

  add_hosts-tame :
      (entries : List String) (v : OriginValidator)
      → IsPlain entries
      → v.wild_all ≡ false
      → (add_hosts u entries v).wild_all ≡ false
  unfolding add_hosts
  add_hosts-tame [] v h t = t
  add_hosts-tame (raw ∷ entries) v (plain, h) t =
      let skipped = add_hosts-tame entries v h t in
      let added =
        add_hosts-tame entries (record v { allowed = u.lower (trim_space raw) ∷ v.allowed }) h t in
      elim (Bool-cases (is_blank raw)) [ inl e ↦ rw e skipped | inr e ↦ rw (e, plain) added ]

  abbrev spelling_of : String → Option String → String
  spelling_of h (some inner) = inner
  spelling_of h none = bracketed h

  other_spelling-contains :
      (allowed : List String) (h : String) (o : Option String)
      → other_spelling allowed h o ≡ contains allowed (spelling_of h o)
  other_spelling-contains allowed h none = refl
  other_spelling-contains allowed h (some inner) = refl

  other_name-eq : (a h : String) (o : Option String) → other_name a h o ≡ str_eq a (spelling_of h o)
  other_name-eq a h none = refl
  other_name-eq a h (some inner) = refl

  is_named-listed :
      (entries : List String) (host : String)
      → is_named entries host ≡ (
          listed entries (u.lower host)
          || listed entries (spelling_of (u.lower host) (in_brackets (u.lower host))))
  is_named-listed [] host = refl
  is_named-listed (raw ∷ entries) host =
      rw (other_name-eq (u.lower (trim_space raw)) (u.lower host) (in_brackets (u.lower host)))
        (ground (arith, is_named-listed entries host))

  host_allowed-is_named :
      (entries : List String) (host : String)
      → IsPlain entries
      → host_allowed u (new_origin_validator u entries) host ≡ is_named entries host
  unfolding host_allowed new_origin_validator
  host_allowed-is_named entries host h =
      let start : OriginValidator = record { allowed = []; wild_all = false } in
      let tame = add_hosts-tame entries start h refl in
      let here = add_hosts-listed entries start (u.lower host) h in
      let there =
        add_hosts-listed entries start (spelling_of (u.lower host) (in_brackets (u.lower host)))
          h in
      rw (is_named-listed entries host) (
        rw tame (
          rw
            (other_spelling-contains (add_hosts u entries start).allowed (u.lower host)
              (in_brackets (u.lower host)))
            (rw here (rw there refl))))

  -- Whether an Origin header is absent or its host is named.
  abbrev pub origin_named : List String → Option String → Bool
  origin_named entries none = false
  origin_named entries (some host) = not (str_eq host "") && is_named entries (strip_port u host)

  some-listed :
      (entries : List String)
      → any (λ raw. not (is_blank raw)) entries ≡ true
      → (x : String) × (listed entries x ≡ true)
  some-listed [] h = absurd (ground arith)
  some-listed (raw ∷ entries) h = elim (Bool-cases (is_blank raw)) [
    | inr e ↦ (u.lower (trim_space raw), rw (e, str-eq_refl (u.lower (trim_space raw))) refl)
    | inl e ↦ let (x, found) = some-listed entries (rw e at h) in (x, rw e found)
  ]

  full-contains : (xs : List String) (x : String) → contains xs x ≡ true → is_empty xs ≡ false
  full-contains [] x h = absurd (ground arith)
  full-contains (y ∷ ys) x h = refl

  allowed-full :
      (entries : List String)
      → IsPlain entries
      → any (λ raw. not (is_blank raw)) entries ≡ true
      → is_empty (new_origin_validator u entries).allowed ≡ false
  unfolding new_origin_validator
  allowed-full entries h some_entry =
      let start : OriginValidator = record { allowed = []; wild_all = false } in
      let (x, found) = some-listed entries some_entry in
      full-contains (add_hosts u entries start).allowed x
        (rw (add_hosts-listed entries start x h) found)

  new_origin_validator-tame :
      (entries : List String) → IsPlain entries → (new_origin_validator u entries).wild_all ≡ false
  unfolding new_origin_validator
  new_origin_validator-tame entries h =
      add_hosts-tame entries (record { allowed = []; wild_all = false }) h refl

  origin_allowed-named :
      (entries : List String) (o : Option String)
      → IsPlain entries
      → origin_allowed u (new_origin_validator u entries) o ≡ origin_named entries o
  origin_allowed-named entries none h = refl
  origin_allowed-named entries (some host) h =
      rw (host_allowed-is_named entries (strip_port u host) h) refl

  checks_headers :
      (v : OriginValidator) (origin host : String)
      → is_empty v.allowed ≡ false
      → v.wild_all ≡ false
      → validate_origin u (some v) origin host ≡ check_headers u v origin host
  unfolding validate_origin
  checks_headers v origin host full tame =
      let guarded : (is_empty v.allowed || v.wild_all) ≡ false = ground (arith, full, tame) in
      pick_else (is_empty v.allowed || v.wild_all) served (check_headers u v origin host) guarded

  headers-named :
      (entries : List String) (origin host : String)
      → IsPlain entries
      → is_served (check_headers u (new_origin_validator u entries) origin host) ≡ (
          is_named entries (strip_port u host)
          && (str_eq origin "" || origin_named entries (u.origin_host origin)))
  unfolding check_headers check_host
  headers-named entries origin host h =
      rw (origin_allowed-named entries (u.origin_host origin) h)
        (rw (host_allowed-is_named entries (strip_port u host) h) (ground arith))

  -- Where the entries hold no wildcard and one is not blank: a request is served exactly if an entry
  -- names the host of its Host header and, where it has an Origin header, the host of that, each in any
  -- case and without its port.
  pub served_iff_named :
      (entries : List String) (origin host : String)
      → IsPlain entries
      → any (λ raw. not (is_blank raw)) entries ≡ true
      → is_served (validate_origin u (some (new_origin_validator u entries)) origin host) ≡ (
          is_named entries (strip_port u host)
          && (str_eq origin "" || origin_named entries (u.origin_host origin)))
  unfolding validate_origin
  served_iff_named entries origin host h some_entry =
      let full = allowed-full entries h some_entry in
      let tame = new_origin_validator-tame entries h in
      ap is_served (checks_headers (new_origin_validator u entries) origin host full tame)
      ∙ headers-named entries origin host h
