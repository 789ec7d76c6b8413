-- ===== src/Validate.antt =====
-- internal/tools/validate.go: the checks of arguments. A text holds characters, so every text here is
-- valid UTF-8. `regexp.Compile` and `url.Parse` are parameters; of the messages only the case is kept.
use Prim.Native.Char.{code}
use pihole_mcp.Prelude.{
  ℕ, ◌+◌, String, Bool, true, false, ◌&&◌, ◌||◌, not, Option, none, some, List, [], ◌∷◌, ltb, leb,
  ◌==◌, str_eq, if◌then◌else◌, contains, split_by, is_char,
}

pub data Invalid : Type 0 where
  empty : Invalid
  too_long : Invalid
  odd_characters : Invalid
  shell_characters : Invalid
  empty_label : Invalid
  long_label : Invalid
  bad_regex : Invalid
  bad_url : Invalid
  no_host : Invalid
  no_path : Invalid
  no_scheme : Invalid
  odd_scheme : Invalid
  out_of_range : Invalid
  not_one_of : List String → Invalid

abbrev pub max_domain_length : ℕ
max_domain_length = 253

abbrev pub max_label_length : ℕ
max_label_length = 63

abbrev pub max_regex_length : ℕ
max_regex_length = 1024

-- `len` of a text: the bytes of its UTF-8 form.
abbrev pub char_bytes : ℕ → ℕ
char_bytes n = if ltb n 128 then 1 else if ltb n 2048 then 2 else if ltb n 65536 then 3 else 4

unfoldable pub byte_len : String → ℕ
byte_len String.[] = 0
byte_len (String.◌∷◌ c s) = char_bytes (code c) + byte_len s

abbrev pub has_code : List ℕ → ℕ → Bool
has_code [] n = false
has_code (m ∷ ms) n = n == m || has_code ms n

-- `strings.ContainsAny`
unfoldable pub contains_any : List ℕ → String → Bool
contains_any ms String.[] = false
contains_any ms (String.◌∷◌ c s) = has_code ms (code c) || contains_any ms s

-- `utf8.RuneCountInString`
unfoldable pub rune_count : String → ℕ
rune_count String.[] = 0
rune_count (String.◌∷◌ c s) = 1 + rune_count s

-- `hasBackreference`: an escaped character is skipped.
unfoldable pub has_backreference : String → Bool
has_backreference String.[] = false
has_backreference (String.◌∷◌ c String.[]) = false
has_backreference (String.◌∷◌ c (String.◌∷◌ d s)) =
    let next = has_backreference (String.◌∷◌ d s) in
    let skipped = has_backreference s in
    if not (code c == b'\\')
    then next
    else if leb b'1' (code d) && leb (code d) b'9'
    then true
    else skipped

unfoldable pub validate_domain_regex : (String → Bool) → String → Option Invalid
unfolding has_backreference byte_len contains_any
validate_domain_regex compiles s =
    if str_eq s ""
    then some empty
    else if ltb max_regex_length (byte_len s)
    then some too_long
    else if contains_any (9 ∷ 13 ∷ 10 ∷ 0 ∷ []) s
    then some odd_characters
    else if has_backreference s
    then none
    else if compiles s
    then none
    else some bad_regex

-- The loop over the labels; the flag is `i == 0`.
unfoldable pub check_labels : Bool → List String → Option Invalid
unfolding byte_len
check_labels start [] = none
check_labels start (label ∷ labels) =
    let rest = check_labels false labels in
    if start && str_eq label "*"
    then rest
    else if str_eq label ""
    then some empty_label
    else if ltb max_label_length (byte_len label)
    then some long_label
    else rest

abbrev pub shell_metacharacters : List ℕ
shell_metacharacters = b'\'' ∷ b'"' ∷ b';' ∷ b'`' ∷ b'$' ∷ b'<' ∷ b'>' ∷ b'|' ∷ b'&' ∷ []

unfoldable pub validate_exact_domain : String → Option Invalid
unfolding byte_len contains_any check_labels
validate_exact_domain s =
    if str_eq s ""
    then some empty
    else if ltb max_domain_length (byte_len s)
    then some too_long
    else if contains_any (32 ∷ 9 ∷ 13 ∷ 10 ∷ 0 ∷ []) s
    then some odd_characters
    else if contains_any shell_metacharacters s
    then some shell_characters
    else check_labels true (split_by (is_char b'.') s)

unfoldable pub validate_domain_name : (String → Bool) → String → String → Option Invalid
validate_domain_name compiles s kind =
    if str_eq kind "regex" then validate_domain_regex compiles s else validate_exact_domain s

-- A URL as `url.Parse` makes it, its scheme in lower case.
pub record ParsedUrl : Type 0 where
  pub scheme : String
  pub host : String
  pub path : String

abbrev pub check_scheme : Option ParsedUrl → Option Invalid
check_scheme none = some bad_url
check_scheme (some u) =
    if str_eq u.scheme "http" || str_eq u.scheme "https"
    then (if str_eq u.host "" then some no_host else none)
    else if str_eq u.scheme "file"
    then (if str_eq u.path "" then some no_path else none)
    else if str_eq u.scheme ""
    then some no_scheme
    else some odd_scheme

unfoldable pub validate_url : (String → Option ParsedUrl) → String → Option Invalid
unfolding contains_any
validate_url parse s =
    if str_eq s ""
    then some empty
    else if contains_any (32 ∷ 9 ∷ 13 ∷ 10 ∷ 0 ∷ []) s
    then some odd_characters
    else check_scheme (parse s)

unfoldable pub validate_max_length : String → ℕ → Option Invalid
unfolding rune_count
validate_max_length s max_runes = if ltb max_runes (rune_count s) then some too_long else none

-- `validateIntRange` on numbers that are not negative.
unfoldable pub validate_int_range : ℕ → ℕ → ℕ → Option Invalid
validate_int_range v low high = if ltb v low || ltb high v then some out_of_range else none

abbrev pub domain_types : List String
domain_types = "allow" ∷ "deny" ∷ []

abbrev pub domain_kinds : List String
domain_kinds = "exact" ∷ "regex" ∷ []

abbrev pub list_types : List String
list_types = "allow" ∷ "block" ∷ []

unfoldable pub check_enum : String → List String → Option Invalid
check_enum v allowed = if contains allowed v then none else some (not_one_of allowed)

abbrev pub kind_after : String → Option Invalid → Option Invalid
kind_after k none = check_enum k domain_kinds
kind_after k (some why) = some why

unfoldable pub check_domain_type_kind : String → String → Option Invalid
check_domain_type_kind t k = kind_after k (check_enum t domain_types)
