-- ===== src/LocalDns.antt =====
-- internal/tools/localdns.go: the tools for local A, AAAA and CNAME records. `A` is an IP address of
-- net/netip and `W` the world that the API calls change; `strings.EqualFold` and `strconv.Atoi` are
-- parameters too. The texts of the answers are not here.
pub mod Handlers
pub mod Removed
pub mod Names
pub mod Hosts
pub mod Parts
pub mod Aliases
pub mod Single
use Prim.Native.String
use pihole_mcp.Prelude.{
  ◌⊎◌, inl, inr, ℕ, ◌-◌, String, Bool, true, false, ◌&&◌, not, Option, none, some, List, [], ◌∷◌,
  ◌++◌, map, ltb, leb, str_eq, if◌then◌else◌, length, keep, any, contains, take, drop, last, join,
  split_by, is_char, fields, trim_space, or_else,
}
use pihole_mcp.Json.{Json, get_member, members_of, elements_of, texts_of}
use pihole_mcp.Sync.Readers.{Escaping, escape_path_segment}

-- The array of the configuration that a tool changes.
pub data RecordField : Type 0 where
  hosts : RecordField
  cname_records : RecordField

abbrev pub field_name : RecordField → String
field_name hosts = "hosts"
field_name cname_records = "cnameRecords"

abbrev pub max_ttl : ℕ
max_ttl = 604800

-- `readLocalRecords`, from the configuration that the reply holds.
unfoldable pub local_records : RecordField → Json → List String
local_records field config = texts_of (
    elements_of (get_member (field_name field) (members_of (get_member "dns" (members_of config)))))

unfoldable pub record_path : Escaping → RecordField → String → Bool → String
record_path esc field record_ restart =
    let path =
      String.◌++◌ "/config/dns/"
        (String.◌++◌ (field_name field) (String.◌++◌ "/" (escape_path_segment esc record_))) in
    if restart then path else String.◌++◌ path "?restart=false"

module _ (is_number : String → Bool) where
  -- `end` of `splitCNAME`: a trailing number is the TTL.
  unfoldable pub cname_end : List String → ℕ
  cname_end parts =
      let n = length parts in if ltb 2 n && is_number (last "" parts) then n - 1 else n

  unfoldable pub cut_parts : List String → List String × List String
  unfolding cname_end
  cut_parts parts =
      let end_ = cname_end parts in
      if ltb end_ 2 then (parts, []) else (take (end_ - 1) parts, drop (end_ - 1) parts)

  -- `splitCNAME`: the aliases, and the target with its TTL.
  unfoldable pub split_cname : String → List String × List String
  unfolding cut_parts
  split_cname rec = cut_parts (map trim_space (split_by (is_char b',') rec))

-- Why `resolveOne` finds no single record: how many match.
pub data Resolved : Type 0 where
  one_record : String → Resolved
  records_matching : List String → Resolved

abbrev pub resolved_of : List String → Resolved
resolved_of (rec ∷ []) = one_record rec
resolved_of found = records_matching found

unfoldable pub resolve_one : List String → (String → Bool) → Resolved
resolve_one records match_ = resolved_of (keep match_ records)

-- The loop of `replaceLocalRecord`.
unfoldable pub replace_records : List String → String → String → List String → List String
replace_records records original remaining [] = []
replace_records records original remaining (rec ∷ recs) =
    let rest = replace_records records original remaining recs in
    if not (str_eq rec original)
    then rec ∷ rest
    else if contains records remaining
    then rest
    else remaining ∷ rest

-- The change that a delete sends: an item dropped, or the whole setting with an item replaced.
pub data Removal : Type 0 where
  drop_record : String → Removal
  write_records : List String → Removal

unfoldable pub remove_name : List String → String → List String → String → Removal
unfolding replace_records
remove_name records original [] remaining = drop_record original
remove_name records original (k ∷ kept) remaining =
    write_records (replace_records records original remaining records)

-- An address library, and what of strings and strconv is not written out.
pub record Lookups (A : Type 0) : Type 0 where
  pub parse_addr : String → Option A
  pub same_addr : A → A → Bool
  pub zone : A → String
  pub unmap : A → A
  pub show_addr : A → String
  pub equal_fold : String → String → Bool
  -- `strconv.Atoi` accepts it
  pub is_number : String → Bool

module _ {A : Type 0} (lib : Lookups A) where
  abbrev pub parsed_same : Option A → A → Bool
  parsed_same none addr = false
  parsed_same (some a) addr = lib.same_addr a addr

  -- `sameAddr`
  unfoldable pub same_addr : String → A → Bool
  same_addr stored addr = parsed_same (lib.parse_addr stored) addr

  -- Whether a line's words are the address and, among others, the name.
  unfoldable pub words_match : A → String → List String → Bool
  unfolding same_addr
  words_match addr hostname [] = false
  words_match addr hostname (ip ∷ names) =
      same_addr ip addr && any (λ name. lib.equal_fold name hostname) names

  unfoldable pub host_matches : A → String → String → Bool
  unfolding words_match
  host_matches addr hostname rec = words_match addr hostname (fields rec)

  abbrev pub other_names : String → List String → List String
  other_names hostname names = keep (λ name. not (lib.equal_fold name hostname)) names

  abbrev pub host_words_removal : List String → String → String → List String → Removal
  host_words_removal records hostname match_ [] = drop_record match_
  host_words_removal records hostname match_ (ip ∷ names) =
      let kept = other_names hostname names in
      remove_name records match_ kept (String.◌++◌ ip (String.◌++◌ " " (join " " kept)))

  -- What `localDNSDeleteHandler` does to the one record that matches.
  unfoldable pub host_removal : List String → String → String → Removal
  host_removal records hostname match_ = host_words_removal records hostname match_ (fields match_)

  unfoldable pub alias_matches : String → String → Bool
  alias_matches alias rec = any (λ a. lib.equal_fold a alias) (split_cname lib.is_number rec).0

  -- What `localCNAMEDeleteHandler` does to the one record that matches.
  unfoldable pub cname_removal : List String → String → String → Removal
  cname_removal records alias match_ =
      let (aliases, rest) = split_cname lib.is_number match_ in
      let kept = other_names alias aliases in
      remove_name records match_ kept (join "," (kept ++ rest))

  abbrev pub unzoned : Option A → Option A
  unzoned none = none
  unzoned (some a) = if str_eq (lib.zone a) "" then some (lib.unmap a) else none

  -- `validateIPAddress`, `none` for its errors.
  unfoldable pub validate_ip_address : String → Option A
  validate_ip_address s = unzoned (lib.parse_addr (trim_space s))
