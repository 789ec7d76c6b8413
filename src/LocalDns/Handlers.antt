-- ===== src/LocalDns/Handlers.antt =====
-- internal/tools/localdns.go: the four handlers that change records, over the calls that they make.
use Prim.Native.String
use pihole_mcp.Prelude.{◌⊎◌, inl, inr, ℕ, String, Bool, Option, none, some, List}
use pihole_mcp.Json.{Json}
use pihole_mcp.Sync.Readers.{Escaping}
use pihole_mcp.Validate.{Invalid, validate_exact_domain, validate_int_range}
use pihole_mcp.LocalDns.{
  RecordField, hosts, cname_records, max_ttl, local_records, record_path, Resolved, one_record,
  records_matching, resolve_one, Removal, drop_record, write_records, Lookups, host_matches,
  host_removal, alias_matches, cname_removal, validate_ip_address,
}

-- The calls on one Pi-hole: each answers an error text or nil.
pub record DnsCalls (W : Type 0) : Type 0 where
  pub lock : RecordField → W → W
  pub unlock : RecordField → W → W
  -- `GET /config/dns`
  pub get_config : W → (String ⊎ Json) × W
  pub put : String → W → Option String × W
  pub delete : String → W → Option String × W
  -- `PATCH` of a whole setting; the flag is `restart`
  pub patch : Bool → RecordField → List String → W → Option String × W
  pub restarts_for : RecordField → Bool → W → Bool × W
  pub clock : W → ℕ × W
  pub restart_note : Bool → ℕ → W → String × W

pub data DnsAnswer : Type 0 where
  missing : String → DnsAnswer
  bad_address : DnsAnswer
  bad_argument : String → Invalid → DnsAnswer
  call_failed : String → DnsAnswer
  -- none or several records match, so nothing is deleted
  unresolved : List String → DnsAnswer
  done : String → DnsAnswer

pub record HostRequest : Type 0 where
  pub ip : Option String
  pub hostname : Option String
  pub restart : Bool

pub record CnameRequest : Type 0 where
  pub alias : Option String
  pub target : Option String
  -- an absent or negative ttl is `none`
  pub ttl : Option ℕ
  pub restart : Bool

module _ {A W : Type 0} (lib : Lookups A) (esc : Escaping) (show_number : ℕ → String)
    (calls : DnsCalls W) where
  -- What follows a write that was sent at `sent`.
  abbrev pub answer_write : Bool → ℕ → Option String → W → DnsAnswer × W
  answer_write waits sent (some e) w = (call_failed e, w)
  answer_write waits sent none w =
      let (note, w') = calls.restart_note waits sent w in (done note, w')

  abbrev pub send_removal : RecordField → Bool → Removal → W → Option String × W
  send_removal field restart (drop_record rec) w =
      calls.delete (record_path esc field rec restart) w
  send_removal field restart (write_records recs) w = calls.patch restart field recs w

  unfoldable pub remove_record : RecordField → Bool → Removal → W → DnsAnswer × W
  remove_record field restart removal w =
      let (waits, w1) = calls.restarts_for field restart w in
      let (sent, w2) = calls.clock w1 in
      let (err, w3) = send_removal field restart removal w2 in answer_write waits sent err w3

  abbrev pub remove_resolved :
      RecordField → Bool → (String → Removal) → Resolved → W → DnsAnswer × W
  remove_resolved field restart removal (records_matching found) w = (unresolved found, w)
  remove_resolved field restart removal (one_record rec) w =
      remove_record field restart (removal rec) w

  -- A delete, from what was read under the lock; the removal depends on all records.
  abbrev pub remove_read :
      RecordField
      → Bool
      → (String → Bool)
      → (List String → String → Removal)
      → String ⊎ Json
      → W
      → DnsAnswer × W
  remove_read field restart match_ removal (inl e) w = (call_failed e, w)
  remove_read field restart match_ removal (inr config) w =
      let records = local_records field config in
      remove_resolved field restart (removal records) (resolve_one records match_) w

  unfoldable pub remove_locked :
      RecordField → Bool → (String → Bool) → (List String → String → Removal) → W → DnsAnswer × W
  remove_locked field restart match_ removal w =
      let (config, w1) = calls.get_config (calls.lock field w) in
      let (answer, w2) = remove_read field restart match_ removal config w1 in
      (answer, calls.unlock field w2)

  unfoldable pub add_locked : RecordField → Bool → String → W → DnsAnswer × W
  add_locked field restart rec w =
      let (waits, w1) = calls.restarts_for field restart (calls.lock field w) in
      let (sent, w2) = calls.clock w1 in
      let (err, w3) = calls.put (record_path esc field rec restart) w2 in
      let (answer, w4) = answer_write waits sent err w3 in (answer, calls.unlock field w4)

  abbrev pub delete_host_at : String → Bool → Option A → W → DnsAnswer × W
  delete_host_at hostname restart none w = (bad_address, w)
  delete_host_at hostname restart (some addr) w =
      remove_locked hosts restart (host_matches lib addr hostname)
        (λ records rec. host_removal lib records hostname rec) w

  abbrev pub delete_host : Option String → Option String → Bool → W → DnsAnswer × W
  delete_host none hostname restart w = (missing "ip", w)
  delete_host (some ip) none restart w = (missing "hostname", w)
  delete_host (some ip) (some hostname) restart w =
      delete_host_at hostname restart (validate_ip_address lib ip) w

  -- `localDNSDeleteHandler`
  unfoldable pub local_dns_delete : HostRequest → W → DnsAnswer × W
  local_dns_delete req w = delete_host req.ip req.hostname req.restart w

  abbrev pub add_host_named : String → Bool → A → Option Invalid → W → DnsAnswer × W
  add_host_named hostname restart addr (some why) w = (bad_argument "hostname" why, w)
  add_host_named hostname restart addr none w =
      add_locked hosts restart (String.◌++◌ (lib.show_addr addr) (String.◌++◌ " " hostname)) w

  abbrev pub add_host_at : String → Bool → Option A → W → DnsAnswer × W
  add_host_at hostname restart none w = (bad_address, w)
  add_host_at hostname restart (some addr) w =
      add_host_named hostname restart addr (validate_exact_domain hostname) w

  abbrev pub add_host : Option String → Option String → Bool → W → DnsAnswer × W
  add_host none hostname restart w = (missing "ip", w)
  add_host (some ip) none restart w = (missing "hostname", w)
  add_host (some ip) (some hostname) restart w =
      add_host_at hostname restart (validate_ip_address lib ip) w

  -- `localDNSAddHandler`
  unfoldable pub local_dns_add : HostRequest → W → DnsAnswer × W
  local_dns_add req w = add_host req.ip req.hostname req.restart w

  abbrev pub delete_alias : Option String → Bool → W → DnsAnswer × W
  delete_alias none restart w = (missing "alias", w)
  delete_alias (some alias) restart w =
      remove_locked cname_records restart (alias_matches lib alias)
        (λ records rec. cname_removal lib records alias rec) w

  -- `localCNAMEDeleteHandler`
  unfoldable pub local_cname_delete : CnameRequest → W → DnsAnswer × W
  local_cname_delete req w = delete_alias req.alias req.restart w

  -- The record to add, once the alias and the target are checked.
  abbrev pub add_ttl : String → Bool → Option ℕ → W → DnsAnswer × W
  add_ttl rec restart none w = add_locked cname_records restart rec w
  add_ttl rec restart (some ttl) w = in_range (validate_int_range ttl 0 max_ttl)
    where
      in_range : Option Invalid → DnsAnswer × W
      in_range (some why) = (bad_argument "ttl" why, w)
      in_range none =
          add_locked cname_records restart (String.◌++◌ rec (String.◌++◌ "," (show_number ttl))) w

  abbrev pub add_checked :
      String → String → Option ℕ → Bool → Option Invalid → Option Invalid → W → DnsAnswer × W
  add_checked alias target ttl restart (some why) bad w = (bad_argument "alias" why, w)
  add_checked alias target ttl restart none (some why) w = (bad_argument "target" why, w)
  add_checked alias target ttl restart none none w =
      add_ttl (String.◌++◌ alias (String.◌++◌ "," target)) restart ttl w

  abbrev pub add_cname : Option String → Option String → Option ℕ → Bool → W → DnsAnswer × W
  add_cname none target ttl restart w = (missing "alias", w)
  add_cname (some alias) none ttl restart w = (missing "target", w)
  add_cname (some alias) (some target) ttl restart w =
      add_checked alias target ttl restart (validate_exact_domain alias)
        (validate_exact_domain target) w

  -- `localCNAMEAddHandler`
  unfoldable pub local_cname_add : CnameRequest → W → DnsAnswer × W
  local_cname_add req w = add_cname req.alias req.target req.ttl req.restart w
