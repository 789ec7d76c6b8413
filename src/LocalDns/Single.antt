-- ===== src/LocalDns/Single.antt =====
-- internal/tools/localdns.go: when a delete handler writes at all.
use pihole_mcp.Prelude.{
  ◌≡◌, refl, ◌⊎◌, inl, inr, ℕ, String, Bool, Option, none, some, List, [], ◌∷◌, keep,
}
use pihole_mcp.Json.{Json}
use pihole_mcp.Sync.Readers.{Escaping}
use pihole_mcp.LocalDns.{
  RecordField, hosts, local_records, records_matching, resolve_one, resolved_of, Removal, Lookups,
  host_matches, host_removal, validate_ip_address,
}
use pihole_mcp.LocalDns.Handlers.{
  DnsCalls, DnsAnswer, HostRequest, remove_record, remove_locked, local_dns_delete, delete_host,
  delete_host_at,
}

module _ {A W : Type 0} (lib : Lookups A) (esc : Escaping) (show_number : ℕ → String)
    (calls : DnsCalls W) (P : W → Type 0) where
  -- What the locks and the read leave as it is.
  abbrev pub LookingKeeps : Type 0
  LookingKeeps =
      ((f : RecordField) (w : W) → P w → P (calls.lock f w))
      × ((f : RecordField) (w : W) → P w → P (calls.unlock f w))
      × ((w : W) → P w → P (calls.get_config w).1)

  -- The one record among those read under the lock that matches, and the removal that is sent for it.
  abbrev pub RemovesOne :
      RecordField
      → Bool
      → (String → Bool)
      → (List String → String → Removal)
      → W
      → DnsAnswer × W
      → Type 0
  RemovesOne field restart matches removal w result =
      (config : Json) × (original : String) × ((calls.get_config (calls.lock field w)).0
        ≡ inr config)
      × (keep matches (local_records field config) ≡ original ∷ [])
      × (result ≡ (
          let (answer, w') =
            remove_record lib esc show_number calls field restart
              (removal (local_records field config) original)
              (calls.get_config (calls.lock field w)).1 in
          (answer, calls.unlock field w')))

  resolved-cases :
      (found : List String)
      → ((original : String) × (found ≡ original ∷ []))
        ⊎ (resolved_of found ≡ records_matching found)
  resolved-cases [] = inr refl
  resolved-cases (x ∷ []) = inl (x, refl)
  resolved-cases (x ∷ y ∷ found) = inr refl

  remove_locked-cases :
      (field : RecordField) (restart : Bool) (matches : String → Bool)
      (removal : List String → String → Removal) (w : W) (config : String ⊎ Json)
      → (calls.get_config (calls.lock field w)).0 ≡ config
      → LookingKeeps
      → P w
      → P (remove_locked lib esc show_number calls field restart matches removal w).1
        ⊎ RemovesOne field restart matches removal w
            (remove_locked lib esc show_number calls field restart matches removal w)
  unfolding remove_locked resolve_one
  remove_locked-cases field restart matches removal w (inl e) c (locks, unlocks, reads) p =
      inl (rw c (unlocks field _ (reads _ (locks field w p))))
  remove_locked-cases field restart matches removal w (inr config) c (locks, unlocks, reads) p =
      elim (resolved-cases (keep matches (local_records field config))) [
        | inl (original, one) ↦ inr (config, original, c, one, rw c (rw one refl))
        | inr several ↦ inl (rw c (rw several (unlocks field _ (reads _ (locks field w p)))))
      ]

  -- The one record that matches the address and the host name of the request, which both stand in
  -- it, and the removal of that host name from that record.
  abbrev pub OneHost : HostRequest → W → DnsAnswer × W → Type 0
  OneHost req w result =
      (ip : String) × (addr : A) × (hostname : String) × (req.ip ≡ some ip)
      × (validate_ip_address lib ip ≡ some addr)
      × (req.hostname ≡ some hostname)
      × RemovesOne hosts req.restart (host_matches lib addr hostname)
          (λ records rec. host_removal lib records hostname rec) w result

  host_at-cases :
      (req : HostRequest) (ip hostname : String) (w : W)
      → req.ip ≡ some ip
      → req.hostname ≡ some hostname
      → (addr : Option A) → validate_ip_address lib ip ≡ addr
      → LookingKeeps
      → P w
      → P (delete_host_at lib esc show_number calls hostname req.restart addr w).1
        ⊎ OneHost req w (delete_host_at lib esc show_number calls hostname req.restart addr w)
  host_at-cases req ip hostname w i h none v k p = inl p
  host_at-cases req ip hostname w i h (some addr) v k p =
      elim (remove_locked-cases hosts req.restart (host_matches lib addr hostname)
        (λ records rec. host_removal lib records hostname rec) w
        (calls.get_config (calls.lock hosts w)).0 refl k p) [
          | inl kept ↦ inl kept
          | inr one ↦ inr (ip, addr, hostname, i, v, h, one)
        ]

  host-cases :
      (req : HostRequest) (ip hostname : Option String) (w : W)
      → req.ip ≡ ip
      → req.hostname ≡ hostname
      → LookingKeeps
      → P w
      → P (delete_host lib esc show_number calls ip hostname req.restart w).1
        ⊎ OneHost req w (delete_host lib esc show_number calls ip hostname req.restart w)
  host-cases req none hostname w i h k p = inl p
  host-cases req (some ip) none w i h k p = inl p
  host-cases req (some ip) (some hostname) w i h k p =
      host_at-cases req ip hostname w i h (validate_ip_address lib ip) refl k p

  -- A delete of a host name leaves what locking and reading leave, or the request names an address
  -- and a host name, exactly one of the records read under the lock matches these two, and the
  -- handler sends the removal of that host name from that record before it unlocks.
  pub host_delete_writes_one :
      (req : HostRequest) (w : W)
      → LookingKeeps
      → P w
      → P (local_dns_delete lib esc show_number calls req w).1
        ⊎ OneHost req w (local_dns_delete lib esc show_number calls req w)
  unfolding local_dns_delete
  host_delete_writes_one req w k p = host-cases req req.ip req.hostname w refl refl k p
