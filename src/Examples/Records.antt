-- ===== src/Examples/Records.antt =====
-- The local DNS tools of internal/tools/localdns.go on a Pi-hole with two host records and two CNAME
-- records, one of each with several names.
use pihole_mcp.Prelude.{
  ℕ, ◌+◌, ◌≡◌, refl, ◌⊎◌, inr, String, true, ◌&&◌, not, none, some, List, [], ◌∷◌, str_eq, keep,
  any, join, fields, split_by, is_space, trim_space,
}
use pihole_mcp.Json.{object, member, no_members, array, element, no_elements, text}
use pihole_mcp.Sync.Readers.{Escaping}
use pihole_mcp.LocalDns.{
  Lookups, host_matches, host_removal, alias_matches, cname_removal, split_cname,
}
use pihole_mcp.LocalDns.Handlers.{DnsCalls, HostRequest, local_dns_delete}
use pihole_mcp.LocalDns.Removed.{after_removal}
use pihole_mcp.LocalDns.Hosts.{host_serves, host_targeted, only_named_host_goes}
use pihole_mcp.LocalDns.Aliases.{
  split_cname-join, cname_serves, alias_targeted, only_named_alias_goes,
}
use pihole_mcp.LocalDns.Single.{OneHost, host_delete_writes_one}

abbrev lib : Lookups String
lib = record {
  parse_addr = λ s. some s;
  same_addr = str_eq;
  zone = λ a. "";
  unmap = λ a. a;
  show_addr = λ a. a;
  equal_fold = str_eq;
  is_number = λ s. str_eq s "60";
}

abbrev host_records : List String
host_records = "10.0.0.5 nas nas.home" ∷ "10.0.0.6 tv" ∷ []

abbrev cname_list : List String
cname_list = "files, nas,server.home,60" ∷ "tv,box.home" ∷ []

host_found : keep (host_matches lib "10.0.0.5" "nas") host_records ≡ "10.0.0.5 nas nas.home" ∷ []
unfolding host_matches fields split_by is_space
host_found = refl

only_named_host_goes_example :
    any
      (λ rec. host_serves rec ("10.0.0.5", "nas.home"))
      (after_removal (host_removal lib host_records "nas" "10.0.0.5 nas nas.home") host_records)
    ≡ (any (λ rec. host_serves rec ("10.0.0.5", "nas.home")) host_records
        && not (host_targeted lib "10.0.0.5" "nas" ("10.0.0.5", "nas.home")))
only_named_host_goes_example =
    only_named_host_goes lib "10.0.0.5" "nas" host_records "10.0.0.5 nas nas.home"
      ("10.0.0.5", "nas.home") host_found

alias_found : keep (alias_matches lib "nas") cname_list ≡ "files, nas,server.home,60" ∷ []
unfolding alias_matches split_cname split_by trim_space is_space
alias_found = refl

only_named_alias_goes_example :
    any
      (λ rec. cname_serves lib rec ("files", "server.home,60"))
      (after_removal (cname_removal lib cname_list "nas" "files, nas,server.home,60") cname_list)
    ≡ (any (λ rec. cname_serves lib rec ("files", "server.home,60")) cname_list
        && not (alias_targeted lib "nas" ("files", "server.home,60")))
only_named_alias_goes_example =
    only_named_alias_goes lib "nas" cname_list "files, nas,server.home,60"
      ("files", "server.home,60") alias_found

parts_clean : (trim_space "a" ≡ "a") × (trim_space "b" ≡ "b") × (trim_space "60" ≡ "60")
unfolding trim_space is_space
parts_clean = (refl, refl, refl)

split_cname-join_example :
    split_cname lib.is_number (join "," ("a" ∷ "b" ∷ "60" ∷ [])) ≡ ("a" ∷ [], "b" ∷ "60" ∷ [])
split_cname-join_example =
    split_cname-join lib.is_number "a" [] ("b" ∷ "60" ∷ [])
      ((refl, parts_clean.0), ((refl, parts_clean.1), ((refl, parts_clean.2), tt))) refl

-- A Pi-hole that counts the writes it gets.
abbrev dns_calls : DnsCalls ℕ
dns_calls = record {
  lock = λ f w. w;
  unlock = λ f w. w;
  get_config = λ w. (
    inr (
        object (
          member "dns"
            (object (member "hosts" (array (element (text "10.0.0.6 tv") no_elements)) no_members))
            no_members)),
    w,
  );
  put = λ p w. (none, w + 1);
  delete = λ p w. (none, w + 1);
  patch = λ r f recs w. (none, w + 1);
  restarts_for = λ f r w. (r, w);
  clock = λ w. (w, w);
  restart_note = λ waits sent w. ("", w);
}

abbrev plain : Escaping
plain = record { path_escape = λ s. s; query_escape = λ s. s }

abbrev request : HostRequest
request = record { ip = some "10.0.0.6"; hostname = some "tv"; restart = true }

host_delete_writes_one_example :
    ((local_dns_delete lib plain (λ n. "60") dns_calls request 0).1 ≡ 0)
    ⊎ OneHost lib plain
        (λ n. "60")
        dns_calls
        (λ w. w ≡ 0)
        request
        0
        (local_dns_delete lib plain (λ n. "60") dns_calls request 0)
host_delete_writes_one_example =
    host_delete_writes_one lib plain (λ n. "60") dns_calls (λ w. w ≡ 0) request 0
      ((λ f w p. p), (λ f w p. p), (λ w p. p)) refl
