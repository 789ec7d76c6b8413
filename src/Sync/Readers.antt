-- ===== src/Sync/Readers.antt =====
-- internal/pihole/sync.go and escape.go: the readers, which turn what one Pi-hole lists into items.
-- net/url's `PathEscape` and `QueryEscape` are parameters; a reply is what encoding/json makes of
-- it. A value of `%v` for a flag is "true" or "false".
pub mod Laws
use Prim.Native.Char.{code}
use Prim.Native.String
use pihole_mcp.Prelude.{
  String, Bool, true, false, Option, none, some, List, [], ◌∷◌, ◌==◌, if◌then◌else◌, Map, insert,
}
use pihole_mcp.Sync.{
  Field, Write, WriteFunc, Item, ReadError, get_failed, no_list, bad_list, ReadResult, entries,
  unread,
}

-- `strings.ReplaceAll(s, "+", "%2B")`
unfoldable pub replace_plus : String → String
replace_plus String.[] = ""
replace_plus (String.◌∷◌ c s) =
    let rest = replace_plus s in
    if code c == b'+' then String.◌++◌ "%2B" rest else String.◌∷◌ c rest

pub record Escaping : Type 0 where
  pub path_escape : String → String
  pub query_escape : String → String

unfoldable pub escape_path_segment : Escaping → String → String
unfolding replace_plus
escape_path_segment esc s = replace_plus (esc.path_escape s)

-- The field of a reply that holds a list.
pub data Fetched (A : Type 0) : Type 0 where
  not_fetched : String → Fetched A
  absent : Fetched A
  null : Fetched A
  undecodable : String → Fetched A
  decoded : List A → Fetched A

pub data Listed (A : Type 0) : Type 0 where
  listed : List A → Listed A
  unlisted : ReadError → Listed A

unfoldable pub read_list_field : {A : Type 0} → String → String → Fetched A → Listed A
read_list_field path field (not_fetched why) = unlisted (get_failed why)
read_list_field path field absent = unlisted (no_list path field)
read_list_field path field null = unlisted (no_list path field)
read_list_field path field (undecodable why) = unlisted (bad_list path field why)
read_list_field path field (decoded items) = listed items

pub record Domain : Type 0 where
  pub type_ : String
  pub kind : String
  pub domain : String
  pub comment : String
  pub enabled : Bool

pub record AdList : Type 0 where
  pub type_ : String
  pub address : String
  pub comment : String
  pub enabled : Bool

pub record Group : Type 0 where
  pub name : String
  pub comment : String
  pub enabled : Bool

pub record ClientEntry : Type 0 where
  pub client : String
  pub comment : String

infixr 66 ◌+++◌
abbrev pub ◌+++◌ : String → String → String
s +++ t = String.◌++◌ s t

abbrev pub show_flag : Bool → String
show_flag true = "true"
show_flag false = "false"

abbrev pub settings : Bool → String → String
settings enabled comment = "enabled=" +++ show_flag enabled +++ ";comment=" +++ comment

abbrev pub request : String → String → List (String × Field) → WriteFunc
request method path body restart = record { method = method; path = path; body = body }

module _ (esc : Escaping) where
  unfoldable pub domain_item : Domain → Item
  unfolding escape_path_segment
  domain_item d =
      let base = "/domains/" +++ d.type_ +++ "/" +++ d.kind in
      let single = base +++ "/" +++ escape_path_segment esc d.domain in
      record {
        key = "domain|" +++ d.type_ +++ "|" +++ d.kind +++ "|" +++ d.domain;
        label = d.domain +++ " (" +++ d.type_ +++ "/" +++ d.kind +++ ")";
        compared = settings d.enabled d.comment;
        before = "";
        entry = single;
        add = request "POST" base (
            ("domain", Field.str d.domain)
            ∷ ("comment", Field.str d.comment)
            ∷ ("enabled", Field.flag d.enabled)
            ∷ []);
        update = some (
            request "PUT" single
              (("comment", Field.str d.comment) ∷ ("enabled", Field.flag d.enabled) ∷ []));
        delete = request "DELETE" single [];
      }

  unfoldable pub list_item : AdList → Item
  unfolding escape_path_segment
  list_item l =
      let single =
        "/lists/" +++ escape_path_segment esc l.address +++ "?type=" +++ esc.query_escape l.type_ in
      record {
        key = "list|" +++ l.type_ +++ "|" +++ l.address;
        label = l.address +++ " (" +++ l.type_ +++ ")";
        compared = settings l.enabled l.comment;
        before = "";
        entry = single;
        add = request "POST" ("/lists?type=" +++ esc.query_escape l.type_) (
            ("address", Field.str l.address)
            ∷ ("comment", Field.str l.comment)
            ∷ ("enabled", Field.flag l.enabled)
            ∷ []);
        update = some (
            request "PUT" single (
              ("comment", Field.str l.comment)
              ∷ ("enabled", Field.flag l.enabled)
              ∷ ("type", Field.str l.type_)
              ∷ []));
        delete = request "DELETE" single [];
      }

  unfoldable pub group_item : Group → Item
  unfolding escape_path_segment
  group_item g =
      let single = "/groups/" +++ escape_path_segment esc g.name in
      record {
        key = "group|" +++ g.name;
        label = g.name;
        compared = settings g.enabled g.comment;
        before = "";
        entry = single;
        add = request "POST" "/groups" (
            ("name", Field.str g.name)
            ∷ ("comment", Field.str g.comment)
            ∷ ("enabled", Field.flag g.enabled)
            ∷ []);
        update = some (
            request "PUT" single
              (("comment", Field.str g.comment) ∷ ("enabled", Field.flag g.enabled) ∷ []));
        delete = request "DELETE" single [];
      }

  unfoldable pub client_item : ClientEntry → Item
  unfolding escape_path_segment
  client_item c =
      let single = "/clients/" +++ escape_path_segment esc c.client in
      record {
        key = "client|" +++ c.client;
        label = c.client;
        compared = "comment=" +++ c.comment;
        before = "";
        entry = single;
        add =
            request "POST" "/clients"
              (("client", Field.str c.client) ∷ ("comment", Field.str c.comment) ∷ []);
        update = some (request "PUT" single (("comment", Field.str c.comment) ∷ []));
        delete = request "DELETE" single [];
      }

  -- An entry of a DNS array, an opaque text; only a field that restarts FTL says when not to.
  unfoldable pub dns_item : String → String → Bool → String → Item
  unfolding escape_path_segment
  dns_item field kind restarts s =
      let path = "/config/dns/" +++ field +++ "/" +++ escape_path_segment esc s in
      let path_for = λ (restart : Bool).
        if restarts then (if restart then path else path +++ "?restart=false") else path in
      record {
        key = kind +++ "|" +++ s;
        label = s;
        compared = "";
        before = "";
        entry = "";
        add = λ restart. record { method = "PUT"; path = path_for restart; body = [] };
        update = none;
        delete = λ restart. record { method = "DELETE"; path = path_for restart; body = [] };
      }

-- `m[key] = item` for each entry in turn
unfoldable pub items_map : {A : Type 0} → (A → Item) → List A → Map Item → Map Item
items_map item [] m = m
items_map item (a ∷ rest) m = items_map item rest (insert (item a).key (item a) m)

unfoldable pub read_items : {A : Type 0} → (A → Item) → Listed A → ReadResult
unfolding items_map
read_items item (unlisted why) = unread why
read_items item (listed items) = entries (items_map item items [])

unfoldable pub read_domains : Escaping → Fetched Domain → ReadResult
read_domains esc reply = read_items (domain_item esc) (read_list_field "/domains" "domains" reply)

unfoldable pub read_lists : Escaping → Fetched AdList → ReadResult
read_lists esc reply = read_items (list_item esc) (read_list_field "/lists" "lists" reply)

unfoldable pub read_groups : Escaping → Fetched Group → ReadResult
read_groups esc reply = read_items (group_item esc) (read_list_field "/groups" "groups" reply)

unfoldable pub read_clients : Escaping → Fetched ClientEntry → ReadResult
read_clients esc reply = read_items (client_item esc) (read_list_field "/clients" "clients" reply)

-- The elements of the array that are texts; what is no array was `absent`.
unfoldable pub read_dns_array : Escaping → String → String → Bool → Fetched String → ReadResult
read_dns_array esc field kind restarts reply =
    read_items (dns_item esc field kind restarts) (read_list_field "/config/dns" field reply)
