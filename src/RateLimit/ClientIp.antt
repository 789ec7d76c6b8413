-- ===== src/RateLimit/ClientIp.antt =====
-- internal/middleware/ratelimit.go: which address a request is charged to. Parsing and printing
-- addresses (net, net/netip) and splitting text (strings) are parameters.
use mathlib.Core.Path.{ap₂}
use mathlib.Core.List.{reverse, reverse-append, reverse-cons, append_assoc}
use pihole_mcp.Prelude.{
  String, ◌≡◌, refl, sym, ap, ◌∙◌, ◌⊎◌, inl, inr, Bool, true, false, ◌||◌, not, Option, none, some,
  List, [], ◌∷◌, ◌++◌, map, arith, str_eq, if◌then◌else◌, Bool-cases, keep, any,
}

pub record Addresses (A P : Type 0) : Type 0 where
  pub parse_addr : String → Option A
  pub unmap : A → A
  pub is4 : A → Bool
  pub show_addr : A → String
  -- `netip.PrefixFrom(addr, 64).Masked().String()`
  pub show_prefix64 : A → String
  pub contains : P → A → Bool
  -- the host of `net.SplitHostPort`, if it succeeds
  pub split_host_port : String → Option String
  -- `strings.Trim(addr, "[]")`
  pub trim_brackets : String → String
  pub split_comma : String → List String
  pub trim_space : String → String

pub record HttpRequest : Type 0 where
  pub remote_addr : String
  -- every X-Forwarded-For header, in order
  pub forwarded_for : List String

abbrev pub is_nil : {P : Type 0} → List P → Bool
is_nil [] = true
is_nil (p ∷ ps) = false

module _ {A P : Type 0} (net : Addresses A P) where
  unfoldable pub host_only : String → String
  host_only addr = elim (net.split_host_port addr) [
    | some host ↦ host
    | none ↦ net.trim_brackets addr
  ]

  unfoldable pub forwarded_chain : List String → List String
  forwarded_chain [] = []
  forwarded_chain (header ∷ headers) =
      keep (λ entry. not (str_eq entry "")) (map net.trim_space (net.split_comma header))
      ++ forwarded_chain headers

  unfoldable pub is_trusted : List P → A → Bool
  is_trusted trusted addr = any (λ prefix. net.contains prefix (net.unmap addr)) trusted

  -- The loop of `ClientIP` over the forwarded entries, rightmost first.
  unfoldable pub rightmost_untrusted : List P → String → List String → String
  rightmost_untrusted trusted peer [] = peer
  rightmost_untrusted trusted peer (entry ∷ rest) =
      let further = rightmost_untrusted trusted peer rest in
      elim (net.parse_addr (host_only entry)) [
        | none ↦ peer
        | some addr ↦
            if not (is_trusted trusted (net.unmap addr))
            then net.show_addr (net.unmap addr)
            else further
      ]

  -- The rest of `ClientIP`, from the parsed peer address on.
  abbrev pub resolve : List P → String → List String → Option A → String
  resolve trusted peer chain none = peer
  resolve trusted peer chain (some addr) =
      if is_nil trusted || not (is_trusted trusted addr)
      then net.show_addr (net.unmap addr)
      else rightmost_untrusted trusted (net.show_addr (net.unmap addr)) (reverse chain)

  unfoldable pub client_ip : List P → HttpRequest → String
  client_ip trusted r =
      let peer = host_only r.remote_addr in
      resolve trusted peer (forwarded_chain r.forwarded_for) (net.parse_addr peer)

  unfoldable pub rate_key : String → String
  rate_key ip = elim (net.parse_addr ip) [
    | none ↦ ip
    | some addr ↦
        if net.is4 (net.unmap addr)
        then net.show_addr (net.unmap addr)
        else net.show_prefix64 (net.unmap addr)
  ]

  -- An entry at which the loop stops: it does not parse, or it is no trusted proxy.
  abbrev pub IsHop : List P → String → Type 0
  IsHop trusted entry =
      (net.parse_addr (host_only entry) ≡ none)
      ⊎ ((addr : A) × (net.parse_addr (host_only entry) ≡ some addr)
          × (is_trusted trusted (net.unmap addr) ≡ false))

  rightmost_untrusted-hop :
      (trusted : List P) (peer hop : String) (right left left' : List String)
      → IsHop trusted hop
      → rightmost_untrusted trusted peer (right ++ hop ∷ left)
        ≡ rightmost_untrusted trusted peer (right ++ hop ∷ left')
  unfolding rightmost_untrusted
  rightmost_untrusted-hop trusted peer hop [] left left' (inl e) = rw e
  rightmost_untrusted-hop trusted peer hop [] left left' (inr (addr, e, u)) = rw e (rw u)
  rightmost_untrusted-hop trusted peer hop (entry ∷ right) left left' h =
      ground (arith, rightmost_untrusted-hop trusted peer hop right left left' h)

reverse-hop :
    (left right : List String) (hop : String)
    → reverse (left ++ hop ∷ right) ≡ reverse right ++ hop ∷ reverse left
reverse-hop left right hop = simp (reverse-append, reverse-cons, append_assoc)

module _ {A P : Type 0} (net : Addresses A P) where
  resolve-hop :
      (trusted : List P) (peer hop : String) (left left' right : List String) (o : Option A)
      → IsHop net trusted hop
      → resolve net trusted peer (left ++ hop ∷ right) o
        ≡ resolve net trusted peer (left' ++ hop ∷ right) o
  resolve-hop trusted peer hop left left' right none h = refl
  resolve-hop trusted peer hop left left' right (some addr) h =
      elim (Bool-cases (is_nil trusted || not (is_trusted net trusted addr))) [
        | inl e ↦ rw e
        | inr e ↦ rw e (
            rw (reverse-hop left right hop) (
              rw (reverse-hop left' right hop) (
                rightmost_untrusted-hop net trusted (net.show_addr (net.unmap addr)) hop
                  (reverse right) (reverse left) (reverse left') h)))
      ]

-- What stands left of an entry that is no trusted proxy cannot change the address that a request
-- is charged to: two requests of one peer whose chains agree from such an entry on are charged to
-- one address.
pub left_of_hop_ignored :
    {A P : Type 0} (net : Addresses A P) (trusted : List P) (r r' : HttpRequest) (hop : String)
    (left left' right : List String)
    → r.remote_addr ≡ r'.remote_addr
    → forwarded_chain net r.forwarded_for ≡ left ++ hop ∷ right
    → forwarded_chain net r'.forwarded_for ≡ left' ++ hop ∷ right
    → IsHop net trusted hop
    → client_ip net trusted r ≡ client_ip net trusted r'
unfolding client_ip
left_of_hop_ignored net trusted r r' hop left left' right peer chain chain' h =
    let resolved = λ (remote : String) (c : List String).
      resolve net trusted (host_only net remote) c (net.parse_addr (host_only net remote)) in
    ap₂ resolved peer chain
    ∙ resolve-hop net trusted (host_only net r'.remote_addr) hop left left' right
        (net.parse_addr (host_only net r'.remote_addr)) h
    ∙ ap (resolved r'.remote_addr) (sym chain')

-- The headers of a peer that is no trusted proxy have no effect.
pub untrusted_peer_decides :
    {A P : Type 0} (net : Addresses A P) (trusted : List P) (r : HttpRequest) (addr : A)
    → net.parse_addr (host_only net r.remote_addr) ≡ some addr
    → is_trusted net trusted addr ≡ false
    → client_ip net trusted r ≡ net.show_addr (net.unmap addr)
unfolding client_ip
untrusted_peer_decides net trusted r addr p u =
    ap (resolve net trusted (host_only net r.remote_addr) (forwarded_chain net r.forwarded_for)) p
    ∙ decided
  where
    decided :
        resolve net trusted
          (host_only net r.remote_addr)
          (forwarded_chain net r.forwarded_for)
          (some addr)
        ≡ net.show_addr (net.unmap addr)
    decided = ground arith
