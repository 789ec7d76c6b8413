-- ===== src/Server/Scope.antt =====
-- internal/server/server.go and internal/toolsets/toolsets.go: the filter chain against one
-- condition on a tool, stated on the names of the selection.
use pihole_mcp.Prelude.{
  String, ◌≡◌, refl, ap, ◌∙◌, Bool, true, false, not, ◌&&◌, ◌||◌, Option, none, some, List, [], ◌∷◌,
  str_eq, keep, contains, arith, Bool-cases, inl, inr, any, map, IsDistinct, subst, str-eq_iff,
}
use pihole_mcp.Server.{
  Tool, Options, select, resolve_toolsets, toolset_of, is_selected, read_only_filter,
  toolset_filter, selection_filters, filters, run_filters, exposed_tools, get_tool, offers_found,
  offers,
}

-- No name at all, or "all" among them.
abbrev is_unrestricted : List String → Bool
is_unrestricted [] = true
is_unrestricted (n ∷ names) = contains (n ∷ names) "all"

-- What the configuration allows of a tool.
unfoldable pub allows : Options → Tool → Bool
allows o t =
    (not o.read_only || t.read_only)
    && (is_unrestricted o.toolsets || is_selected o.toolsets (toolset_of t.name))

permits : Option (List String) → Option String → Bool
permits none x = true
permits (some selected) x = is_selected selected x

select-permits :
    (names selected : List String) (x : Option String)
    → permits (select names selected) x
      ≡ (contains names "all" || (is_selected names x || is_selected selected x))
unfolding permits
select-permits [] selected none = refl
select-permits [] selected (some x) = refl
select-permits (n ∷ names) selected none = ground (arith, select-permits names (n ∷ selected) none)
select-permits (n ∷ names) selected (some x) =
    ground (arith, select-permits names (n ∷ selected) (some x))

resolve-permits :
    (names : List String) (x : Option String)
    → permits (resolve_toolsets names) x ≡ (is_unrestricted names || is_selected names x)
unfolding permits resolve_toolsets
resolve-permits [] x = refl
resolve-permits (n ∷ names) none = select-permits (n ∷ names) [] none
resolve-permits (n ∷ names) (some x) = ground (arith, select-permits (n ∷ names) [] (some x))

keep-keep :
    {A : Type 0} (p q : A → Bool) (xs : List A) → keep p (keep q xs) ≡ keep (λ x. q x && p x) xs
keep-keep p q [] = refl
keep-keep p q (x ∷ xs) = ground (arith, keep-keep p q xs)

keep-true : {A : Type 0} (xs : List A) → keep (λ x. true) xs ≡ xs
keep-true [] = refl
keep-true (x ∷ xs) = ap (λ ys. x ∷ ys) (keep-true xs)

keep-cong :
    {A : Type 0} (p q : A → Bool) (xs : List A) → ((x : A) → p x ≡ q x) → keep p xs ≡ keep q xs
keep-cong p q [] h = refl
keep-cong p q (x ∷ xs) h = rw (h x, keep-cong p q xs h) refl

run_selection :
    (s : Option (List String)) (ts : List Tool)
    → run_filters (selection_filters s) ts ≡ keep (λ t. permits s (toolset_of t.name)) ts
unfolding permits toolset_filter
run_selection none ts = rw (keep-true ts) refl
run_selection (some names) ts = refl

run_both :
    (b : Bool) (names : List String) (ts : List Tool)
    → run_filters (filters (record { read_only = b; toolsets = names })) ts
      ≡ keep (λ t. allows (record { read_only = b; toolsets = names }) t) ts
unfolding filters allows read_only_filter
run_both true names ts =
    run_selection (resolve_toolsets names) (keep (λ t. t.read_only) ts)
    ∙ keep-keep (λ t. permits (resolve_toolsets names) (toolset_of t.name)) (λ t. t.read_only) ts
    ∙ keep-cong _ _ ts (λ t. ap (λ b. t.read_only && b) (resolve-permits names (toolset_of t.name)))
run_both false names ts =
    run_selection (resolve_toolsets names) ts
    ∙ keep-cong _ _ ts (λ t. resolve-permits names (toolset_of t.name))

-- The tools a client is offered are the registered ones, in order, that the configuration allows:
-- read-only ones if the server is read-only, and, unless no name or "all" is among the selected
-- toolsets, those of a selected toolset; a tool of no toolset is not offered under a selection.
pub exposed_are_allowed :
    (o : Options) (registered : List Tool) → exposed_tools o registered ≡ keep (allows o) registered
unfolding exposed_tools
exposed_are_allowed o registered = run_both o.read_only o.toolsets registered

is_named : String → Tool → Bool
is_named name t = str_eq t.name name

none_named :
    (p : Tool → Bool) (name : String) (ts : List Tool)
    → contains (map (λ t. t.name) ts) name ≡ false
    → any (is_named name) (keep p ts) ≡ false
unfolding is_named
none_named p name [] h = refl
none_named p name (t ∷ ts) h = ground (arith, none_named p name ts)

one_offered : (o : Options) (t : Tool) → offers_found o (some t) ≡ allows o t
one_offered o t = rw (run_both o.read_only o.toolsets (t ∷ [])) (ground arith)

found_offered :
    (o : Options) (name : String) (ts : List Tool)
    → IsDistinct (map (λ t. t.name) ts)
    → offers_found o (get_tool ts name) ≡ any (is_named name) (keep (allows o) ts)
unfolding is_named
found_offered o name [] d = refl
found_offered o name (t ∷ ts) (fresh, d) = elim (Bool-cases (str_eq t.name name)) [
  | inl e ↦
      let same = (str-eq_iff t.name name).0 e in
      let absent =
        none_named (allows o) name ts
          (subst (λ n. contains (map (λ t. t.name) ts) n ≡ false) same fresh) in
      rw (e, one_offered o t) (ground (arith, absent))
  | inr e ↦ rw (e, found_offered o name ts d) (ground arith)
]

-- Where the registered tools have distinct names, a prompt's tool counts as offered exactly if
-- some tool of that name is among the tools a client is offered.
pub offers_iff_exposed :
    (o : Options) (registered : List Tool) (name : String)
    → IsDistinct (map (λ t. t.name) registered)
    → offers o registered name ≡ any (λ t. str_eq t.name name) (exposed_tools o registered)
unfolding offers is_named
offers_iff_exposed o registered name d =
    rw (exposed_are_allowed o registered) (found_offered o name registered d)
