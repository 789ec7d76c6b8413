-- ===== src/SyncTool/Token.antt =====
-- internal/pihole/sync.go: what the token of `Diff.Token` says of the plan it was made from.
use Prim.Native.Char.{Char, code}
use Prim.Native.String
use text.Mathlib.TextLemmas.{
  cons-append, nil-append, append_cancel_left, head-eq_of_cons-eq, tail-eq_of_cons-eq, nil≢cons,
}
use pihole_mcp.Prelude.{
  ◌≡◌, ◌≢◌, refl, sym, ap, ◌∙◌, ◌⊎◌, inl, inr, String, Bool, true, false, List, [], ◌∷◌, ◌++◌, map,
  str_eq, str-eq_iff, Bool-cases, not, ◌&&◌, concat, is_char, arith,
}
use pihole_mcp.Sync.{
  SyncCategory, groups, lists, domains, clients, local_dns, cname, category_name, Action, add,
  update, delete, PlannedOp, Diff, plan,
}
use pihole_mcp.SyncTool.{
  step_of, action_name, TokenText, step_line, step_lines, shown_plan, token_text, token, bool_text,
}

-- What %q promises: a quoted text ends where it says, and shows what was quoted.
abbrev pub IsQuote : (String → String) → Type 0
IsQuote q = (a b s t : String) → String.◌++◌ (q a) s ≡ String.◌++◌ (q b) t → (a ≡ b) × (s ≡ t)

-- Two texts with the same digest.
abbrev pub Collision : (String → String) → Type 0
Collision f = (s : String) × (t : String) × (s ≢ t) × (f s ≡ f t)

abbrev no_bar : String → Bool
no_bar String.[] = true
no_bar (String.◌∷◌ c s) = not (is_char b'|' c) && no_bar s

bar-cons : (s : String) → String.◌++◌ "|" s ≡ String.◌∷◌ "|" s
bar-cons s = cons-append "|" "" s ∙ ap (λ r. String.◌∷◌ "|" r) (nil-append s)

not_bar : (c : Char) → "|" ≡ c → is_char b'|' c ≢ false
not_bar c e h = let h' = rw (sym e) at h in cc

bar_inj :
    (a b s t : String)
    → no_bar a ≡ true
    → no_bar b ≡ true
    → String.◌++◌ a (String.◌++◌ "|" s) ≡ String.◌++◌ b (String.◌++◌ "|" t)
    → (a ≡ b) × (s ≡ t)
bar_inj String.[] String.[] s t h k e = (
  refl,
  append_cancel_left "|" s t
      (rw (nil-append (String.◌++◌ "|" s), nil-append (String.◌++◌ "|" t)) at e),
)
bar_inj String.[] (String.◌∷◌ c b) s t h k e =
    let e' =
      rw (nil-append (String.◌++◌ "|" s), bar-cons s, cons-append c b (String.◌++◌ "|" t)) at e in
    absurd (not_bar c (head-eq_of_cons-eq e') (ground arith))
bar_inj (String.◌∷◌ c a) String.[] s t h k e =
    let e' =
      rw (nil-append (String.◌++◌ "|" t), bar-cons t, cons-append c a (String.◌++◌ "|" s)) at e in
    absurd (not_bar c (sym (head-eq_of_cons-eq e')) (ground arith))
bar_inj (String.◌∷◌ c a) (String.◌∷◌ d b) s t h k e =
    let e' = rw (cons-append c a (String.◌++◌ "|" s), cons-append d b (String.◌++◌ "|" t)) at e in
    let (same, rest) = bar_inj a b s t (ground arith) (ground arith) (tail-eq_of_cons-eq e') in
    (rw (head-eq_of_cons-eq e') (rw same refl), rest)

category_name-bar : (c : SyncCategory) → no_bar (category_name c) ≡ true
category_name-bar groups = refl
category_name-bar lists = refl
category_name-bar domains = refl
category_name-bar clients = refl
category_name-bar local_dns = refl
category_name-bar cname = refl

action_name-bar : (a : Action) → no_bar (action_name a) ≡ true
action_name-bar add = refl
action_name-bar update = refl
action_name-bar delete = refl

-- Equal lines show equal steps, and what follows them is equal.
step_line_inj :
    (t : TokenText) (op op' : PlannedOp) (ls ls' : List String)
    → IsQuote t.quote
    → concat (step_line t (step_of op) ++ ls) ≡ concat (step_line t (step_of op') ++ ls')
    → (step_of op ≡ step_of op') × (concat ls ≡ concat ls')
unfolding concat
step_line_inj t op op' ls ls' q e =
    let (c, e1) =
      bar_inj (category_name op.category) (category_name op'.category) _ _
        (category_name-bar op.category) (category_name-bar op'.category) e in
    let (a, e2) =
      bar_inj (action_name op.action) (action_name op'.action) _ _ (action_name-bar op.action)
        (action_name-bar op'.action) e1 in
    let (l, e3) = q op.label op'.label _ _ e2 in
    let (f, e4) = q op.from op'.from _ _ (append_cancel_left "|" _ _ e3) in
    let (o, e5) = q op.to op'.to _ _ (append_cancel_left "|" _ _ e4) in
    (cc, append_cancel_left "\n" _ _ e5)

bar_not_nil : (a s : String) → String.[] ≢ String.◌++◌ a (String.◌++◌ "|" s)
bar_not_nil String.[] s e = nil≢cons (rw (nil-append (String.◌++◌ "|" s), bar-cons s) at e)
bar_not_nil (String.◌∷◌ c a) s e = nil≢cons (rw (cons-append c a (String.◌++◌ "|" s)) at e)

step_lines_inj :
    (t : TokenText) (ops ops' : List PlannedOp)
    → IsQuote t.quote
    → concat (step_lines t (map step_of ops)) ≡ concat (step_lines t (map step_of ops'))
    → map step_of ops ≡ map step_of ops'
unfolding concat step_lines
step_lines_inj t [] [] q e = refl
step_lines_inj t [] (op ∷ ops) q e = absurd (bar_not_nil (category_name op.category) _ e)
step_lines_inj t (op ∷ ops) [] q e = absurd (bar_not_nil (category_name op.category) _ (sym e))
step_lines_inj t (op ∷ ops) (op' ∷ ops') q e =
    let (same, rest) =
      step_line_inj t op op' (step_lines t (map step_of ops)) (step_lines t (map step_of ops')) q
        e in
    rw same (rw (step_lines_inj t ops ops' q rest) refl)

true-false : (s t : String) → String.◌++◌ "true" s ≢ String.◌++◌ "false" t
true-false s t e =
    let e' = rw (cons-append "t" "rue" s, cons-append "f" "alse" t) at e in
    let codes = ap code (head-eq_of_cons-eq e') in absurd (omega arith)

bool_text_inj :
    (b c : Bool) (s t : String)
    → String.◌++◌ (bool_text b) s ≡ String.◌++◌ (bool_text c) t
    → (b ≡ c) × (s ≡ t)
bool_text_inj true true s t e = (refl, append_cancel_left "true" s t e)
bool_text_inj true false s t e = absurd (true-false s t e)
bool_text_inj false true s t e = absurd (true-false t s (sym e))
bool_text_inj false false s t e = (refl, append_cancel_left "false" s t e)

names_cancel :
    (a a' b b' s t : String)
    → a ≡ a'
    → b ≡ b'
    → String.◌++◌ a (String.◌++◌ "->" (String.◌++◌ b (String.◌++◌ ";prune=" s)))
      ≡ String.◌++◌ a' (String.◌++◌ "->" (String.◌++◌ b' (String.◌++◌ ";prune=" t)))
    → s ≡ t
names_cancel a a' b b' s t ha hb e =
    let e1 = append_cancel_left a' _ _ (rw (ha, hb) at e) in
    let e2 = append_cancel_left b' _ _ (append_cancel_left "->" _ _ e1) in
    append_cancel_left ";prune=" _ _ e2

token_text_inj :
    (t : TokenText) (prune prune' : Bool) (d d' : Diff)
    → IsQuote t.quote
    → d.source ≡ d'.source
    → d.target ≡ d'.target
    → token_text t prune d ≡ token_text t prune' d'
    → (prune ≡ prune') × (shown_plan prune d ≡ shown_plan prune' d')
unfolding token_text shown_plan concat
token_text_inj t prune prune' d d' q hs ht e =
    let (p, rest) =
      bool_text_inj prune prune' _ _
        (names_cancel d.source d'.source d.target d'.target _ _ hs ht e) in
    (p, step_lines_inj t (plan prune d) (plan prune' d') q (append_cancel_left "\n" _ _ rest))

-- Between two instances, where a quoted text ends where it says: two diffs with the same token have
-- the same pruning and show the same steps with the same values in the same order, or the digest has
-- a collision.
pub token-pins_plan :
    (t : TokenText) (prune prune' : Bool) (d d' : Diff)
    → IsQuote t.quote
    → d.source ≡ d'.source
    → d.target ≡ d'.target
    → token t prune d ≡ token t prune' d'
    → ((prune ≡ prune') × (shown_plan prune d ≡ shown_plan prune' d')) ⊎ Collision t.digest
unfolding token
token-pins_plan t prune prune' d d' q hs ht e =
    elim (Bool-cases (str_eq (token_text t prune d) (token_text t prune' d'))) [
      | inl same ↦ inl (
          token_text_inj t prune prune' d d' q hs ht
            ((str-eq_iff (token_text t prune d) (token_text t prune' d')).0 same))
      | inr other ↦ inr (
        token_text t prune d,
        token_text t prune' d',
        (λ x. let same = (str-eq_iff (token_text t prune d) (token_text t prune' d')).1 x in cc),
        e,
      )
    ]
