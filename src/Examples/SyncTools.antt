-- ===== src/Examples/SyncTools.antt =====
-- The sync tools of internal/tools/sync.go on two Pi-holes "a" and "b" where only "a" has a group.
use Prim.Native.String
use Prim.Native.Char.{Char, code}
use text.Mathlib.TextLemmas.{
  append_cancel_left, cons-append, head-eq_of_cons-eq, tail-eq_of_cons-eq,
}
use pihole_mcp.Prelude.{
  ℕ, ◌+◌, ◌≡◌, ◌≢◌, refl, sym, ap, ◌↔◌, ◌⊎◌, inr, String, true, false, none, some, List, [], ◌∷◌,
  str_eq, if◌then◌else◌, lookup, split_by, trim_space, is_space, arith,
}
use pihole_mcp.Registry.{
  InstanceConfig, Registry, new_registry, all_clients, default_client, get_client,
}
use pihole_mcp.Registry.Named.{names_of, made, first_made, new_registry-all}
use pihole_mcp.Sync.{
  SyncCategory, groups, Item, Diff, ReadResult, entries, category_diff, collect, sorted_keys,
  sort_keys, pick_added, pick_changed,
}
use pihole_mcp.Sync.InSync.{AllMatch}
use pihole_mcp.Sync.Readers.{Escaping, group_item}
use pihole_mcp.Sync.Apply.{Target, saved, current}
use pihole_mcp.SyncTool.{
  TokenText, SyncRequest, token, shown_plan, parse_sync_categories, parse_parts,
  parse_sync_category,
}
use pihole_mcp.SyncTool.Backup.{BackupCalls}
use pihole_mcp.SyncTool.Handler.{
  Calls, answered, diff_output, resolve_source_target, compare_instances, instance_diff,
  instance_sync,
}
use pihole_mcp.SyncTool.Token.{IsQuote, Collision, token-pins_plan}
use pihole_mcp.SyncTool.Confirmed.{Confirmed, untouched_or_Confirmed}
use pihole_mcp.SyncTool.Saved.{BackedUp, written_only_with_backup}
use pihole_mcp.SyncTool.Steady.{diff_tool_verdict}

abbrev instances : List InstanceConfig
instances =
    record { name = "a"; url = "http://a"; password = "" }
    ∷ record { name = "b"; url = "http://b"; password = "" }
    ∷ []

abbrev name_only : InstanceConfig → String
name_only ic = ic.name

new_registry-all_example :
    ((new_registry name_only instances).order ≡ names_of instances)
    × (all_clients (new_registry name_only instances) ≡ made name_only instances)
    × (default_client (new_registry name_only instances) ≡ first_made name_only instances)
new_registry-all_example = new_registry-all name_only instances (refl, (refl, tt))

-- A quotation that marks each character and the end.
abbrev marked : String → String
marked String.[] = "."
marked (String.◌∷◌ c s) = String.◌∷◌ "x" (String.◌∷◌ c (marked s))

dot-x :
    (s t : String) (c : Char) (b : String)
    → String.◌++◌ "." s ≢ String.◌++◌ (String.◌∷◌ "x" (String.◌∷◌ c b)) t
dot-x s t c b e =
    let e' = rw (cons-append "." "" s, cons-append "x" (String.◌∷◌ c b) t) at e in
    let codes = ap code (head-eq_of_cons-eq e') in absurd (omega arith)

marked-IsQuote : IsQuote marked
marked-IsQuote String.[] String.[] s t e = (refl, append_cancel_left "." s t e)
marked-IsQuote String.[] (String.◌∷◌ c b) s t e = absurd (dot-x s t c (marked b) e)
marked-IsQuote (String.◌∷◌ c a) String.[] s t e = absurd (dot-x t s c (marked a) (sym e))
marked-IsQuote (String.◌∷◌ c a) (String.◌∷◌ d b) s t e =
    let e1 = tail-eq_of_cons-eq (
      rw (cons-append "x" (String.◌∷◌ c (marked a)) s, cons-append "x" (String.◌∷◌ d (marked b)) t)
        at e) in
    let e2 = rw (cons-append c (marked a) s, cons-append d (marked b) t) at e1 in
    let (same, rest) = marked-IsQuote a b s t (tail-eq_of_cons-eq e2) in
    (rw (head-eq_of_cons-eq e2) (rw same refl), rest)

abbrev plain_token : TokenText
plain_token = record { quote = marked; digest = λ s. s }

abbrev as_is : Escaping
as_is = record { path_escape = λ s. s; query_escape = λ s. s }

abbrev kids : Item
kids = group_item as_is (record { name = "Kids"; comment = ""; enabled = true })

abbrev holdings : String → SyncCategory → ReadResult
holdings c cat = if str_eq c "a" then entries (("group|Kids", kids) ∷ []) else entries []

-- A target that counts the requests that reach it.
abbrev counting : Target ℕ
counting = record {
  ctx_error = λ w. none;
  lock = λ k w. w;
  unlock = λ k w. w;
  write = λ x w. (none, w + 1);
  read_cnames = λ w. (current [], w);
  patch_cnames = λ next w. (saved, w + 1);
  clock = λ w. (w, w);
  await_restart = λ sent w. (none, w);
  post_restart = λ w. (none, w + 1);
}

abbrev saving : BackupCalls String String String ℕ
saving = record {
  reap_stale = λ w. w;
  open_stream = λ c w. (inr c, w);
  close_stream = λ a w. w;
  create_file = λ name w. (inr name, w);
  copy = λ f a w. (none, w);
  close_file = λ f w. (none, w);
  remove = λ f w. w;
  path = λ f. f;
}

abbrev sync_calls : Calls String String String ℕ
sync_calls = record {
  name = λ c. c;
  read = λ c cat w. (holdings c cat, w);
  target_of = λ c. counting;
  backup = saving;
  text = plain_token;
}

abbrev kids_missing : Diff
kids_missing = record {
  source = "a";
  target = "b";
  categories =
      record { category = groups; source_count = 1; added = kids ∷ []; changed = []; removed = [] }
      ∷ [];
}

abbrev request : SyncRequest
request = record {
  source = none;
  target = some "b";
  categories = some "groups";
  mode = some "apply";
  confirm_token = some (token plain_token false kids_missing);
  prune = none;
  snapshot = none;
}

abbrev both : Registry String
both = record { clients = ("a", "a") ∷ ("b", "b") ∷ []; order = "a" ∷ "b" ∷ [] }

untouched_or_Confirmed_example :
    ((instance_sync sync_calls both request 0).1 ≡ 0) ⊎ Confirmed sync_calls both request 0
untouched_or_Confirmed_example =
    untouched_or_Confirmed sync_calls (λ w. w ≡ 0) both request 0 (λ c cat w p. p) refl

written_only_with_backup_example :
    ((instance_sync sync_calls both request 0).1 ≡ 0) ⊎ BackedUp sync_calls both request 0
written_only_with_backup_example =
    written_only_with_backup sync_calls (λ w. w ≡ 0) both request 0 refl (λ c cat w p. p)
      (
        (λ w p. p),
        (λ c w p. p),
        (λ a w p. p),
        (λ name w p. p),
        (λ f a w p. p),
        (λ f w p. p),
        (λ f w p. p),
      )
      refl

token-pins_plan_example :
    ((true ≡ true) × (shown_plan true kids_missing ≡ shown_plan true kids_missing))
    ⊎ Collision (λ s. s)
token-pins_plan_example =
    token-pins_plan plain_token true true kids_missing kids_missing marked-IsQuote refl refl refl

resolved : resolve_source_target sync_calls both request.source request.target ≡ inr ("a", "b")
unfolding resolve_source_target get_client lookup default_client
resolved = refl

groups_named : parse_sync_categories request.categories ≡ inr (groups ∷ [])
unfolding parse_sync_categories trim_space is_space parse_parts split_by parse_sync_category
groups_named = refl

compared :
    (instance_diff sync_calls both request 0).0
    ≡ answered (diff_output sync_calls "a" "b" kids_missing) false
unfolding instance_diff resolve_source_target get_client lookup default_client parse_sync_categories
    trim_space is_space parse_parts split_by parse_sync_category compare_instances category_diff
    collect sorted_keys sort_keys pick_added pick_changed
compared = refl

diff_tool_verdict_example :
    ((diff_output sync_calls "a" "b" kids_missing).in_sync ≡ true)
    ↔ AllMatch true (holdings "a") (holdings "b") (groups ∷ [])
diff_tool_verdict_example =
    diff_tool_verdict sync_calls holdings both request 0 "a" "b" (groups ∷ [])
      (diff_output sync_calls "a" "b" kids_missing) false (λ c cat w. refl) resolved groups_named
      compared
