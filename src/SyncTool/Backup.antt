-- ===== src/SyncTool/Backup.antt =====
-- internal/tools/sync.go: `exportSnapshot`, over the calls that it makes.
use Prim.Native.Char.{Char, code}
use Prim.Native.String
use pihole_mcp.Prelude.{
  ◌⊎◌, inl, inr, String, Bool, ◌&&◌, ◌||◌, Option, none, some, leb, ◌==◌, str_eq, if◌then◌else◌,
}

-- The calls of `exportSnapshot`: an archive stream `A` and a file `F`; a call answers an error text
-- or what it made.
pub record BackupCalls (C A F W : Type 0) : Type 0 where
  pub reap_stale : W → W
  pub open_stream : C → W → (String ⊎ A) × W
  pub close_stream : A → W → W
  pub create_file : String → W → (String ⊎ F) × W
  pub copy : F → A → W → Option String × W
  pub close_file : F → W → Option String × W
  pub remove : F → W → W
  pub path : F → String

-- `sanitiseName`: the characters that stay in the name of a file.
unfoldable pub is_plain : Char → Bool
is_plain c =
    let n = code c in
    (leb b'a' n && leb n b'z')
    || (leb b'A' n && leb n b'Z')
    || (leb b'0' n && leb n b'9')
    || n == b'-'
    || n == b'_'

unfoldable pub replace_odd : String → String
unfolding is_plain
replace_odd String.[] = ""
replace_odd (String.◌∷◌ c s) =
    let rest = replace_odd s in if is_plain c then String.◌∷◌ c rest else String.◌++◌ "-" rest

unfoldable pub sanitise_name : String → String
sanitise_name name = if str_eq name "" then "instance" else replace_odd name

module _ {C A F W : Type 0} (name : C → String) (io : BackupCalls C A F W) where
  -- The first error of the copy and the close decides.
  abbrev pub finish_file : F → Option String → Option String → W → (String ⊎ String) × W
  finish_file f none none w = (inr (io.path f), w)
  finish_file f none (some e) w = (inl e, io.remove f w)
  finish_file f (some e) _ w = (inl e, io.remove f w)

  abbrev pub write_file : A → String ⊎ F → W → (String ⊎ String) × W
  write_file archive (inl e) w = (inl e, w)
  write_file archive (inr f) w =
      let (copied, w1) = io.copy f archive w in
      let (closed, w2) = io.close_file f w1 in finish_file f copied closed w2

  abbrev pub save_stream : C → String ⊎ A → W → (String ⊎ String) × W
  save_stream c (inl e) w = (inl e, w)
  save_stream c (inr archive) w =
      let (made, w1) = io.create_file (String.◌++◌ (sanitise_name (name c)) "-snapshot") w in
      let (saved, w2) = write_file archive made w1 in (saved, io.close_stream archive w2)

  -- `exportSnapshot`: an error, or the path of the backup.
  unfoldable pub export_snapshot : C → W → (String ⊎ String) × W
  export_snapshot c w =
      let (opened, w1) = io.open_stream c (io.reap_stale w) in save_stream c opened w1
