-- ===== src/Upload.antt =====
-- upload.py: quoting for the sftp batch, the check of remote paths, the expansion of local sources, and
-- the master connection around a batch of uploads. Texts that are quoted are lists of code points.
pub mod Quoting
pub mod Sources
use re_remote_dev.Prelude.{
  Bool, List, Option, String, [], any, eqb, false, if◌then◌else◌, none, not, some, true, ℕ, ◌++◌,
  ◌==◌, ◌||◌, ◌∷◌,
}
use re_remote_dev.Prelude.Text.{is_empty, mem, ◌<>◌}
use re_remote_dev.Result.{Result, err, failed, ok, ◌>>=◌}
use mathlib.Core.Option

-- value.replace(c, "\\" + c)
unfoldable pub escape_all : ℕ → List ℕ → List ℕ
escape_all c [] = []
escape_all c (d ∷ ds) = let rest = escape_all c ds in if eqb d c then 92 ∷ d ∷ rest else d ∷ rest

-- _sftp_quote(value)
unfoldable pub sftp_quote : List ℕ → List ℕ
unfolding escape_all
sftp_quote cs =
    b'"' ∷ (escape_all b'`' (escape_all b'$' (escape_all b'"' (escape_all 92 cs))) ++ (b'"' ∷ []))

-- What `PurePosixPath(value)` and its `is_absolute`, `parts` and `as_posix` give.
pub record Pure : Type 0 where
  pub absolute : Bool
  pub parts : List String
  pub posix : String

abbrev pub bad_part : String → Bool
bad_part part = is_empty part || part == "." || part == ".."

-- _validate_remote_relative(value)
unfoldable pub validate_remote_relative : (String → Pure) → String → Result String
validate_remote_relative pure value =
    let path = pure value in
    if path.absolute || is_empty value || any bad_part path.parts
    then err (failed ("无效的远程相对路径：" <> value))
    else ok path.posix

-- The file system and the path functions that the expansion asks. Lists are sorted.
pub record Files : Type 0 where
  pub expanduser : String → String
  pub has_magic : String → Bool
  pub glob : String → List String
  pub is_dir : String → Bool
  pub is_file : String → Bool
  pub resolve : String → String
  pub rglob : String → List String
  pub relative : String → String → String
  pub name : String → String

-- items, seen and remote_seen, in the order of their additions
pub record Expansion : Type 0 where
  pub items : List (String × String)
  pub seen : List String
  pub remote_seen : List String

-- A regular file with its resolved path: known, in conflict, or new.
unfoldable pub add_item : String → String → Expansion → Result Expansion
add_item resolved relative e =
    if mem resolved e.seen
    then ok e
    else if mem relative e.remote_seen
    then err (failed ("多个源文件映射到同一个远程路径：" <> relative))
    else ok (record {
      items = e.items ++ ((resolved, relative) ∷ []);
      seen = e.seen ++ (resolved ∷ []);
      remote_seen = e.remote_seen ++ (relative ∷ []);
    })

module _ (fs : Files) (recursive : Bool) where
  unfoldable pub add_tree : String → List String → Expansion → Result Expansion
  unfolding add_item
  add_tree base [] e = ok e
  add_tree base (candidate ∷ rest) e =
      (if fs.is_file candidate
        then add_item (fs.resolve candidate) (fs.relative base candidate) e
        else ok e)
      >>= add_tree base rest

  unfoldable pub add_source : String → Expansion → Result Expansion
  unfolding add_tree
  add_source source e =
      if fs.is_dir source
      then (if not recursive
          then err (failed (source <> " 是目录；上传目录请使用 -r/--recursive"))
          else add_tree (fs.resolve source) (fs.rglob (fs.resolve source)) e)
      else if fs.is_file source
      then add_item (fs.resolve source) (fs.name (fs.resolve source)) e
      else err (failed ("本地路径不存在或不是普通文件/目录：" <> source))

  unfoldable pub add_sources : List String → Expansion → Result Expansion
  unfolding add_source
  add_sources [] e = ok e
  add_sources (source ∷ rest) e = add_source source e >>= add_sources rest

  abbrev pub matches : String → List String
  matches pattern = if fs.has_magic pattern then fs.glob pattern else pattern ∷ []

  unfoldable pub add_matches : String → List String → Expansion → Result Expansion
  unfolding add_sources
  add_matches raw [] e = err (failed ("本地路径或通配符没有匹配项：" <> raw))
  add_matches raw (source ∷ rest) e = add_sources (source ∷ rest) e

  unfoldable pub add_raw : List String → Expansion → Result Expansion
  unfolding add_matches
  add_raw [] e = ok e
  add_raw (raw ∷ rest) e = add_matches raw (matches (fs.expanduser raw)) e >>= add_raw rest

  abbrev pub some_item : Expansion → Result (List (String × String))
  some_item e = elim e.items [ [] ↦ err (failed "目录中没有可上传的普通文件") | x ∷ xs ↦ ok (x ∷ xs) ]

  -- expand_upload_sources(raw_sources, recursive=recursive)
  unfoldable pub expand_upload_sources : List String → Result (List (String × String))
  unfolding add_raw
  expand_upload_sources raw_sources =
      add_raw raw_sources (record { items = []; seen = []; remote_seen = [] }) >>= some_item

-- The steps of an upload that reach ssh: `put` is `_put_file_active` for one item, `root` is
-- `_remote_root`, and a master is started for the control path, if there is one.
pub record Connection : Type 0 where
  pub hostname : String
  pub port : ℕ
  pub user : String
  pub identity_file : Option String
  pub control_path : Option String

-- Masters that were started and not stopped, by their control paths.
abbrev pub Masters : Type 0
Masters = List String

-- The run of the ssh that starts a master: its return code, or the exception of `subprocess.run`, with
-- whether a master runs nevertheless.
pub data MasterRun : Type 0 where
  exited : ℕ → MasterRun
  raised : String → Bool → MasterRun

-- _start_master(connection)
unfoldable pub start_master :
    MasterRun → Connection → Masters → Result (Connection × Bool) × Masters
start_master run connection running = elim connection.control_path [
  | none ↦ (ok (connection, false), running)
  | some path ↦ if is_empty path then (ok (connection, false), running) else elim run [
    | raised e alive ↦ (err (failed e), if alive then path ∷ running else running)
    | exited status ↦
        if eqb status 0
        then (ok (connection, true), path ∷ running)
        else (ok (record connection { control_path = none }, false), running)
  ]
]

unfoldable pub without_master : String → Masters → Masters
without_master path [] = []
without_master path (p ∷ ps) =
    let rest = without_master path ps in if p == path then rest else p ∷ rest

-- _stop_master(connection, started), where `ends` says whether `ssh -O exit` ends the master: its return
-- code is not looked at
unfoldable pub stop_master : Bool → Connection → Bool → Masters → Masters
unfolding without_master
stop_master ends connection false running = running
stop_master ends connection true running = elim connection.control_path [
  | none ↦ running
  | some path ↦
      if is_empty path then running else if ends then without_master path running else running
]

module _ (root : Connection → Result String)
    (put : Connection → String → String × String → Result String) where
  unfoldable pub put_each : Connection → String → List (String × String) → Result (List String)
  put_each active base [] = ok []
  put_each active base (item ∷ rest) =
      put active base item >>= λ path. put_each active base rest >>= λ paths. ok (path ∷ paths)

  -- The `try` of put_files, once a master was started or not.
  unfoldable pub with_master :
      Bool
      → List (String × String)
      → Result (Connection × Bool) × Masters
      → Result (List String) × Masters
  unfolding put_each stop_master
  with_master ends items (err e, running) = (err e, running)
  with_master ends items (ok (active, started), running) =
      (root active >>= λ base. put_each active base items, stop_master ends active started running)

  -- put_files(connection, items), with the masters that run afterwards
  unfoldable pub put_files :
      MasterRun
      → Bool
      → Connection
      → List (String × String)
      → Masters
      → Result (List String) × Masters
  unfolding with_master start_master
  put_files run ends connection [] running = (err (failed "没有可上传的文件"), running)
  put_files run ends connection (item ∷ rest) running =
      with_master ends (item ∷ rest) (start_master run connection running)
