-- ===== src/Transfer.antt =====
-- file_transfer.py: the names of remote files and of their local copies, and the metadata beside a copy.
-- `sha256` stands for the hex digest of hashlib, `dumps` for `json.dumps` of an identity, and `join` and
-- `normpath` for the functions of posixpath.
pub mod Names
use Prim.Native.Char.{Char, code}
use re_remote_dev.Json.{Fields, Json, bool, end, field, get_field, num, obj, str, truthy, truthy_or}
use re_remote_dev.Prelude.{
  Bool, List, Option, String, [], any, eqb, false, if◌then◌else◌, leb, not, some, true, ℕ, ◌&&◌,
  ◌==◌, ◌||◌, ◌∷◌,
}
use re_remote_dev.Prelude.Int.{pos}
use re_remote_dev.Prelude.Text.{codes, is_empty, is_space, len, take_text, ◌<>◌}
use re_remote_dev.Result.{Result, err, invalid, ok}

pub record EndpointIdentity : Type 0 where
  pub hostname : String
  pub port : ℕ
  pub user : String
  pub identity_fingerprint : String

abbrev pub is_slash : ℕ → Bool
is_slash c = eqb c 47

abbrev pub is_absolute : String → Bool
is_absolute String.[] = false
is_absolute (String.◌∷◌ c s) = is_slash (code c)

abbrev has_tilde : String → Bool
has_tilde String.[] = false
has_tilde (String.◌∷◌ c s) = eqb (code c) 126

-- canonical_remote_path(value, cwd)
unfoldable pub canonical_remote_path :
    (String → String → String) → (String → String) → String → String → Result String
canonical_remote_path join normpath value cwd =
    if is_empty value || any (eqb 0) (codes value)
    then err (invalid "远程路径不能为空或包含 NUL 字符")
    else if not (is_absolute cwd)
    then err (invalid "远程当前目录必须是绝对路径")
    else if has_tilde value
    then err (invalid "请使用远程绝对路径或相对路径，不支持未展开的 ~")
    else (let normalized = normpath (if is_absolute value then value else join cwd value) in
        if is_absolute normalized then ok normalized else err (invalid "远程路径解析后不是绝对路径"))

-- [\x00-\x1f\x7f/\\]
abbrev pub is_unsafe : ℕ → Bool
is_unsafe c = leb c 31 || eqb c 127 || eqb c 47 || eqb c 92

abbrev pub head_or : Char → String → Char
head_or c String.[] = c
head_or c (String.◌∷◌ d s) = d

-- "_" in place of an unsafe character
abbrev pub replace_unsafe : Char → Char
replace_unsafe c = head_or c (if is_unsafe (code c) then "_" else "")

-- re.sub(…, "_", value)
unfoldable pub safe_chars : String → String
safe_chars String.[] = String.[]
safe_chars (String.◌∷◌ c s) = String.◌∷◌ (replace_unsafe c) (safe_chars s)

unfoldable pub basename : String → String
basename String.[] = String.[]
basename (String.◌∷◌ c s) =
    if any is_slash (codes s) then basename s else if is_slash (code c) then s else String.◌∷◌ c s

strip_left : String → String
strip_left String.[] = String.[]
strip_left (String.◌∷◌ c s) = if is_space (code c) then strip_left s else String.◌∷◌ c s

strip_right : String → String
strip_right String.[] = String.[]
strip_right (String.◌∷◌ c s) =
    let rest = strip_right s in
    if is_empty rest && is_space (code c) then String.[] else String.◌∷◌ c rest

abbrev or_text : String → String → String
or_text s default = if is_empty s then default else s

unfoldable pub safe_basename : String → String
unfolding safe_chars basename strip_left strip_right
safe_basename path =
    take_text 240 (
      or_text (strip_right (strip_left (safe_chars (or_text (basename path) "root"))))
        "remote-file")

-- component in {"", ".", ".."}
abbrev pub is_special : List ℕ → Bool
is_special [] = true
is_special (a ∷ []) = eqb a 46
is_special (a ∷ b ∷ []) = eqb a 46 && eqb b 46
is_special (a ∷ b ∷ c ∷ cs) = false

-- _safe_component
unfoldable pub safe_component : String → String
safe_component value =
    if is_special (codes (safe_chars value)) then "_" else take_text 240 (safe_chars value)

-- value.split("/")
abbrev prepend : Char → List String → List String
prepend c [] = String.◌∷◌ c String.[] ∷ []
prepend c (s ∷ ss) = String.◌∷◌ c s ∷ ss

unfoldable pub split : String → List String
split String.[] = String.[] ∷ []
split (String.◌∷◌ c s) = if is_slash (code c) then String.[] ∷ split s else prepend c (split s)

strip_slashes : String → String
strip_slashes String.[] = String.[]
strip_slashes (String.◌∷◌ c s) = if is_slash (code c) then strip_slashes s else String.◌∷◌ c s

-- Path(*parts), below a directory
join_parts : String → List String → String
join_parts root [] = root
join_parts root (p ∷ ps) = join_parts (root <> "/" <> p) ps

abbrev safe_parts : List String → List String
safe_parts [] = []
safe_parts (p ∷ ps) = safe_component p ∷ safe_parts ps

module _ (sha256 : String → String) (dumps : EndpointIdentity → String) where
  -- EndpointIdentity.digest
  unfoldable pub digest : EndpointIdentity → String
  digest e = take_text 32 (sha256 (dumps e))

  unfoldable pub path_digest : String → String
  path_digest path = take_text 32 (sha256 path)

  -- CacheLayout.preview_path
  preview_path : String → EndpointIdentity → String → String
  unfolding digest path_digest safe_basename
  preview_path cache_root e path =
      cache_root <> "/" <> digest e <> "/" <> path_digest path <> "/" <> safe_basename path

  -- CacheLayout.download_path
  unfoldable pub download_path : String → EndpointIdentity → String → String
  download_path download_root e path =
      download_root
      <> "/"
      <> digest e
      <> "/"
      <> take_text 16 (path_digest path)
      <> "-"
      <> safe_basename path

  -- CacheLayout.legacy_download_path
  unfoldable pub legacy_download_path : String → EndpointIdentity → String → String
  unfolding strip_slashes join_parts
  legacy_download_path download_root e path =
      join_parts (download_root <> "/" <> digest e)
        (safe_parts (split (or_text (strip_slashes path) "root")))

-- sidecar_path
abbrev pub sidecar_path : String → String
sidecar_path path = path <> ".rdo.json"

-- The fields that a sidecar must agree on.
unfoldable pub expected : String → String → ℕ → ℕ → Fields → Fields
expected endpoint path size mtime rest = field "endpoint_digest" (str endpoint) (
    field "remote_path" (str path)
      (field "remote_size" (num (pos size)) (field "remote_mtime_ns" (num (pos mtime)) rest)))

-- sidecar_payload, without the optional remote_sha256
unfoldable pub sidecar_payload : String → String → ℕ → ℕ → String → Fields
unfolding expected
sidecar_payload endpoint path size mtime local_sha256 =
    field "schema_version" (num (pos 1))
      (expected endpoint path size mtime (field "local_sha256" (str local_sha256) end))

-- sidecar.get(key) == value, for a text and for a number; in Python True is 1
abbrev pub same_text : String → Option Json → Bool
same_text t (some (str s)) = s == t
same_text t v = false

abbrev pub same_number : ℕ → Option Json → Bool
same_number n (some (num (pos m))) = eqb m n
same_number n (some (bool b)) = eqb (if b then 1 else 0) n
same_number n v = false

unfoldable pub agrees : String → String → ℕ → ℕ → Fields → Bool
agrees endpoint path size mtime sidecar =
    same_text endpoint (get_field "endpoint_digest" sidecar)
    && same_text path (get_field "remote_path" sidecar)
    && same_number size (get_field "remote_size" sidecar)
    && same_number mtime (get_field "remote_mtime_ns" sidecar)

-- metadata_matches; `local` is the text of the local file, if there is one
unfoldable pub metadata_matches : Option String → Option Fields → String → String → ℕ → ℕ → Bool
unfolding agrees
metadata_matches (some content) (some sidecar) endpoint path size mtime =
    truthy (obj sidecar)
    && agrees endpoint path size mtime sidecar
    && eqb (len content) size
    && truthy_or false (get_field "local_sha256" sidecar)
metadata_matches local sidecar endpoint path size mtime = false
