-- ===== src/Model.antt =====
-- orchestrator/model.py: the identities of targets and endpoints, and, in a child, the status records.
-- `sha256` stands for `hashlib.sha256(text.encode("utf-8")).hexdigest()`.
pub mod Status
use re_remote_dev.Prelude.{
  Bool, String, arith, eq_iff, eqb, if◌then◌else◌, leb, true, ℕ, ◌&&◌, ◌==◌, ◌↔◌, ◌≡◌,
}
use re_remote_dev.Prelude.Int.{negsuc, pos, ℤ}
use re_remote_dev.Prelude.Text.{decimal, is_blank, take_text, ◌<>◌}
use re_remote_dev.Result.{Result, err, invalid, ok}

pub record EndpointKey : Type 0 where
  pub hostname : String
  pub port : ℕ

pub record TargetKey : Type 0 where
  pub hostname : String
  pub port : ℕ
  pub user : String
  pub identity_fingerprint : String

-- 1 <= port <= 65535
abbrev pub in_port_range : ℕ → Bool
in_port_range n = leb 1 n && leb n 65535

-- EndpointKey(hostname, port), with its `__post_init__`
unfoldable pub make_endpoint : String → ℤ → Result EndpointKey
make_endpoint hostname (negsuc n) =
    if is_blank hostname then err (invalid "hostname 不能为空") else err (invalid "port 必须位于 1..65535")
make_endpoint hostname (pos n) =
    if is_blank hostname
    then err (invalid "hostname 不能为空")
    else if in_port_range n
    then ok (record { hostname = hostname; port = n })
    else err (invalid "port 必须位于 1..65535")

-- TargetKey(hostname, port, user, identity_fingerprint), with its `__post_init__`
unfoldable pub make_target : String → ℤ → String → String → Result TargetKey
make_target hostname (negsuc n) user fingerprint =
    if is_blank hostname then err (invalid "hostname 不能为空") else err (invalid "port 必须位于 1..65535")
make_target hostname (pos n) user fingerprint =
    if is_blank hostname
    then err (invalid "hostname 不能为空")
    else if in_port_range n
    then (if is_blank user
        then err (invalid "user 不能为空")
        else ok (record {
          hostname = hostname;
          port = n;
          user = user;
          identity_fingerprint = fingerprint;
        }))
    else err (invalid "port 必须位于 1..65535")

-- The dataclass equality of TargetKey.
unfoldable pub same_target : TargetKey → TargetKey → Bool
same_target a b =
    a.hostname == b.hostname
    && eqb a.port b.port
    && a.user == b.user
    && a.identity_fingerprint == b.identity_fingerprint

module _ (sha256 : String → String) where
  unfoldable pub endpoint_digest : EndpointKey → String
  endpoint_digest e = take_text 32 (sha256 (e.hostname <> ":" <> decimal e.port <> "|"))

  unfoldable pub target_digest : TargetKey → String
  target_digest t = take_text 32 (
      sha256
        (t.user <> "@" <> t.hostname <> ":" <> decimal t.port <> "|" <> t.identity_fingerprint))

  -- TargetKey.endpoint_digest
  unfoldable pub target_endpoint_digest : TargetKey → String
  target_endpoint_digest t = take_text 32 (sha256 (t.hostname <> ":" <> decimal t.port <> "|"))

pub same_target_iff : (a b : TargetKey) → (same_target a b ≡ true) ↔ (a ≡ b)
unfolding same_target
same_target_iff a b = ground (
  arith,
  eq_iff a.hostname b.hostname,
  eq_iff a.user b.user,
  eq_iff a.identity_fingerprint b.identity_fingerprint,
)
