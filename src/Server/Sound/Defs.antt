-- ===== src/Server/Sound/Defs.antt =====
-- The invariant of the lease tables.
use re_remote_dev.Dict.{Dict, Every, Unique}
use re_remote_dev.Json.{Fields}
use re_remote_dev.Model.{EndpointKey, endpoint_digest, in_port_range}
use re_remote_dev.Prelude.{String, false, leb, some, true, ◌≡◌}
use re_remote_dev.Prelude.Text.{is_blank, is_empty, len}
use re_remote_dev.Result.{ok}
use re_remote_dev.Server.{EndpointRecord, Host, Server, Session}
use re_remote_dev.Server.Accounts.{AllBalanced, Balanced}
use re_remote_dev.Server.Parse.{parse_candidate}

abbrev pub IsEndpoint : EndpointKey → Type 0
IsEndpoint e =
    (is_empty e.hostname ≡ false)
    × (leb (len e.hostname) 253 ≡ true)
    × (is_blank e.hostname ≡ false)
    × (in_port_range e.port ≡ true)

-- A record stands under the digest of its own endpoint.
abbrev pub IsPlaced : (String → String) → String → EndpointRecord → Type 0
IsPlaced sha256 digest r = (endpoint_digest sha256 r.endpoint ≡ digest) × IsEndpoint r.endpoint

-- What `_handle_lease` accepts for a session id.
abbrev pub IsName : String → Type 0
IsName session_id = (is_empty session_id ≡ false) × (leb (len session_id) 128 ≡ true)

-- The user of the request's candidate is more than white space.
abbrev pub HasNamedUser : Fields → Type 0
HasNamedUser payload =
    (user fingerprint : String)
    → parse_candidate payload ≡ ok (user, fingerprint)
    → is_blank user ≡ false

-- A session id is one that a request may name, and its user has a name.
abbrev pub IsNamed : String → Session → Type 0
IsNamed session_id x =
    (is_empty session_id ≡ false) × (leb (len session_id) 128 ≡ true) × (is_blank x.user ≡ false)

pub record IsSound (sha256 : String → String) (eps : Dict EndpointRecord) (ss : Dict Session)
    : Type 0 where
  pub unique : Unique ss
  pub balanced : AllBalanced eps ss
  pub placed : Every (IsPlaced sha256) eps
  pub named : Every IsNamed ss

-- A record in hand, about to be written back under its digest.
pub record Stage (sha256 : String → String) (digest : String) (r : EndpointRecord)
    (eps : Dict EndpointRecord) (ss : Dict Session) : Type 0 where
  pub sound : IsSound sha256 eps ss
  pub right : Balanced (some r) digest ss
  pub place : IsPlaced sha256 digest r

-- The invariant of the server's tables.
abbrev pub Sound : {F : Type 0} → Host F → Server F → Type 0
Sound host s = IsSound host.sha256 s.endpoints s.sessions

abbrev pub Staged : {F : Type 0} → Host F → String → EndpointRecord × Server F → Type 0
Staged host digest (r, s) = Stage host.sha256 digest r s.endpoints s.sessions
