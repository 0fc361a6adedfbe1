-- ===== src/Tunnel.antt =====
-- orchestrator/endpoint_forward.py: `EndpointForwardManager`, which keeps at most one tunnel unit for an
-- endpoint and leaves the tunnels of other controllers alone.
pub mod Unit
pub mod Removal
pub mod Orphans
use re_remote_dev.Dict.{Dict, get}
use re_remote_dev.Model.{EndpointKey, TargetKey, endpoint_digest, make_target}
use re_remote_dev.Prelude.{
  Bool, List, Option, String, any, false, if◌then◌else◌, none, some, take, true, ◌&&◌, ◌∷◌,
}
use re_remote_dev.Prelude.Int.{pos}
use re_remote_dev.Prelude.Text.{is_empty, ◌<>◌}
use re_remote_dev.Result.{Result, err, failed, ok}
use re_remote_dev.Server.Lifecycle.{discard, member}
use re_remote_dev.Tunnel.Unit.{
  Probe, Probed, Systemd, ensure, healthy, occupied, probe_of, proxy_leg, remove_unit, unit_name,
}

-- `external` and `event_only` are the sets of endpoint digests of those names, `units` the unit files.
pub record Tunnels : Type 0 where
  pub external : List String
  pub event_only : List String
  pub units : Dict String

-- `polls` are the answers of is-active after the start: the first and, half a second later, the second.
pub record TunnelAnswers : Type 0 where
  pub active : Bool
  pub probe : Probed
  pub systemd : Systemd
  pub polls : List (Bool × Bool)
  pub detail : String

-- set.add
abbrev pub add : String → List String → List String
add x xs = if member x xs then xs else x ∷ xs

abbrev pub both_active : Bool × Bool → Bool
both_active (first, second) = first && second

-- Ten polls, of which one must find the unit active twice.
unfoldable pub confirmed : List (Bool × Bool) → Bool
confirmed polls = any both_active (take 10 polls)

-- user or "owner"
abbrev pub or_owner : Option String → String
or_owner none = "owner"
or_owner (some user) = if is_empty user then "owner" else user

module _ (sha256 : String → String) (expanduser : String → String) (join : List String → String)
    (contains : String → String → Bool) where
  -- `proxy_leg in path.read_text()`, true where the file cannot be read
  has_proxy : Option String → Bool
  has_proxy none = true
  has_proxy (some text) = contains proxy_leg text

  unfoldable pub confirm :
      TunnelAnswers → TargetKey → Result (Unit {0}) × Dict String → Result (Unit {0}) × Dict String
  confirm a target (err exc, units) = (err exc, remove_unit sha256 target units)
  confirm a target (ok _, units) =
      if confirmed a.polls
      then (ok tt, units)
      else (err (failed ("SSH 反向转发未保持运行（" <> a.detail <> "）")), remove_unit sha256 target units)

  abbrev pub with_units : Tunnels → Result (Unit {0}) × Dict String → Result (Unit {0}) × Tunnels
  with_units t (r, units) = (r, record t { units = units })

  -- The unit is written and started, and removed again unless it stays active.
  unfoldable pub install :
      TunnelAnswers → TargetKey → String → Bool → Bool → Tunnels → Result (Unit {0}) × Tunnels
  unfolding confirm
  install a target identity proxy event t = with_units t (
      confirm a target
        (ensure sha256 expanduser join a.systemd target identity proxy event t.units))

  -- A tunnel of another controller is left alone, and only the event leg is added to it.
  unfoldable pub beside :
      TunnelAnswers → TargetKey → String → String → Bool → Tunnels → Result (Unit {0}) × Tunnels
  unfolding install
  beside a target digest identity event t =
      let known : Tunnels = record t { external = add digest t.external } in
      if event
      then install a target identity false true
          (record known { event_only = add digest t.event_only })
      else (ok tt, known)

  unfoldable pub by_probe :
      TunnelAnswers
      → TargetKey
      → String
      → String
      → Bool
      → Tunnels
      → Probe
      → Result (Unit {0}) × Tunnels
  unfolding beside
  by_probe a target digest identity event t healthy = beside a target digest identity event t
  by_probe a target digest identity event t occupied = (err (failed "远端 4227 已被占用且代理请求无响应"), t)
  by_probe a target digest identity event t probe = install a target identity true event t

  unfoldable pub started :
      TunnelAnswers
      → String
      → String
      → Bool
      → Tunnels
      → Result TargetKey
      → Result (Unit {0}) × Tunnels
  unfolding by_probe has_proxy
  started a digest identity event t (err exc) = (err exc, t)
  started a digest identity event t (ok target) =
      if a.active
      then (if has_proxy (get (unit_name sha256 target) t.units)
          then install a target identity true event t
          else beside a target digest identity event t)
      else by_probe a target digest identity event t (probe_of a.probe)

  -- start(endpoint, user, identity_file, event_forward=…)
  unfoldable pub start :
      TunnelAnswers → EndpointKey → String → String → Bool → Tunnels → Result (Unit {0}) × Tunnels
  unfolding started
  start a endpoint user identity event t =
      started a (endpoint_digest sha256 endpoint) identity event t
        (make_target endpoint.hostname (pos endpoint.port) user "")

module _ (sha256 : String → String) where
  unfoldable pub remove_own : Tunnels → Result TargetKey → Result (Unit {0}) × Tunnels
  remove_own t (err exc) = (err exc, t)
  remove_own t (ok target) = (ok tt, record t { units = remove_unit sha256 target t.units })

  -- stop(endpoint, user)
  unfoldable pub stop : EndpointKey → Option String → Tunnels → Result (Unit {0}) × Tunnels
  unfolding remove_own
  stop endpoint user t =
      let digest = endpoint_digest sha256 endpoint in
      let target = make_target endpoint.hostname (pos endpoint.port) (or_owner user) "" in
      let forgotten : Tunnels = record t { external = discard digest t.external } in
      if member digest t.external
      then (if member digest t.event_only
          then remove_own (record forgotten { event_only = discard digest t.event_only }) target
          else (ok tt, forgotten))
      else remove_own t target
