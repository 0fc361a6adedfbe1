-- ===== src/Tunnel/Removal.antt =====
-- Which tunnels a stop takes down.
use re_remote_dev.Dict.{Dict, get, get-put_self, get-remove, put}
use re_remote_dev.Model.{
  EndpointKey, TargetKey, endpoint_digest, make_target, target_endpoint_digest,
}
use re_remote_dev.Prelude.{
  Bool, List, Option, String, arith, eq_iff, false, if_both, inl, inr, none, refl, some, true, ℕ,
  ◌≡◌, ◌⊎◌,
}
use re_remote_dev.Prelude.Int.{pos}
use re_remote_dev.Prelude.Text.{◌<>◌}
use re_remote_dev.Result.{Result, err, ok}
use re_remote_dev.Server.Lifecycle.{discard, member}
use re_remote_dev.Tunnel.{
  TunnelAnswers, Tunnels, add, beside, by_probe, confirm, confirmed, has_proxy, install, or_owner,
  remove_own, start, started, stop,
}
use re_remote_dev.Tunnel.Unit.{
  Probe, ensure, free, healthy, occupied, probe_of, remove_unit, unavailable, unit_name, unit_text,
  unreachable,
}

make_target-place :
    (hostname : String) (port : ℕ) (user : String) (target : TargetKey)
    → make_target hostname (pos port) user "" ≡ ok target
    → (target.hostname ≡ hostname) × (target.port ≡ port)
unfolding make_target
make_target-place hostname port user target h = ground arith

module _ (sha256 : String → String) where
  digest_place :
      (endpoint : EndpointKey) (user : String) (target : TargetKey)
      → make_target endpoint.hostname (pos endpoint.port) user "" ≡ ok target
      → target_endpoint_digest sha256 target ≡ endpoint_digest sha256 endpoint
  unfolding target_endpoint_digest endpoint_digest
  digest_place endpoint user target h =
      let (same_host, same_port) =
        make_target-place endpoint.hostname endpoint.port user target h in
      rw (same_host, same_port) refl

  -- The name of the unit of an endpoint.
  abbrev pub endpoint_unit : EndpointKey → String
  endpoint_unit endpoint = "remote-dev-proxy-" <> endpoint_digest sha256 endpoint <> ".service"

  remove_own-unit :
      (endpoint : EndpointKey) (user : String) (target : TargetKey) (t : Tunnels)
      → make_target endpoint.hostname (pos endpoint.port) user "" ≡ ok target
      → get (endpoint_unit endpoint) (remove_own sha256 t (ok target)).1.units ≡ none
  unfolding remove_own remove_unit unit_name
  remove_own-unit endpoint user target t h = rw (digest_place endpoint user target h) (
      rw
        (
          get-remove (endpoint_unit endpoint) (endpoint_unit endpoint) t.units,
          (eq_iff (endpoint_unit endpoint) (endpoint_unit endpoint)).1 refl,
        )
        refl)

  -- Where the endpoint's tunnel is not marked as another controller's, or is marked as its event leg
  -- only, a stop whose target is valid removes the endpoint's unit.
  stop-unit :
      (endpoint : EndpointKey) (user : Option String) (target : TargetKey) (t : Tunnels)
      → make_target endpoint.hostname (pos endpoint.port) (or_owner user) "" ≡ ok target
      → (member (endpoint_digest sha256 endpoint) t.external ≡ false)
        ⊎ (member (endpoint_digest sha256 endpoint) t.event_only ≡ true)
      → get (endpoint_unit endpoint) (stop sha256 endpoint user t).1.units ≡ none
  unfolding stop
  stop-unit endpoint user target t v (inl h) =
      rw (h, v) (remove_own-unit endpoint (or_owner user) target t v)
  stop-unit endpoint user target t v (inr h) =
      rw (v, h)
        (if_both {A = Result (Unit {0}) × Tunnels}
          (λ p. get (endpoint_unit endpoint) p.1.units ≡ none)
          (member (endpoint_digest sha256 endpoint) t.external)
          (remove_own-unit endpoint (or_owner user) target
            (record t {
              external = discard (endpoint_digest sha256 endpoint) t.external;
              event_only = discard (endpoint_digest sha256 endpoint) t.event_only;
            })
            v)
          (remove_own-unit endpoint (or_owner user) target t v))

-- The endpoint's tunnel is this controller's: it is not marked as another's, or only its event leg is ours.
abbrev pub IsOurs : String → Tunnels → Type 0
IsOurs digest t = (member digest t.external ≡ false) ⊎ (member digest t.event_only ≡ true)

module _ (sha256 : String → String) (expanduser : String → String) (join : List String → String)
    (contains : String → String → Bool) (a : TunnelAnswers) where
  member-add : (x : String) (xs : List String) → member x (add x xs) ≡ true
  member-add x xs = ground (arith, eq_iff x x)

  beside-IsOurs :
      (target : TargetKey) (digest identity : String) (t : Tunnels)
      → IsOurs digest (beside sha256 expanduser join contains a target digest identity true t).1
  unfolding beside install
  beside-IsOurs target digest identity t = inr (member-add digest t.event_only)

  by_probe-IsOurs :
      (target : TargetKey) (digest identity : String) (t : Tunnels) (p : Probe)
      → IsOurs digest t
      → IsOurs digest (by_probe sha256 expanduser join contains a target digest identity true t p).1
  unfolding by_probe install
  by_probe-IsOurs target digest identity t healthy h = beside-IsOurs target digest identity t
  by_probe-IsOurs target digest identity t occupied h = h
  by_probe-IsOurs target digest identity t free h = h
  by_probe-IsOurs target digest identity t unavailable h = h
  by_probe-IsOurs target digest identity t unreachable h = h

  started-IsOurs :
      (digest identity : String) (t : Tunnels) (r : Result TargetKey)
      → IsOurs digest t
      → IsOurs digest (started sha256 expanduser join contains a digest identity true t r).1
  unfolding started install
  started-IsOurs digest identity t (err exc) h = h
  started-IsOurs digest identity t (ok target) h =
      if_both {A = Result (Unit {0}) × Tunnels} (λ p. IsOurs digest p.1) a.active
        (if_both {A = Result (Unit {0}) × Tunnels} (λ p. IsOurs digest p.1)
          (has_proxy sha256 expanduser join contains (get (unit_name sha256 target) t.units)) h
          (beside-IsOurs target digest identity t))
        (by_probe-IsOurs target digest identity t (probe_of a.probe) h)

  -- After a start that asks for the event leg, whatever it met, a stop for a valid target leaves no unit
  -- of the endpoint, if the endpoint was not already marked as another controller's alone.
  pub start_stop :
      (endpoint : EndpointKey) (user identity : String) (leaver : Option String)
      (target : TargetKey) (t : Tunnels)
      → make_target endpoint.hostname (pos endpoint.port) (or_owner leaver) "" ≡ ok target
      → IsOurs (endpoint_digest sha256 endpoint) t
      → let t1 = (start sha256 expanduser join contains a endpoint user identity true t).1 in
        get (endpoint_unit sha256 endpoint) (stop sha256 endpoint leaver t1).1.units ≡ none
  unfolding start
  start_stop endpoint user identity leaver target t v h =
      stop-unit sha256 endpoint leaver target _ v (
        started-IsOurs (endpoint_digest sha256 endpoint) identity t
          (make_target endpoint.hostname (pos endpoint.port) user "") h)

  ensure-ok :
      (target : TargetKey) (identity : String) (units : Dict String)
      → a.systemd.reload ≡ true
      → a.systemd.activate ≡ true
      → ensure sha256 expanduser join a.systemd target identity true true units ≡ (
        ok tt,
        put
            (unit_name sha256 target)
            (unit_text sha256 expanduser join target identity true true)
            units,
      )
  unfolding ensure
  ensure-ok target identity units r q = ground arith

  install-ok :
      (target : TargetKey) (identity : String) (t : Tunnels)
      → a.systemd.reload ≡ true
      → a.systemd.activate ≡ true
      → confirmed a.polls ≡ true
      → install sha256 expanduser join contains a target identity true true t ≡ (
        ok tt,
        record t {
          units =
              put
                (unit_name sha256 target)
                (unit_text sha256 expanduser join target identity true true)
                t.units;
        },
      )
  unfolding install confirm
  install-ok target identity t r q c = rw (ensure-ok target identity t.units r q, c) refl

  started_fresh :
      (endpoint : EndpointKey) (user identity : String) (target : TargetKey) (t : Tunnels)
      → make_target endpoint.hostname (pos endpoint.port) user "" ≡ ok target
      → a.active ≡ false
      → probe_of a.probe ≡ free
      → a.systemd.reload ≡ true
      → a.systemd.activate ≡ true
      → confirmed a.polls ≡ true
      → start sha256 expanduser join contains a endpoint user identity true t ≡ (
        ok tt,
        record t {
          units =
              put
                (unit_name sha256 target)
                (unit_text sha256 expanduser join target identity true true)
                t.units;
        },
      )
  unfolding start started by_probe
  started_fresh endpoint user identity target t v n p r q c =
      cc (v, n, p, install-ok target identity t r q c)

  -- An endpoint that an earlier start marked as another controller's, and not as ours for the event leg,
  -- gets a unit of both legs from a start that finds no active unit and the remote port free and whose
  -- unit starts and stays up; the next stop, by anyone, leaves that unit in place.
  pub start_stop_stale :
      (endpoint : EndpointKey) (user identity : String) (leaver : Option String)
      (target : TargetKey) (t : Tunnels)
      → make_target endpoint.hostname (pos endpoint.port) user "" ≡ ok target
      → member (endpoint_digest sha256 endpoint) t.external ≡ true
      → member (endpoint_digest sha256 endpoint) t.event_only ≡ false
      → a.active ≡ false
      → probe_of a.probe ≡ free
      → a.systemd.reload ≡ true
      → a.systemd.activate ≡ true
      → confirmed a.polls ≡ true
      → let out = start sha256 expanduser join contains a endpoint user identity true t in
        (out.0 ≡ ok tt)
        × (get (endpoint_unit sha256 endpoint) (stop sha256 endpoint leaver out.1).1.units
            ≡ some (unit_text sha256 expanduser join target identity true true))
  unfolding start started by_probe stop unit_name
  start_stop_stale endpoint user identity leaver target t v x e n p r q c =
      rw (started_fresh endpoint user identity target t v n p r q c, x, e)
        (refl, rw (digest_place sha256 endpoint user target v) (get-put_self _ _ t.units))
