-- ===== src/Server/Handle.antt =====
-- `handle` of orchestrator/server.py: the sweeps that precede every request, and the dispatch.
use re_remote_dev.Dict.{Dict, values}
use re_remote_dev.Json.{Fields, Json, arr, get_field, obj, str}
use re_remote_dev.Oauth.{Answers}
use re_remote_dev.Prelude.{
  Bool, List, Option, String, [], any, false, if◌then◌else◌, none, on_some, some, ℕ, ◌-◌, ◌==◌, ◌∷◌,
}
use re_remote_dev.Server.{
  EndpointRecord, Host, Outcome, Reply, Server, Session, healthy, raised, refused, reply, report,
  stopping,
}
use re_remote_dev.Server.Lease.{handle_lease, op_acquire, op_heartbeat, op_release}
use re_remote_dev.Server.Lifecycle.{handle_event}
use re_remote_dev.Server.Preview.{register_preview}
use re_remote_dev.Server.Release.{sessions_of}
use re_remote_dev.Server.Sweep.{Swept, expire_sessions, force_cleanup, reconcile_endpoints}
use re_remote_dev.Server.Preview
use re_remote_dev.Server.Register
use mathlib.Core.Option

-- The modes of the endpoints: persistent where one of the sessions is.
is_persistent : String → Dict Session → Bool
is_persistent digest ss = any (λ x. x.persistent) (sessions_of digest ss)

-- The `status` reply: each endpoint with the time until its retry and its mode.
summaries : ℕ → Dict EndpointRecord → Dict Session → List (EndpointRecord × Option ℕ × Bool)
unfolding is_persistent
summaries now [] ss = []
summaries now ((digest, r) ∷ eps) ss =
    (r, Option.map (λ t. t - now) r.next_retry, is_persistent r.endpoint_digest ss)
    ∷ summaries now eps ss

pub data Op : Type 0 where
  health status shutdown cleanup lease_acquire lease_release lease_heartbeat : Op
  preview_register register unregister unsupported unhashable : Op

abbrev pub op_named : String → Op
op_named op =
    if op == "health"
    then health
    else if op == "status"
    then status
    else if op == "shutdown"
    then shutdown
    else if op == "cleanup"
    then cleanup
    else if op == "acquire"
    then lease_acquire
    else if op == "release"
    then lease_release
    else if op == "heartbeat"
    then lease_heartbeat
    else if op == "preview_register"
    then preview_register
    else if op == "register"
    then register
    else if op == "unregister"
    then unregister
    else unsupported

-- payload.get("op"); a list or an object cannot be looked up in a set
abbrev pub op_of : Option Json → Op
op_of (some (str op)) = op_named op
op_of (some (arr xs)) = unhashable
op_of (some (obj fields)) = unhashable
op_of _ = unsupported

abbrev pub answered : {F : Type 0} → Reply × Server F → Outcome × Server F
answered (r, s) = (reply r, s)

module _ {F : Type 0} (host : Host F) where
  unfoldable pub run_op : ℕ → Op → Fields → Server F → Outcome × Server F
  unfolding summaries
  run_op now health payload s = (reply healthy, s)
  run_op now status payload s =
      (reply (report (values s.targets) (summaries now s.endpoints s.sessions)), s)
  run_op now shutdown payload s = (reply stopping, record s { running = false })
  run_op now cleanup payload s = answered (force_cleanup host s)
  run_op now lease_acquire payload s = handle_lease host op_acquire now payload s
  run_op now lease_release payload s = handle_lease host op_release now payload s
  run_op now lease_heartbeat payload s = handle_lease host op_heartbeat now payload s
  run_op now preview_register payload s = answered (Preview.register_preview payload s)
  run_op now register payload s = Register.register host payload s
  run_op now unregister payload s = Register.unregister host payload s
  run_op now unsupported payload s = (reply (refused "不支持的操作"), s)
  run_op now unhashable payload s = (raised "TypeError", s)

  -- An event goes to `handle_event`, anything else to its operation.
  unfoldable pub dispatch : ℕ → Answers → Fields → Server F → Outcome × Server F
  dispatch now answers payload s =
      on_some (run_op now (op_of (get_field "op" payload)) payload s)
        (λ event. answered (handle_event host.dump_size answers payload s))
        (get_field "event" payload)

  unfoldable pub after_expiry : ℕ → Answers → Fields → Swept F → Outcome × Server F
  unfolding dispatch
  after_expiry now answers payload (some e, s) = (raised e, s)
  after_expiry now answers payload (none, s) =
      dispatch now answers payload (reconcile_endpoints host now s)

  -- handle(payload)
  unfoldable pub handle : ℕ → Answers → Fields → Server F → Outcome × Server F
  unfolding after_expiry
  handle now answers payload s = after_expiry now answers payload (expire_sessions host now s)
