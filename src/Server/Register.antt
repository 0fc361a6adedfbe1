-- ===== src/Server/Register.antt =====
-- The `register` and `unregister` requests of orchestrator/server.py.
use re_remote_dev.Dict.{get, put, remove}
use re_remote_dev.Json.{
  Fields, Json, as_object, get_field, null, num, obj, py_int, py_str, str, truthy, truthy_or,
}
use re_remote_dev.Model.{TargetKey, make_target, target_digest}
use re_remote_dev.Model.Status.{
  ForwardState, ForwardStatus, MasterState, OauthState, TargetStatus, new_forward_status,
}
use re_remote_dev.Prelude.{Option, String, false, get_or, if◌then◌else◌, none, on_some, some, ◌==◌}
use re_remote_dev.Prelude.Int.{pos, ℤ}
use re_remote_dev.Prelude.Text.{is_empty}
use re_remote_dev.Protocol.{required}
use re_remote_dev.Result.{Result, err, invalid, ok, ◌>>=◌}
use re_remote_dev.Server.{Host, Outcome, Server, message, raised, refused, registered, reply}

-- ForwardState(str(value.get("state", "ABSENT"))), DEGRADED where that is no state
abbrev state_named : String → ForwardState
state_named s =
    if s == "ABSENT"
    then ForwardState.absent
    else if s == "STARTING"
    then ForwardState.starting
    else if s == "READY"
    then ForwardState.ready
    else if s == "STOPPING"
    then ForwardState.stopping
    else if s == "FAILED"
    then ForwardState.failed
    else ForwardState.degraded

state_of : (Json → String) → Option Json → ForwardState
state_of repr none = ForwardState.absent
state_of repr (some v) = state_named (py_str repr v)

-- f(value[key]) if value.get(key) is not None else None; an `err` is a TypeError or a ValueError
abbrev converted : {A : Type 0} → Option A → Result (Option A)
converted none = err (invalid "int")
converted (some a) = ok (some a)

unfoldable pub maybe : {A : Type 0} → (Json → Option A) → Option Json → Result (Option A)
maybe f none = ok none
maybe f (some null) = ok none
maybe f (some v) = converted (f v)

error_text : (Json → String) → Option Json → Option String
error_text repr none = none
error_text repr (some v) = if truthy v then some (py_str repr v) else none

-- _forward_status(value, kind, previous)
unfoldable pub forward_status :
    (Json → String)
    → (Json → Option ℤ)
    → Option Json
    → String
    → Option ForwardStatus
    → Result ForwardStatus
unfolding state_of maybe error_text
forward_status repr py_float (some (obj value)) kind previous = do
  pid ← maybe py_int (get_field "pid" value)
  local_port ← maybe py_int (get_field "local_port" value)
  remote_port ← maybe py_int (get_field "remote_port" value)
  last_success ← maybe py_float (get_field "last_success" value)
  ok (record {
    kind = kind;
    state = state_of repr (get_field "state" value);
    pid = pid;
    local_port = local_port;
    remote_port = remote_port;
    last_error = error_text repr (get_field "last_error" value);
    last_success = last_success;
  })
forward_status repr py_float value kind previous = ok (get_or previous (new_forward_status kind))

-- payload.get(key), taken as a text where it is truthy
path_of : (Json → String) → Option Json → Option String
path_of repr none = none
path_of repr (some v) = if truthy v then some (py_str repr v) else none

-- TargetKey(hostname=str(…), port=int(…), user=str(…), identity_fingerprint=str(…))
unfoldable pub target_of : (Json → String) → Fields → Result TargetKey
target_of repr data_ = do
  hostname ← required "hostname" data_
  port ← (elim (py_int (get_or (get_field "port" data_) (num (pos 22)))) [
    | none ↦ err (invalid "int")
    | some n ↦ ok n
  ])
  user ← required "user" data_
  make_target (py_str repr hostname) port (py_str repr user)
      (py_str repr (get_or (get_field "identity_fingerprint" data_) (str "")))

abbrev pub or_else : {A : Type 0} → Option A → Option A → Option A
or_else none b = b
or_else (some a) b = some a

-- The status that a registration gives a target, over what was known of it.
unfoldable pub registered_status :
    (Json → String)
    → (Json → Option ℤ)
    → TargetKey
    → Fields
    → Option TargetStatus
    → Result TargetStatus
unfolding path_of
registered_status repr py_float target payload none = do
  proxy ← forward_status repr py_float (get_field "proxy_forward" payload) "proxy" none
  event ← forward_status repr py_float (get_field "event_forward" payload) "event" none
  ok (record {
    target = target;
    master = elim (path_of repr (get_field "control_path" payload)) [
      | none ↦ MasterState.absent
      | some p ↦ MasterState.ready
    ];
    oauth = OauthState.none_yet;
    control_path = path_of repr (get_field "control_path" payload);
    proxy_available = truthy_or false (get_field "proxy_available" payload);
    session_count = 0;
    proxy_forward = proxy;
    event_forward = event;
    oauth_forward = new_forward_status "oauth";
  })
registered_status repr py_float target payload (some previous) = do
  proxy ←
      forward_status repr py_float (get_field "proxy_forward" payload) "proxy"
        (some previous.proxy_forward)
  event ←
      forward_status repr py_float (get_field "event_forward" payload) "event"
        (some previous.event_forward)
  ok (record previous {
    target = target;
    control_path = or_else (path_of repr (get_field "control_path" payload)) previous.control_path;
    proxy_available = truthy_or previous.proxy_available (get_field "proxy_available" payload);
    proxy_forward = proxy;
    event_forward = event;
  })

-- identity_file is a text that is not empty
text_of : Option Json → Option String
text_of (some (str s)) = if is_empty s then none else some s
text_of _ = none

module _ {F : Type 0} (host : Host F) where
  unfoldable pub keep_identity : String → Option String → Server F → Server F
  keep_identity digest none s = s
  keep_identity digest (some file) s = record s {
    identity_files = put digest (host.expanduser file) s.identity_files;
  }

  -- An exception of `_forward_status` is not caught in `handle`.
  unfoldable pub store_status : String → Server F → Result TargetStatus → Outcome × Server F
  store_status digest s (err exc) = (raised (message exc), s)
  store_status digest s (ok t) =
      (reply (registered digest), record s { targets = put digest t s.targets })

  unfoldable pub register_known : Fields → Server F → Result TargetKey → Outcome × Server F
  unfolding keep_identity store_status text_of
  register_known payload s (err exc) = (reply (refused "target 无效"), s)
  register_known payload s (ok target) =
      let digest = target_digest host.sha256 target in
      store_status digest (keep_identity digest (text_of (get_field "identity_file" payload)) s)
        (registered_status host.repr host.py_float target payload (get digest s.targets))

  unfoldable pub register : Fields → Server F → Outcome × Server F
  unfolding register_known
  register payload s =
      on_some (reply (refused "target 必须是 object"), s)
        (λ data_. register_known payload s (target_of host.repr data_))
        (as_object (get_field "target" payload))

  unfoldable pub unregister_known : Server F → Result TargetKey → Outcome × Server F
  unregister_known s (err exc) = (reply (refused "target 无效"), s)
  unregister_known s (ok target) =
      let digest = target_digest host.sha256 target in
      (
        reply (registered digest),
        record s {
          targets = remove digest s.targets;
          identity_files = remove digest s.identity_files;
        },
      )

  unfoldable pub unregister : Fields → Server F → Outcome × Server F
  unfolding unregister_known
  unregister payload s =
      on_some (reply (refused "target 必须是 object"), s)
        (λ data_. unregister_known s (target_of host.repr data_))
        (as_object (get_field "target" payload))
