-- ===== src/Server/Joining.antt =====
-- What a new session of an acquire joins: the endpoint's record, the session itself and its target.
use re_remote_dev.Json.{Fields, get_field, truthy_or}
use re_remote_dev.Model.{EndpointKey, TargetKey}
use re_remote_dev.Model.Status.{
  ForwardState, ForwardStatus, MasterState, OauthState, TargetStatus, new_forward_status,
}
use re_remote_dev.Prelude.{Bool, Option, String, false, get_or, ltb, none, some, true, ℕ, ◌+◌}
use re_remote_dev.Prelude.Int.{pos}
use re_remote_dev.Server.{
  EndpointRecord, Outcome, Server, Session, forward_rows, granted, ready, reply, starting,
}
use re_remote_dev.Server.Parse.{identity_file_of}
use re_remote_dev.Transfer.{digest}

-- `record["event_required"] = …` and `record["forwards"] = …` after a successful upgrade
abbrev pub upgraded : Bool → EndpointRecord → EndpointRecord
upgraded event r = record r {
  event_required = event;
  forwards = forward_rows r.state r.last_error event;
}

-- `record["state"] = "READY"` and the rows that go with it
abbrev pub made_ready : Bool → EndpointRecord → EndpointRecord
made_ready event r = record r { state = ready; forwards = forward_rows ready none event }

unfoldable pub fresh_record : EndpointKey → String → Bool → EndpointRecord
fresh_record endpoint digest event_required = record {
  endpoint = endpoint;
  endpoint_digest = digest;
  state = starting;
  owner = none;
  session_count = 0;
  event_required = event_required;
  forwards = forward_rows starting none event_required;
  failure_count = 0;
  last_error = none;
  next_retry = none;
}

-- The record that a new session joins, with its owner and its count set.
unfoldable pub join_record :
    EndpointKey → String → Bool → String → Option EndpointRecord → EndpointRecord
unfolding fresh_record
join_record endpoint digest event user existing =
    let r = get_or existing (fresh_record endpoint digest event) in
    record r { owner = some (get_or r.owner user); session_count = r.session_count + 1 }

unfoldable pub new_session : String → String → String → ℕ → Fields → Session
new_session digest user fingerprint now payload = record {
  endpoint_digest = digest;
  user = user;
  identity_fingerprint = fingerprint;
  last_seen = now;
  event_forward = truthy_or true (get_field "event_forward" payload);
  persistent = truthy_or false (get_field "persistent" payload);
  identity_file = identity_file_of payload;
  preview = none;
}

loopback_status : String → ℕ → ℕ → ForwardStatus
loopback_status kind remote_port local_port = record (new_forward_status kind) {
  state = ForwardState.ready;
  remote_port = some (pos remote_port);
  local_port = some (pos local_port);
}

-- The status under which the lease's user is registered for OAuth events.
unfoldable pub join_target : TargetKey → Option TargetStatus → TargetStatus
unfolding loopback_status
join_target target none = record {
  target = target;
  master = MasterState.ready;
  oauth = OauthState.none_yet;
  control_path = none;
  proxy_available = true;
  session_count = 1;
  proxy_forward = loopback_status "proxy" 4227 4227;
  event_forward = loopback_status "event" 4228 4230;
  oauth_forward = new_forward_status "oauth";
}
join_target target (some previous) = record previous {
  proxy_available = true;
  session_count = previous.session_count + 1;
}

abbrev pub granted_new : {F : Type 0} → String → EndpointRecord × Server F → Outcome × Server F
granted_new digest (r, s) =
    (reply (granted digest r.state r.owner r.session_count (ltb 1 r.session_count)), s)
