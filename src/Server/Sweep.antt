-- ===== src/Server/Sweep.antt =====
-- `_expire_sessions`, `_reconcile_endpoints` and `_force_cleanup` of orchestrator/server.py.
use re_remote_dev.Dict.{get, put}
use re_remote_dev.Json.{Fields, end, field, num, obj, str}
use re_remote_dev.Model.{EndpointKey, TargetKey, make_endpoint, make_target}
use re_remote_dev.Prelude.{
  Bool, List, Option, String, [], eqb, false, get_or, if◌then◌else◌, leb, ltb, none, some, true, ℕ,
  ◌+◌, ◌||◌, ◌∷◌,
}
use re_remote_dev.Prelude.Int.{pos}
use re_remote_dev.Prelude.Text.{is_empty}
use re_remote_dev.Result.{Result, err, ok}
use re_remote_dev.Server.{
  EndpointRecord, Host, Outcome, Reply, Server, Session, cleaned, forward_rows,
  mark_forward_failure, raised, ready, reply,
}
use re_remote_dev.Server.Acquire.{guarded_start}
use re_remote_dev.Server.Lease.{handle_lease, op_release}
use re_remote_dev.Server.Release.{finish_oauth, least_user, sessions_of}

-- The release request that the expiry sends to `_handle_lease`.
unfoldable pub release_payload : EndpointKey → String → Fields
release_payload endpoint session_id =
    field "endpoint"
      (obj (field "hostname" (str endpoint.hostname) (field "port" (num (pos endpoint.port)) end)))
      (field "session_id" (str session_id) end)

-- now - last_seen <= lease_ttl
abbrev pub alive_at : ℕ → ℕ → Session → Bool
alive_at now ttl x = leb now (x.last_seen + ttl)

-- A loop goes on unless an exception left its body.
abbrev pub Swept : Type 0 → Type 0
Swept F = Option String × Server F

abbrev pub swept : {F : Type 0} → Outcome × Server F → Swept F
swept (reply r, s) = (none, s)
swept (raised e, s) = (some e, s)

abbrev pub and_then : {F : Type 0} → Swept F → (Server F → Swept F) → Swept F
and_then (none, s) next = next s
and_then (some e, s) next = (some e, s)

abbrev pub has_identity : Session → Bool
has_identity x = elim x.identity_file [ none ↦ false | some file ↦ true ]

unfoldable pub with_identity_only : List Session → List Session
with_identity_only [] = []
with_identity_only (x ∷ xs) =
    let rest = with_identity_only xs in if has_identity x then x ∷ rest else rest

-- The record after a reconnection by `owner`.
unfoldable pub reconnected : String → EndpointRecord → EndpointRecord
reconnected owner r = record r {
  owner = some owner;
  state = ready;
  forwards = forward_rows ready none r.event_required;
  failure_count = 0;
  last_error = none;
  next_retry = none;
}

-- record.get("state") == "READY" or session_count <= 0 or now < record.get("next_retry", 0)
unfoldable pub is_settled : ℕ → EndpointRecord → Bool
is_settled now r = elim r.state [
  | ready ↦ true
  | _ ↦ eqb r.session_count 0 || ltb now (get_or r.next_retry 0)
]

module _ {F : Type 0} (host : Host F) where
  unfoldable pub expire_one : ℕ → String → Session → Server F → Option EndpointRecord → Swept F
  unfolding release_payload
  expire_one now session_id x s none = (none, s)
  expire_one now session_id x s (some r) =
      swept (handle_lease host op_release now (release_payload r.endpoint session_id) s)

  unfoldable pub expire_list : ℕ → List (String × Session) → Server F → Swept F
  unfolding expire_one
  expire_list now [] s = (none, s)
  expire_list now ((session_id, x) ∷ rest) s =
      and_then
        (if alive_at now s.lease_ttl x
          then (none, s)
          else expire_one now session_id x s (get x.endpoint_digest s.endpoints))
        (expire_list now rest)

  -- _expire_sessions
  unfoldable pub expire_sessions : ℕ → Server F → Swept F
  unfolding expire_list
  expire_sessions now s = expire_list now s.sessions s

  unfoldable pub reconnect_at :
      ℕ → String → EndpointRecord → Server F → String → String → Result EndpointKey → Server F
  unfolding reconnected
  reconnect_at now digest r s user file (err exc) = record s {
    endpoints = put digest (mark_forward_failure host now exc r) s.endpoints;
  }
  reconnect_at now digest r s user file (ok endpoint) =
      (guarded_start host now digest endpoint user file r.event_required (reconnected user) r s).1

  unfoldable pub reconnect_by :
      ℕ → String → EndpointRecord → Server F → String → Option String → Server F
  unfolding reconnect_at
  reconnect_by now digest r s user none = s
  reconnect_by now digest r s user (some file) =
      reconnect_at now digest r s user file
        (make_endpoint r.endpoint.hostname (pos r.endpoint.port))

  -- The start for the least of the users that have an identity file.
  unfoldable pub reconnect : ℕ → String → EndpointRecord → Server F → Option Session → Server F
  unfolding reconnect_by
  reconnect now digest r s none = s
  reconnect now digest r s (some owner) = reconnect_by now digest r s owner.user owner.identity_file

  unfoldable pub reconcile_one : ℕ → String → Server F → Option EndpointRecord → Server F
  unfolding reconnect
  reconcile_one now digest s none = s
  reconcile_one now digest s (some r) =
      if is_settled now r
      then s
      else reconnect now digest r s
          (least_user (with_identity_only (sessions_of digest s.sessions)))

  unfoldable pub reconcile_list : ℕ → List (String × EndpointRecord) → Server F → Server F
  unfolding reconcile_one
  reconcile_list now [] s = s
  reconcile_list now ((digest, r) ∷ rest) s =
      reconcile_list now rest (reconcile_one now digest s (get digest s.endpoints))

  -- _reconcile_endpoints; each record is the object that the table still holds
  unfoldable pub reconcile_endpoints : ℕ → Server F → Server F
  unfolding reconcile_list
  reconcile_endpoints now s = reconcile_list now s.endpoints s

  -- self.endpoint_forwarder.stop(endpoint_key, owner), and whether it raised
  unfoldable pub stop_tunnel : EndpointKey → Option String → ℕ → Server F → ℕ × Server F
  stop_tunnel endpoint owner stopped s =
      let (result, f) = host.stop s.forwarder endpoint owner in
      (elim result [ ok _ ↦ stopped + 1 | err exc ↦ stopped ], record s { forwarder = f })

  unfoldable pub stop_owned : EndpointKey → String → ℕ → Server F → Result TargetKey → ℕ × Server F
  unfolding stop_tunnel
  stop_owned endpoint owner stopped s (err exc) = (stopped, s)
  stop_owned endpoint owner stopped s (ok target) =
      stop_tunnel endpoint (some owner) stopped (finish_oauth target s)

  unfoldable pub stop_record :
      EndpointRecord → ℕ → Server F → Result EndpointKey → Option String → ℕ × Server F
  unfolding stop_owned
  stop_record r stopped s (err exc) owner = (stopped, s)
  stop_record r stopped s (ok endpoint) none = stop_tunnel endpoint none stopped s
  stop_record r stopped s (ok endpoint) (some owner) =
      if is_empty owner
      then stop_tunnel endpoint (some owner) stopped s
      else stop_owned endpoint owner stopped s
          (make_target endpoint.hostname (pos endpoint.port) owner "")

  unfoldable pub stop_all : List (String × EndpointRecord) → ℕ → Server F → ℕ × Server F
  unfolding stop_record
  stop_all [] stopped s = (stopped, s)
  stop_all ((digest, r) ∷ rest) stopped s =
      let (stopped', s') =
        stop_record r stopped s (make_endpoint r.endpoint.hostname (pos r.endpoint.port)) r.owner in
      stop_all rest stopped' s'

  -- _force_cleanup
  unfoldable pub force_cleanup : Server F → Reply × Server F
  unfolding stop_all
  force_cleanup s =
      let (stopped, s') = stop_all s.endpoints 0 s in
      (
        cleaned stopped,
        record s' {
          sessions = [];
          endpoints = [];
          targets = [];
          identity_files = [];
          browser_opened = [];
        },
      )
