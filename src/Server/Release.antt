-- ===== src/Server/Release.antt =====
-- The heartbeat and release branches of `_handle_lease`.
use re_remote_dev.Dict.{Dict, get, put, remove}
use re_remote_dev.Model.{EndpointKey, TargetKey, make_target, target_digest}
use re_remote_dev.Model.Status.{TargetStatus}
use re_remote_dev.Oauth.{finish}
use re_remote_dev.Prelude.{
  Bool, List, Option, String, [], any, eqb, false, if◌then◌else◌, leb, none, same, some, ℕ, ◌-◌,
  ◌==◌, ◌∷◌,
}
use re_remote_dev.Prelude.Int.{pos}
use re_remote_dev.Prelude.Text.{text_lt}
use re_remote_dev.Result.{Result, err, ok}
use re_remote_dev.Server.{
  EndpointRecord, Host, Outcome, Server, Session, alive, lease_cleared, not_released, raised,
  released, released_last, released_only, reply, rescue, session_conflict,
}
use re_remote_dev.Server.Acquire.{guarded_start}
use re_remote_dev.Server.Joining.{made_ready, upgraded}

-- previous.get("user") == record.get("owner")
abbrev pub same_owner : String → Option String → Bool
same_owner user none = false
same_owner user (some owner) = user == owner

-- The sessions of an endpoint, in the order of `self.sessions`.
unfoldable pub sessions_of : String → Dict Session → List Session
sessions_of digest [] = []
sessions_of digest ((k, v) ∷ d) =
    let rest = sessions_of digest d in if v.endpoint_digest == digest then v ∷ rest else rest

-- next((item for item in remaining if item.get("identity_file")), None)
unfoldable pub first_with_identity : List Session → Option (String × String)
first_with_identity [] = none
first_with_identity (x ∷ xs) = elim x.identity_file [
  | some file ↦ some (x.user, file)
  | none ↦ first_with_identity xs
]

-- The head of `candidates.sort(key=lambda item: item["user"])`: the first of the least users.
unfoldable pub least_user : List Session → Option Session
least_user [] = none
least_user (x ∷ xs) = elim (least_user xs) [
  | none ↦ some x
  | some y ↦ if text_lt y.user x.user then some y else some x
]

-- self.oauth.finish(target), with OAuthError passed over
abbrev pub finish_oauth : {F : Type 0} → TargetKey → Server F → Server F
finish_oauth target s = record s { oauth = (finish s.oauth (some target)).1 }

-- The target's status counts one session less, or goes with its OAuth forward.
unfoldable pub leave_target :
    {F : Type 0} → TargetKey → String → Option TargetStatus → Server F → Server F
leave_target target digest none s = s
leave_target target digest (some status) s =
    if leb status.session_count 1
    then (let s1 = finish_oauth target s in
        record s1 {
          targets = remove digest s1.targets;
          identity_files = remove digest s1.identity_files;
        })
    else record s {
      targets = put digest (record status { session_count = status.session_count - 1 }) s.targets;
    }

abbrev pub released_reply :
    {F : Type 0} → String → Server F → Option (EndpointRecord × Server F) → Outcome × Server F
released_reply digest s none = (raised "list index out of range", s)
released_reply digest s (some (r, s')) = (reply (released digest r.owner r.session_count), s')

module _ {F : Type 0} (host : Host F) where
  unfoldable pub leave : TargetKey → Server F → Server F
  unfolding leave_target
  leave target s =
      let digest = target_digest host.sha256 target in
      leave_target target digest (get digest s.targets) s

  -- The rebuild of the tunnel, by the first session that can.
  unfoldable pub rebuild :
      ℕ
      → EndpointKey
      → String
      → Bool
      → EndpointRecord
      → Server F
      → Option (String × String)
      → EndpointRecord × Server F
  rebuild now endpoint digest desired r s none = (r, s)
  rebuild now endpoint digest desired r s (some (user, file)) =
      guarded_start host now digest endpoint user file desired (upgraded desired) r s

  -- The other sessions still want the event leg, or no longer do: rebuild the tunnel.
  unfoldable pub adjust_events :
      ℕ → EndpointKey → String → EndpointRecord → Server F → EndpointRecord × Server F
  adjust_events now endpoint digest r s =
      let remaining = sessions_of digest s.sessions in
      let desired = any (λ item. item.event_forward) remaining in
      if same desired r.event_required
      then (r, s)
      else rebuild now endpoint digest desired r s (first_with_identity remaining)

  -- The tunnel is restarted for the new owner, if that session can.
  unfoldable pub restart :
      ℕ
      → EndpointKey
      → String
      → String
      → Bool
      → EndpointRecord
      → Server F
      → Option String
      → EndpointRecord × Server F
  restart now endpoint digest user event r s none = (r, s)
  restart now endpoint digest user event r s (some file) =
      guarded_start host now digest endpoint user file event (made_ready event) r s

  -- The owner left: the least user of the others takes over. `none` is an IndexError.
  unfoldable pub hand_over :
      ℕ
      → EndpointKey
      → String
      → Option Session
      → Bool
      → EndpointRecord
      → Server F
      → Option (EndpointRecord × Server F)
  hand_over now endpoint digest none event r s = none
  hand_over now endpoint digest (some replacement) event r s =
      let r1 = record r { owner = some replacement.user; event_required = event } in
      let s1 : Server F = record s { endpoints = put digest r1 s.endpoints } in
      some (restart now endpoint digest replacement.user event r1 s1 replacement.identity_file)

  unfoldable pub change_owner :
      ℕ
      → EndpointKey
      → String
      → String
      → EndpointRecord
      → Server F
      → Option (EndpointRecord × Server F)
  unfolding hand_over
  change_owner now endpoint digest user r s =
      if same_owner user r.owner
      then (let candidates = sessions_of digest s.sessions in
          hand_over now endpoint digest (least_user candidates)
            (any (λ item. item.event_forward) candidates) r s)
      else some (r, s)

  -- The last session of an endpoint left: stop its tunnel and forget it.
  unfoldable pub close_endpoint :
      EndpointKey → String → String → Server F → Result TargetKey → Outcome × Server F
  close_endpoint endpoint digest user s (err exc) = (rescue exc, s)
  close_endpoint endpoint digest user s (ok target) =
      let s1 = finish_oauth target s in
      let (result, f) = host.stop s1.forwarder endpoint (some user) in
      (
        reply (released_last digest),
        record s1 { forwarder = f; endpoints = remove digest s1.endpoints },
      )

  -- Other sessions stay at the endpoint.
  unfoldable pub stay :
      ℕ → EndpointKey → String → String → EndpointRecord → Server F → Outcome × Server F
  stay now endpoint digest user r s =
      let r1 = record r { session_count = r.session_count - 1 } in
      let s1 : Server F = record s { endpoints = put digest r1 s.endpoints } in
      let (r2, s2) = adjust_events now endpoint digest r1 s1 in
      released_reply digest s2 (change_owner now endpoint digest user r2 s2)

  unfoldable pub leave_endpoint :
      ℕ → EndpointKey → String → String → Option EndpointRecord → Server F → Outcome × Server F
  unfolding close_endpoint stay
  leave_endpoint now endpoint digest user none s = (reply released_only, s)
  leave_endpoint now endpoint digest user (some r) s =
      let r1 = record r { session_count = r.session_count - 1 } in
      if eqb r1.session_count 0
      then close_endpoint endpoint digest user (record s { endpoints = put digest r1 s.endpoints })
          (make_target endpoint.hostname (pos endpoint.port) user "")
      else stay now endpoint digest user r s

  -- The steps after `self.sessions.pop(session_id, None)` and the session's own target.
  unfoldable pub with_target :
      ℕ → EndpointKey → Session → Server F → Result TargetKey → Outcome × Server F
  unfolding leave leave_endpoint
  with_target now endpoint previous s (err exc) = (rescue exc, s)
  with_target now endpoint previous s (ok target) =
      let s1 = leave target s in
      let digest = previous.endpoint_digest in
      leave_endpoint now endpoint digest previous.user (get digest s1.endpoints) s1

  -- A session with an identity file first leaves its target.
  unfoldable pub leave_with :
      ℕ → EndpointKey → String → Session → Server F → Option String → Outcome × Server F
  unfolding with_target
  leave_with now endpoint digest previous s none =
      leave_endpoint now endpoint digest previous.user (get digest s.endpoints) s
  leave_with now endpoint digest previous s (some file) =
      with_target now endpoint previous s
        (make_target endpoint.hostname (pos endpoint.port) previous.user "")

  unfoldable pub release_known : ℕ → EndpointKey → String → Session → Server F → Outcome × Server F
  unfolding leave_with
  release_known now endpoint session_id previous s =
      let s1 : Server F = record s { sessions = remove session_id s.sessions } in
      let digest = previous.endpoint_digest in
      leave_with now endpoint digest previous s1 previous.identity_file

  unfoldable pub release_session :
      ℕ → EndpointKey → String → String → Server F → Option Session → Outcome × Server F
  unfolding release_known
  release_session now endpoint digest session_id s none = (reply not_released, s)
  release_session now endpoint digest session_id s (some previous) =
      if previous.endpoint_digest == digest
      then release_known now endpoint session_id previous s
      else (reply session_conflict, s)

  unfoldable pub release : ℕ → EndpointKey → String → String → Server F → Outcome × Server F
  unfolding release_session
  release now endpoint digest session_id s =
      release_session now endpoint digest session_id s (get session_id s.sessions)

-- record["session_count"] if record else 0
abbrev pub count_of : Option EndpointRecord → ℕ
count_of none = 0
count_of (some r) = r.session_count

unfoldable pub heartbeat_session :
    {F : Type 0} → ℕ → String → String → Server F → Option Session → Outcome × Server F
heartbeat_session now digest session_id s none = (reply lease_cleared, s)
heartbeat_session now digest session_id s (some previous) =
    if previous.endpoint_digest == digest
    then (
      reply (alive previous.endpoint_digest (count_of (get previous.endpoint_digest s.endpoints))),
      record s { sessions = put session_id (record previous { last_seen = now }) s.sessions },
    )
    else (reply session_conflict, s)

unfoldable pub heartbeat : {F : Type 0} → ℕ → String → String → Server F → Outcome × Server F
unfolding heartbeat_session
heartbeat now digest session_id s =
    heartbeat_session now digest session_id s (get session_id s.sessions)
