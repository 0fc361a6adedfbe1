-- ===== src/Server/Acquire.antt =====
-- The acquire branch of `_handle_lease`.
use re_remote_dev.Dict.{get, put}
use re_remote_dev.Json.{Fields, get_field, truthy_or}
use re_remote_dev.Model.{EndpointKey, TargetKey, make_target, target_digest}
use re_remote_dev.Prelude.{
  Bool, Option, String, eqb, if◌then◌else◌, none, not, some, true, ℕ, ◌&&◌, ◌==◌,
}
use re_remote_dev.Prelude.Int.{pos}
use re_remote_dev.Result.{Result, err, ok}
use re_remote_dev.Server.{
  EndpointRecord, Host, Outcome, Server, Session, granted, mark_forward_failure, protocol_invalid,
  reply, rescue, session_conflict,
}
use re_remote_dev.Server.Joining.{
  granted_new, join_record, join_target, made_ready, new_session, upgraded,
}
use re_remote_dev.Server.Parse.{parse_candidate}
use re_remote_dev.Transfer.{digest}

module _ {F : Type 0} (host : Host F) where
  -- What a guarded start does to the record: `good` of it, or the failure mark.
  abbrev pub after_start :
      ℕ → (EndpointRecord → EndpointRecord) → Result (Unit {0}) → EndpointRecord → EndpointRecord
  after_start now good (ok _) r = good r
  after_start now good (err exc) r = mark_forward_failure host now exc r

  -- A start under `except (OSError, RuntimeError, ValueError, SubprocessError)`, for the endpoint's record.
  unfoldable pub guarded_start :
      ℕ
      → String
      → EndpointKey
      → String
      → String
      → Bool
      → (EndpointRecord → EndpointRecord)
      → EndpointRecord
      → Server F
      → EndpointRecord × Server F
  guarded_start now digest endpoint user file event good r s =
      let (result, f) = host.start s.forwarder endpoint user (host.expanduser file) event in
      let r' = after_start now good result r in
      (r', record s { forwarder = f; endpoints = put digest r' s.endpoints })

  unfoldable pub upgrade_reused :
      String → EndpointRecord → Server F → Result (Unit {0}) × F → Outcome × Server F
  upgrade_reused digest r s (ok _, f) =
      let r' = upgraded true r in
      (
        reply (granted digest r'.state r'.owner r'.session_count true),
        record s { forwarder = f; endpoints = put digest r' s.endpoints },
      )
  upgrade_reused digest r s (err exc, f) = (rescue exc, record s { forwarder = f })

  -- The upgrade of a tunnel without the event leg, if the session has an identity file.
  unfoldable pub upgrade_known :
      EndpointKey
      → String
      → Session
      → EndpointRecord
      → Server F
      → Option String
      → Outcome × Server F
  unfolding upgrade_reused
  upgrade_known endpoint digest previous r s none =
      (reply (granted digest r.state r.owner r.session_count true), s)
  upgrade_known endpoint digest previous r s (some file) =
      upgrade_reused digest r s
        (host.start s.forwarder endpoint previous.user (host.expanduser file) true)

  -- `record = self.endpoints[digest]`, which may be a KeyError, and the refresh of the session.
  unfoldable pub reuse_record :
      ℕ
      → EndpointKey
      → String
      → String
      → Bool
      → Session
      → Server F
      → Option EndpointRecord
      → Outcome × Server F
  unfolding upgrade_known
  reuse_record now endpoint digest session_id event previous s none =
      (reply (protocol_invalid digest), s)
  reuse_record now endpoint digest session_id event previous s (some r) =
      let s1 : Server F = record s {
        sessions = put session_id (record previous { last_seen = now }) s.sessions;
      } in
      if event && not r.event_required
      then upgrade_known endpoint digest previous r s1 previous.identity_file
      else (reply (granted digest r.state r.owner r.session_count true), s1)

  -- The session is known: refresh it, and upgrade the tunnel if it lacks the event leg.
  unfoldable pub reuse :
      ℕ → EndpointKey → String → String → Bool → Session → Server F → Outcome × Server F
  unfolding reuse_record
  reuse now endpoint digest session_id event previous s =
      if previous.endpoint_digest == digest
      then reuse_record now endpoint digest session_id event previous s (get digest s.endpoints)
      else (reply session_conflict, s)

  -- Steps of a new session after its target: upgrade a tunnel without the event leg, start a first one.
  unfoldable pub open_tunnel :
      ℕ
      → String
      → EndpointKey
      → String
      → String
      → Bool
      → EndpointRecord
      → Server F
      → EndpointRecord × Server F
  open_tunnel now digest endpoint user file event r s =
      let (r1, s1) =
        if event && not r.event_required
        then guarded_start now digest endpoint user file true (upgraded true) r s
        else (r, s) in
      if eqb r1.session_count 1
      then guarded_start now digest endpoint user file event (made_ready event) r1 s1
      else (r1, s1)

  -- self._identity_files[…] = … and self.targets[…] = …
  unfoldable pub register_target : TargetKey → String → Server F → Server F
  unfolding join_target
  register_target target file s =
      let digest = target_digest host.sha256 target in
      record s {
        identity_files = put digest (host.expanduser file) s.identity_files;
        targets = put digest (join_target target (get digest s.targets)) s.targets;
      }

  unfoldable pub with_identity :
      ℕ
      → EndpointKey
      → String
      → String
      → String
      → Bool
      → EndpointRecord
      → Server F
      → Result TargetKey
      → Outcome × Server F
  with_identity now endpoint digest user file event r s (err exc) = (rescue exc, s)
  with_identity now endpoint digest user file event r s (ok target) =
      granted_new digest
        (open_tunnel now digest endpoint user file event r (register_target target file s))

  -- A session with an identity file also registers its target and opens the tunnel.
  unfoldable pub register_new :
      ℕ
      → EndpointKey
      → String
      → String
      → Bool
      → EndpointRecord
      → Server F
      → Option String
      → Outcome × Server F
  unfolding with_identity
  register_new now endpoint digest user event r s none = granted_new digest (r, s)
  register_new now endpoint digest user event r s (some file) =
      with_identity now endpoint digest user file event r s
        (make_target endpoint.hostname (pos endpoint.port) user "")

  -- The session is new.
  unfoldable pub acquire_new :
      ℕ → EndpointKey → String → String → String → String → Fields → Server F → Outcome × Server F
  unfolding register_new join_record new_session
  acquire_new now endpoint digest session_id user fingerprint payload s =
      let event = truthy_or true (get_field "event_forward" payload) in
      let r = join_record endpoint digest event user (get digest s.endpoints) in
      let session = new_session digest user fingerprint now payload in
      let s1 : Server F = record s {
        endpoints = put digest r s.endpoints;
        sessions = put session_id session s.sessions;
      } in
      register_new now endpoint digest user event r s1 session.identity_file

  unfoldable pub acquire_session :
      ℕ
      → EndpointKey
      → String
      → String
      → String
      → String
      → Fields
      → Server F
      → Option Session
      → Outcome × Server F
  acquire_session now endpoint digest session_id user fingerprint payload s none =
      acquire_new now endpoint digest session_id user fingerprint payload s
  acquire_session now endpoint digest session_id user fingerprint payload s (some previous) =
      reuse now endpoint digest session_id (truthy_or true (get_field "event_forward" payload))
        previous s

  unfoldable pub acquire_candidate :
      ℕ
      → EndpointKey
      → String
      → String
      → Fields
      → Server F
      → Result (String × String)
      → Outcome × Server F
  unfolding acquire_session
  acquire_candidate now endpoint digest session_id payload s (err exc) = (rescue exc, s)
  acquire_candidate now endpoint digest session_id payload s (ok (user, fingerprint)) =
      acquire_session now endpoint digest session_id user fingerprint payload s
        (get session_id s.sessions)

  unfoldable pub acquire :
      ℕ → EndpointKey → String → String → Fields → Server F → Outcome × Server F
  unfolding acquire_candidate
  acquire now endpoint digest session_id payload s =
      acquire_candidate now endpoint digest session_id payload s (parse_candidate payload)
