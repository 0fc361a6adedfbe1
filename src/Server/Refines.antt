-- ===== src/Server/Refines.antt =====
-- The three lease operations of orchestrator/server.py against the operations on the lease table.
use re_remote_dev.Dict.{get, put}
use re_remote_dev.Json.{Fields, get_field, truthy_or}
use re_remote_dev.Model.{EndpointKey, TargetKey, endpoint_digest, make_target}
use re_remote_dev.Prelude.{
  Bool, Bool-cases, Option, Option-cases, String, eq_iff, eqb, if_both, if◌then◌else◌, inl, inr,
  none, not, on_some, on_some_both, refl, some, true, ℕ, ◌&&◌, ◌==◌, ◌∙◌, ◌≡◌,
}
use re_remote_dev.Prelude.Int.{pos}
use re_remote_dev.Result.{Result, err, ok}
use re_remote_dev.Server.{EndpointRecord, Host, Outcome, Server, Session}
use re_remote_dev.Server.Acquire.{
  acquire, acquire_candidate, acquire_new, acquire_session, guarded_start, open_tunnel,
  register_new, register_target, reuse, reuse_record, upgrade_known, upgrade_reused, with_identity,
}
use re_remote_dev.Server.Joining.{join_record, new_session, upgraded}
use re_remote_dev.Server.Lease.{LeaseOp, op_acquire, op_heartbeat, op_release, run_lease}
use re_remote_dev.Server.Parse.{parse_candidate}
use re_remote_dev.Server.Release.{heartbeat, heartbeat_session, release, release_session}
use re_remote_dev.Server.Remaining.{release-sessions, release_unknown}
use re_remote_dev.Server.Table.{
  Table, give_back, held, held-put, held-refresh, held-remove, is_ok, table_step, take_lease,
}
use mathlib.Core.Option

pub heartbeat-held :
    {F : Type 0} (now : ℕ) (digest sid : String) (s : Server F) (j : String)
    → held (heartbeat now digest sid s).1 j ≡ held s j
unfolding heartbeat heartbeat_session
heartbeat-held {F} now digest sid s j = elim (Option-cases (get sid s.sessions)) [
  | inl f ↦ rw (f, heartbeat_session) refl
  | inr (x, f) ↦
      rw (f, heartbeat_session)
        (if_both (λ (o : Outcome × Server F). held o.1 j ≡ held s j) (x.endpoint_digest == digest)
          (held-refresh s
            (record s { sessions = put sid (record x { last_seen = now }) s.sessions }) sid j x now
            f refl)
          refl)
]

module _ {F : Type 0} (host : Host F) where
  open_tunnel-sessions :
      (now : ℕ) (digest : String) (endpoint : EndpointKey) (user file : String) (event : Bool)
      (r : EndpointRecord) (s : Server F)
      → (open_tunnel host now digest endpoint user file event r s).1.sessions ≡ s.sessions
  unfolding open_tunnel guarded_start
  open_tunnel-sessions now digest endpoint user file event r s =
      if_both (λ (p : EndpointRecord × Server F). p.1.sessions ≡ s.sessions)
        (eqb first.0.session_count 1) first-sessions first-sessions
    where
      first : EndpointRecord × Server F
      first =
          if event && not r.event_required
          then guarded_start host now digest endpoint user file true (upgraded true) r s
          else (r, s)

      first-sessions : first.1.sessions ≡ s.sessions
      first-sessions =
          if_both (λ (p : EndpointRecord × Server F). p.1.sessions ≡ s.sessions)
            (event && not r.event_required) refl refl

  register_new-sessions :
      (now : ℕ) (endpoint : EndpointKey) (digest user : String) (event : Bool) (r : EndpointRecord)
      (s : Server F) (file : Option String)
      → (register_new host now endpoint digest user event r s file).1.sessions ≡ s.sessions
  unfolding register_new with_identity register_target
  register_new-sessions now endpoint digest user event r s none = refl
  register_new-sessions now endpoint digest user event r s (some file) =
      go (make_target endpoint.hostname (pos endpoint.port) user "")
    where
      go :
          (t : Result TargetKey)
          → (with_identity host now endpoint digest user file event r s t).1.sessions ≡ s.sessions
      go (err exc) = refl
      go (ok target) =
          open_tunnel-sessions now digest endpoint user file event r
            (register_target host target file s)

  -- A reused session is held where it was.
  reuse-held :
      (now : ℕ) (endpoint : EndpointKey) (digest sid : String) (event : Bool) (x : Session)
      (s : Server F)
      → get sid s.sessions ≡ some x
      → (j : String) → held (reuse host now endpoint digest sid event x s).1 j ≡ held s j
  unfolding reuse reuse_record upgrade_known upgrade_reused
  reuse-held now endpoint digest sid event x s f j =
      if_both (λ (o : Outcome × Server F). held o.1 j ≡ held s j) (x.endpoint_digest == digest)
        (go (get digest s.endpoints)) refl
    where
      up :
          (r : EndpointRecord) (t : Server F)
          → t.sessions ≡ put sid (record x { last_seen = now }) s.sessions
          → (file : Option String)
          → held (upgrade_known host endpoint digest x r t file).1 j ≡ held s j
      up r t e none = held-refresh s t sid j x now f e
      up r t e (some file) =
          started (host.start t.forwarder endpoint x.user (host.expanduser file) true)
        where
          started :
              (p : Result (Unit {0}) × F) → held (upgrade_reused host digest r t p).1 j ≡ held s j
          started (ok u, g) =
              held-refresh s (upgrade_reused host digest r t (ok u, g)).1 sid j x now f e
          started (err exc, g) = held-refresh s (record t { forwarder = g }) sid j x now f e

      go :
          (o : Option EndpointRecord)
          → held (reuse_record host now endpoint digest sid event x s o).1 j ≡ held s j
      go none = refl
      go (some r) =
          let s1 : Server F = record s {
            sessions = put sid (record x { last_seen = now }) s.sessions;
          } in
          if_both (λ (o : Outcome × Server F). held o.1 j ≡ held s j)
            (event && not r.event_required) (up r s1 refl x.identity_file)
            (held-refresh s s1 sid j x now f refl)

  pub acquire-held :
      (now : ℕ) (endpoint : EndpointKey) (digest sid : String) (payload : Fields) (s : Server F)
      (j : String)
      → held (acquire host now endpoint digest sid payload s).1 j
        ≡ take_lease (is_ok (parse_candidate payload)) digest sid (held s) j
  unfolding acquire acquire_candidate acquire_session acquire_new take_lease held
  acquire-held now endpoint digest sid payload s j = candidate (parse_candidate payload)
    where
      known :
          (user fingerprint : String) (o : Option Session)
          → get sid s.sessions ≡ o
          → held (acquire_session host now endpoint digest sid user fingerprint payload s o).1 j
            ≡ on_some
                (λ j. if true && sid == j then some digest else held s j)
                (λ d. held s)
                (Option.map (λ (x : Session). x.endpoint_digest) o)
                j
      known user fingerprint none f =
          let event = truthy_or true (get_field "event_forward" payload) in
          let r = join_record endpoint digest event user (get digest s.endpoints) in
          let x = new_session digest user fingerprint now payload in
          let s1 : Server F = record s {
            endpoints = put digest r s.endpoints;
            sessions = put sid x s.sessions;
          } in
          held-put s (register_new host now endpoint digest user event r s1 x.identity_file).1 sid j
            x (register_new-sessions now endpoint digest user event r s1 x.identity_file)
          ∙ (unfold new_session in refl)
      known user fingerprint (some x) f =
          reuse-held now endpoint digest sid (truthy_or true (get_field "event_forward" payload)) x
            s f j

      candidate :
          (c : Result (String × String))
          → held (acquire_candidate host now endpoint digest sid payload s c).1 j
            ≡ on_some
                (λ j. if is_ok c && sid == j then some digest else held s j)
                (λ d. held s)
                (held s sid)
                j
      candidate (err exc) =
          on_some_both (λ (t : Table). held s j ≡ t j) (held s sid) refl (λ d. refl)
      candidate (ok (user, fingerprint)) = known user fingerprint (get sid s.sessions) refl

  release-held :
      (now : ℕ) (endpoint : EndpointKey) (digest sid : String) (s : Server F) (j : String)
      → held (release host now endpoint digest sid s).1 j ≡ give_back digest sid (held s) j
  unfolding give_back held
  release-held now endpoint digest sid s j = elim (Option-cases (get sid s.sessions)) [
    | inl none_there ↦
        rw (release_unknown host now endpoint digest sid s none_there, none_there) refl
    | inr (x, there) ↦ elim (Bool-cases (x.endpoint_digest == digest)) [
      | inl e ↦
          held-remove s (release host now endpoint digest sid s).1 sid j (
            release-sessions host now endpoint digest sid x s there
              ((eq_iff x.endpoint_digest digest).0 e))
          ∙ rw (there, e) refl
      | inr n ↦ unfold release release_session in rw (there, release_session, n) refl
    ]
  ]

  -- What each parsed lease request does to the lease table, whatever becomes of the tunnel: an acquire
  -- that names a user enters an identifier that nobody holds, at the endpoint's digest; a heartbeat
  -- changes nothing; a release strikes the identifier out if it is held at that endpoint.
  pub run_lease-refines :
      (op : LeaseOp) (now : ℕ) (endpoint : EndpointKey) (sid : String) (payload : Fields)
      (s : Server F) (j : String)
      → held (run_lease host op now endpoint sid payload s).1 j
        ≡ table_step op
            (is_ok (parse_candidate payload))
            (endpoint_digest host.sha256 endpoint)
            sid
            (held s)
            j
  unfolding run_lease table_step
  run_lease-refines op_acquire now endpoint sid payload s j =
      acquire-held now endpoint (endpoint_digest host.sha256 endpoint) sid payload s j
  run_lease-refines op_heartbeat now endpoint sid payload s j =
      heartbeat-held now (endpoint_digest host.sha256 endpoint) sid s j
  run_lease-refines op_release now endpoint sid payload s j =
      release-held now endpoint (endpoint_digest host.sha256 endpoint) sid s j
