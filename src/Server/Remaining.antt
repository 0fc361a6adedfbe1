-- ===== src/Server/Remaining.antt =====
-- What a release and the expiry leave of the session table.
use re_remote_dev.Dict.{get, get-remove, put, remove}
use re_remote_dev.Model.{EndpointKey, TargetKey, make_target}
use re_remote_dev.Prelude.{
  Bool, Option, String, any, eq_iff, eqb, if_both, none, refl, same, some, ℕ, ◌-◌, ◌∙◌, ◌≡◌,
}
use re_remote_dev.Prelude.Int.{pos}
use re_remote_dev.Result.{Result, err, ok}
use re_remote_dev.Server.{EndpointRecord, Host, Outcome, Server, Session, not_released, reply}
use re_remote_dev.Server.Acquire.{guarded_start}
use re_remote_dev.Server.Release.{
  adjust_events, change_owner, close_endpoint, first_with_identity, hand_over, least_user, leave,
  leave_endpoint, leave_with, rebuild, release, release_known, release_session, released_reply,
  restart, same_owner, sessions_of, stay, with_target,
}
use re_remote_dev.Server.Sound.Release.{leave-tables}

module _ {F : Type 0} (host : Host F) where
  rebuild-sessions :
      (now : ℕ) (endpoint : EndpointKey) (digest : String) (desired : Bool) (r : EndpointRecord)
      (s : Server F) (who : Option (String × String))
      → (rebuild host now endpoint digest desired r s who).1.sessions ≡ s.sessions
  unfolding rebuild guarded_start
  rebuild-sessions now endpoint digest desired r s none = refl
  rebuild-sessions now endpoint digest desired r s (some (user, file)) = refl

  adjust_events-sessions :
      (now : ℕ) (endpoint : EndpointKey) (digest : String) (r : EndpointRecord) (s : Server F)
      → (adjust_events host now endpoint digest r s).1.sessions ≡ s.sessions
  unfolding adjust_events
  adjust_events-sessions now endpoint digest r s =
      let desired = any (λ (item : Session). item.event_forward) (sessions_of digest s.sessions) in
      if_both (λ (p : EndpointRecord × Server F). p.1.sessions ≡ s.sessions)
        (same desired r.event_required) refl
        (rebuild-sessions now endpoint digest desired r s
          (first_with_identity (sessions_of digest s.sessions)))

  restart-sessions :
      (now : ℕ) (endpoint : EndpointKey) (digest user : String) (event : Bool) (r : EndpointRecord)
      (s : Server F) (file : Option String)
      → (restart host now endpoint digest user event r s file).1.sessions ≡ s.sessions
  unfolding restart guarded_start
  restart-sessions now endpoint digest user event r s none = refl
  restart-sessions now endpoint digest user event r s (some file) = refl

  hand_over-sessions :
      (now : ℕ) (endpoint : EndpointKey) (digest : String) (event : Bool) (r : EndpointRecord)
      (s : Server F) (o : Option Session)
      → (released_reply digest s (hand_over host now endpoint digest o event r s)).1.sessions
        ≡ s.sessions
  unfolding hand_over
  hand_over-sessions now endpoint digest event r s none = refl
  hand_over-sessions now endpoint digest event r s (some x) =
      let r1 = record r { owner = some x.user; event_required = event } in
      restart-sessions now endpoint digest x.user event r1
        (record s { endpoints = put digest r1 s.endpoints }) x.identity_file

  change_owner-sessions :
      (now : ℕ) (endpoint : EndpointKey) (digest user : String) (r : EndpointRecord) (s : Server F)
      → (released_reply digest s (change_owner host now endpoint digest user r s)).1.sessions
        ≡ s.sessions
  unfolding change_owner
  change_owner-sessions now endpoint digest user r s =
      if_both
        (λ (o : Option (EndpointRecord × Server F)).
          (released_reply digest s o).1.sessions ≡ s.sessions)
        (same_owner user r.owner)
        (hand_over-sessions now endpoint digest
          (any (λ item. item.event_forward) (sessions_of digest s.sessions)) r s
          (least_user (sessions_of digest s.sessions)))
        refl

  close_endpoint-sessions :
      (endpoint : EndpointKey) (digest user : String) (s : Server F) (target : Result TargetKey)
      → (close_endpoint host endpoint digest user s target).1.sessions ≡ s.sessions
  unfolding close_endpoint
  close_endpoint-sessions endpoint digest user s (err exc) = refl
  close_endpoint-sessions endpoint digest user s (ok target) = refl

  leave_endpoint-sessions :
      (now : ℕ) (endpoint : EndpointKey) (digest user : String) (o : Option EndpointRecord)
      (s : Server F)
      → (leave_endpoint host now endpoint digest user o s).1.sessions ≡ s.sessions
  unfolding leave_endpoint stay
  leave_endpoint-sessions now endpoint digest user none s = refl
  leave_endpoint-sessions now endpoint digest user (some r) s =
      let r1 = record r { session_count = r.session_count - 1 } in
      let s1 : Server F = record s { endpoints = put digest r1 s.endpoints } in
      let adjusted = adjust_events host now endpoint digest r1 s1 in
      if_both (λ (o : Outcome × Server F). o.1.sessions ≡ s.sessions) (eqb r1.session_count 0)
        (close_endpoint-sessions endpoint digest user s1
          (make_target endpoint.hostname (pos endpoint.port) user ""))
        (change_owner-sessions now endpoint digest user adjusted.0 adjusted.1
          ∙ adjust_events-sessions now endpoint digest r1 s1)

  leave_with-sessions :
      (now : ℕ) (endpoint : EndpointKey) (digest : String) (x : Session) (s : Server F)
      (file : Option String)
      → (leave_with host now endpoint digest x s file).1.sessions ≡ s.sessions
  unfolding leave_with with_target
  leave_with-sessions now endpoint digest x s none =
      leave_endpoint-sessions now endpoint digest x.user (get digest s.endpoints) s
  leave_with-sessions now endpoint digest x s (some file) =
      go (make_target endpoint.hostname (pos endpoint.port) x.user "")
    where
      go : (t : Result TargetKey) → (with_target host now endpoint x s t).1.sessions ≡ s.sessions
      go (err exc) = refl
      go (ok target) =
          let left = leave host target s in
          leave_endpoint-sessions now endpoint x.endpoint_digest x.user
            (get x.endpoint_digest left.endpoints) left
          ∙ (leave-tables host target s).1

  -- A release that names the session's own endpoint takes away that session and no other, whatever
  -- becomes of the tunnel.
  pub release-sessions :
      (now : ℕ) (endpoint : EndpointKey) (digest sid : String) (x : Session) (s : Server F)
      → get sid s.sessions ≡ some x
      → x.endpoint_digest ≡ digest
      → (release host now endpoint digest sid s).1.sessions ≡ remove sid s.sessions
  unfolding release release_session release_known
  release-sessions now endpoint digest sid x s f e =
      rw (f, release_session, (eq_iff x.endpoint_digest digest).1 e)
        (leave_with-sessions now endpoint x.endpoint_digest x
          (record s { sessions = remove sid s.sessions }) x.identity_file)

  pub release_unknown :
      (now : ℕ) (endpoint : EndpointKey) (digest sid : String) (s : Server F)
      → get sid s.sessions ≡ none
      → release host now endpoint digest sid s ≡ (reply not_released, s)
  unfolding release
  release_unknown now endpoint digest sid s f = rw (f, release_session)

  -- After a session's release with its own endpoint it is gone, every other session is as it was, and
  -- the same release once more answers that nothing was released and changes nothing.
  pub release_twice :
      (now later : ℕ) (endpoint : EndpointKey) (digest sid : String) (x : Session) (s : Server F)
      → get sid s.sessions ≡ some x
      → x.endpoint_digest ≡ digest
      → let t = (release host now endpoint digest sid s).1 in
        (t.sessions ≡ remove sid s.sessions)
        × (release host later endpoint digest sid t ≡ (reply not_released, t))
  release_twice now later endpoint digest sid x s f e = (
    gone,
    release_unknown later endpoint digest sid (release host now endpoint digest sid s).1
        (rw (gone, get-remove sid sid s.sessions, (eq_iff sid sid).1 refl)),
  )
    where
      gone : (release host now endpoint digest sid s).1.sessions ≡ remove sid s.sessions
      gone = release-sessions now endpoint digest sid x s f e
