-- ===== src/Server/Sound/Release.antt =====
-- A release keeps the invariant.
use re_remote_dev.Dict.{get, remove}
use re_remote_dev.Model.{EndpointKey, TargetKey}
use re_remote_dev.Prelude.{Option, String, arith, if_both, none, refl, some, ℕ, ◌==◌, ◌≡◌}
use re_remote_dev.Server.{Host, Outcome, Server, Session}
use re_remote_dev.Server.Release.{leave, leave_with, release, release_session}
use re_remote_dev.Server.Sound.Defs.{IsEndpoint, Sound}
use re_remote_dev.Server.Sound.Leave.{endpoint_target, leave_endpoint-Sound, make_target_named}

module _ {F : Type 0} (host : Host F) where
  -- The target's own bookkeeping touches neither sessions nor endpoints.
  pub leave-tables :
      (target : TargetKey) (s : Server F)
      → ((leave host target s).endpoints ≡ s.endpoints)
        × ((leave host target s).sessions ≡ s.sessions)
  unfolding leave
  leave-tables target s = ground arith

  leave_with-Sound :
      (now : ℕ) (endpoint : EndpointKey) (sid : String) (x : Session) (s : Server F)
      (file : Option String)
      → Sound host s
      → get sid s.sessions ≡ some x
      → IsEndpoint endpoint
      → Sound host
          (leave_with host now endpoint x.endpoint_digest x
            (record s { sessions = remove sid s.sessions })
            file).1
  unfolding leave_with
  leave_with-Sound now endpoint sid x s none h f v =
      leave_endpoint-Sound host now endpoint sid x s.endpoints s.sessions
        (record s { sessions = remove sid s.sessions }) (get x.endpoint_digest s.endpoints) h f refl
        refl refl v
  leave_with-Sound now endpoint sid x s (some file) h f v =
      rw (make_target_named endpoint x.user v (h.named sid x f).2) (
        leave_endpoint-Sound host now endpoint sid x s.endpoints s.sessions left
          (get x.endpoint_digest left.endpoints) h f tables.0 tables.1 (rw tables.0) v)
    where
      target : TargetKey
      target = endpoint_target endpoint x.user

      left : Server F
      left = leave host target (record s { sessions = remove sid s.sessions })

      tables : (left.endpoints ≡ s.endpoints) × (left.sessions ≡ remove sid s.sessions)
      tables = leave-tables target (record s { sessions = remove sid s.sessions })

  release_session-Sound :
      (now : ℕ) (endpoint : EndpointKey) (digest sid : String) (s : Server F) (o : Option Session)
      → get sid s.sessions ≡ o
      → IsEndpoint endpoint
      → Sound host s
      → Sound host (release_session host now endpoint digest sid s o).1
  unfolding release_session
  release_session-Sound now endpoint digest sid s none e v h = h
  release_session-Sound now endpoint digest sid s (some x) e v h =
      if_both (λ (o : Outcome × Server F). Sound host o.1) (x.endpoint_digest == digest)
        (leave_with-Sound now endpoint sid x s x.identity_file h e v) h

  -- A release keeps the tables sound.
  pub release-Sound :
      (now : ℕ) (endpoint : EndpointKey) (digest sid : String) (s : Server F)
      → IsEndpoint endpoint
      → Sound host s
      → Sound host (release host now endpoint digest sid s).1
  unfolding release
  release-Sound now endpoint digest sid s v h =
      release_session-Sound now endpoint digest sid s (get sid s.sessions) refl v h
