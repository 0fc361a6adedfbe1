-- ===== src/Server/Sound/Acquire.antt =====
-- An acquire keeps the invariant.
use re_remote_dev.Dict.{get, put}
use re_remote_dev.Json.{Fields, get_field, truthy_or}
use re_remote_dev.Model.{EndpointKey, TargetKey, endpoint_digest, make_target}
use re_remote_dev.Prelude.{
  Bool, Option, String, eqb, false, if_both, if◌then◌else◌, none, not, refl, some, subst, true, ℕ,
  ◌&&◌, ◌==◌, ◌≡◌,
}
use re_remote_dev.Prelude.Int.{pos}
use re_remote_dev.Prelude.Text.{is_blank}
use re_remote_dev.Result.{Result, err, ok}
use re_remote_dev.Server.{EndpointRecord, Host, Outcome, Server, Session}
use re_remote_dev.Server.Accounts.{Balanced}
use re_remote_dev.Server.Acquire.{
  acquire, acquire_candidate, acquire_new, acquire_session, guarded_start, open_tunnel,
  register_new, register_target, reuse, reuse_record, upgrade_known, upgrade_reused, with_identity,
}
use re_remote_dev.Server.Joining.{join_record, made_ready, new_session, upgraded}
use re_remote_dev.Server.Parse.{parse_candidate}
use re_remote_dev.Server.Sound.Defs.{HasNamedUser, IsEndpoint, IsName, Sound, Staged}
use re_remote_dev.Server.Sound.Join.{join-Stage, refresh-IsSound}
use re_remote_dev.Server.Sound.Writes.{
  guarded_start-Stage, made_ready-Harmless, upgraded-Harmless, write-Stage,
}

module _ {F : Type 0} (host : Host F) where
  open_tunnel-Staged :
      (now : ℕ) (digest : String) (endpoint : EndpointKey) (user file : String) (event : Bool)
      (r : EndpointRecord) (s : Server F)
      → Staged host digest (r, s)
      → Staged host digest (open_tunnel host now digest endpoint user file event r s)
  unfolding open_tunnel
  open_tunnel-Staged now digest endpoint user file event r s st =
      if_both (Staged host digest) (eqb first.0.session_count 1)
        (guarded_start-Stage host now digest endpoint user file event (made_ready event) first.0
          first.1 (made_ready-Harmless host event) first-Staged)
        first-Staged
    where
      first : EndpointRecord × Server F
      first =
          if event && not r.event_required
          then guarded_start host now digest endpoint user file true (upgraded true) r s
          else (r, s)

      first-Staged : Staged host digest first
      first-Staged =
          if_both (Staged host digest) (event && not r.event_required)
            (guarded_start-Stage host now digest endpoint user file true (upgraded true) r s
              (upgraded-Harmless host true) st)
            st

  upgrade_reused-Sound :
      (digest : String) (r : EndpointRecord) (s : Server F) (answer : Result (Unit {0}) × F)
      → Staged host digest (r, s)
      → Sound host (upgrade_reused host digest r s answer).1
  unfolding upgrade_reused
  upgrade_reused-Sound digest r s (ok _, f) st =
      (write-Stage host.sha256 digest r (upgraded true r) s.endpoints s.sessions refl refl refl
        st).sound
  upgrade_reused-Sound digest r s (err exc, f) st = st.sound

  upgrade_known-Sound :
      (endpoint : EndpointKey) (digest : String) (previous : Session) (r : EndpointRecord)
      (s : Server F) (file : Option String)
      → Staged host digest (r, s)
      → Sound host (upgrade_known host endpoint digest previous r s file).1
  unfolding upgrade_known
  upgrade_known-Sound endpoint digest previous r s none st = st.sound
  upgrade_known-Sound endpoint digest previous r s (some file) st =
      upgrade_reused-Sound digest r s
        (host.start s.forwarder endpoint previous.user (host.expanduser file) true) st

  reuse_record-Sound :
      (now : ℕ) (endpoint : EndpointKey) (digest sid : String) (event : Bool) (previous : Session)
      (s : Server F) (o : Option EndpointRecord)
      → get digest s.endpoints ≡ o
      → get sid s.sessions ≡ some previous
      → Sound host s
      → Sound host (reuse_record host now endpoint digest sid event previous s o).1
  unfolding reuse_record
  reuse_record-Sound now endpoint digest sid event previous s none e f h = h
  reuse_record-Sound now endpoint digest sid event previous s (some r) e f h =
      if_both (λ (o : Outcome × Server F). Sound host o.1) (event && not r.event_required)
        (upgrade_known-Sound endpoint digest previous r refreshed previous.identity_file staged)
        refreshed-Sound
    where
      refreshed : Server F
      refreshed = record s { sessions = put sid (record previous { last_seen = now }) s.sessions }

      refreshed-Sound : Sound host refreshed
      refreshed-Sound =
          refresh-IsSound host.sha256 sid previous (record previous { last_seen = now }) s.endpoints
            s.sessions f refl refl h

      staged : Staged host digest (r, refreshed)
      staged = record {
        sound = refreshed-Sound;
        right =
            subst (λ o. Balanced o digest refreshed.sessions) e (refreshed-Sound.balanced digest);
        place = h.placed digest r e;
      }

  with_identity-Sound :
      (now : ℕ) (endpoint : EndpointKey) (digest user file : String) (event : Bool)
      (r : EndpointRecord) (s : Server F) (target : Result TargetKey)
      → Staged host digest (r, s)
      → Sound host (with_identity host now endpoint digest user file event r s target).1
  unfolding with_identity register_target
  with_identity-Sound now endpoint digest user file event r s (err exc) st = st.sound
  with_identity-Sound now endpoint digest user file event r s (ok target) st =
      let st' =
        open_tunnel-Staged now digest endpoint user file event r
          (register_target host target file s) st in
      st'.sound

  register_new-Sound :
      (now : ℕ) (endpoint : EndpointKey) (digest user : String) (event : Bool) (r : EndpointRecord)
      (s : Server F) (file : Option String)
      → Staged host digest (r, s)
      → Sound host (register_new host now endpoint digest user event r s file).1
  unfolding register_new
  register_new-Sound now endpoint digest user event r s none st = st.sound
  register_new-Sound now endpoint digest user event r s (some file) st =
      with_identity-Sound now endpoint digest user file event r s
        (make_target endpoint.hostname (pos endpoint.port) user "") st

  acquire_new-Sound :
      (now : ℕ) (endpoint : EndpointKey) (digest sid user fingerprint : String) (payload : Fields)
      (s : Server F)
      → get sid s.sessions ≡ none
      → endpoint_digest host.sha256 endpoint ≡ digest
      → IsEndpoint endpoint
      → IsName sid
      → is_blank user ≡ false
      → Sound host s
      → Sound host (acquire_new host now endpoint digest sid user fingerprint payload s).1
  unfolding acquire_new
  acquire_new-Sound now endpoint digest sid user fingerprint payload s fresh p v n b h =
      register_new-Sound now endpoint digest user event
        (join_record endpoint digest event user (get digest s.endpoints)) _ session.identity_file
        (join-Stage host.sha256 sid session endpoint digest event s.endpoints s.sessions h fresh
          refl p v (n.0, n.1, b))
    where
      event : Bool
      event = truthy_or true (get_field "event_forward" payload)

      session : Session
      session = new_session digest user fingerprint now payload

  -- An acquire whose candidate's user has a name keeps the tables sound.
  pub acquire-Sound :
      (now : ℕ) (endpoint : EndpointKey) (sid : String) (payload : Fields) (s : Server F)
      → IsEndpoint endpoint
      → IsName sid
      → HasNamedUser payload
      → Sound host s
      → Sound host
          (acquire host now endpoint (endpoint_digest host.sha256 endpoint) sid payload s).1
  unfolding acquire reuse
  acquire-Sound now endpoint sid payload s v n named h = go (parse_candidate payload) refl
    where
      digest : String
      digest = endpoint_digest host.sha256 endpoint

      known :
          (o : Option Session) (user fingerprint : String)
          → get sid s.sessions ≡ o
          → is_blank user ≡ false
          → Sound host (acquire_session host now endpoint digest sid user fingerprint payload s o).1
      known none user fingerprint e b =
          acquire_new-Sound now endpoint digest sid user fingerprint payload s e refl v n b h
      known (some previous) user fingerprint e b =
          if_both (λ (o : Outcome × Server F). Sound host o.1) (previous.endpoint_digest == digest)
            (reuse_record-Sound now endpoint digest sid
              (truthy_or true (get_field "event_forward" payload)) previous s
              (get digest s.endpoints) refl e h)
            h

      go :
          (c : Result (String × String))
          → parse_candidate payload ≡ c
          → Sound host (acquire_candidate host now endpoint digest sid payload s c).1
      go (err exc) e = h
      go (ok (user, fingerprint)) e =
          known (get sid s.sessions) user fingerprint refl (named user fingerprint e)
