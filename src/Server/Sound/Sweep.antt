-- ===== src/Server/Sound/Sweep.antt =====
-- The sweeps keep the tables sound.
use re_remote_dev.Dict.{count, get}
use re_remote_dev.Model.{EndpointKey, make_endpoint}
use re_remote_dev.Prelude.{
  List, Option, String, [], any, arith, if_both, if◌then◌else◌, none, refl, some, subst, true, ℕ,
  ◌<◌, ◌==◌, ◌∷◌, ◌≡◌,
}
use re_remote_dev.Prelude.Int.{pos}
use re_remote_dev.Result.{Result, err, ok}
use re_remote_dev.Server.{
  EndpointRecord, Host, Outcome, Server, Session, mark_forward_failure, raised, reply,
}
use re_remote_dev.Server.Accounts.{Balanced, leases, leases_of}
use re_remote_dev.Server.Acquire.{after_start, guarded_start}
use re_remote_dev.Server.Lease.{handle_lease, op_release}
use re_remote_dev.Server.Release.{least_user, sessions_of}
use re_remote_dev.Server.Sound.Defs.{IsSound, Sound, Stage}
use re_remote_dev.Server.Sound.Lease.{handle_lease-Sound}
use re_remote_dev.Server.Sound.Settle.{least_user-any, sessions_of-leases_of}
use re_remote_dev.Server.Sound.Writes.{write-IsSound}
use re_remote_dev.Server.Sweep.{
  Swept, alive_at, and_then, expire_list, expire_one, is_settled, reconcile_list, reconcile_one,
  reconnect, reconnect_at, reconnect_by, reconnected, release_payload, swept, with_identity_only,
}

module _ {F : Type 0} (host : Host F) where
  expire_one-Sound :
      (now : ℕ) (sid : String) (x : Session) (s : Server F) (o : Option EndpointRecord)
      → Sound host s
      → Sound host (expire_one host now sid x s o).1
  unfolding expire_one
  expire_one-Sound now sid x s none h = h
  expire_one-Sound now sid x s (some r) h =
      swept-Sound (handle_lease host op_release now (release_payload r.endpoint sid) s)
        (handle_lease-Sound host op_release now (release_payload r.endpoint sid) s tt h)
    where
      swept-Sound : (o : Outcome × Server F) → Sound host o.1 → Sound host (swept o).1
      swept-Sound (reply a, t) q = q
      swept-Sound (raised e, t) q = q

  pub expire_list-Sound :
      (now : ℕ) (xs : List (String × Session)) (s : Server F)
      → Sound host s
      → Sound host (expire_list host now xs s).1
  unfolding expire_list
  expire_list-Sound now [] s h = h
  expire_list-Sound now ((sid, x) ∷ rest) s h =
      go first (expire_list host now rest) (expire_list-Sound now rest) (
        if_both (λ (o : Swept F). Sound host o.1) (alive_at now s.lease_ttl x) {x = (none, s)} h
          (expire_one-Sound now sid x s (get x.endpoint_digest s.endpoints) h))
    where
      first : Swept F
      first =
          if alive_at now s.lease_ttl x
          then (none, s)
          else expire_one host now sid x s (get x.endpoint_digest s.endpoints)

      go :
          (p : Swept F) (next : Server F → Swept F)
          → ((t : Server F) → Sound host t → Sound host (next t).1)
          → Sound host p.1
          → Sound host (and_then p next).1
      go (none, t) next f q = f t q
      go (some e, t) next f q = q

  -- A start that makes a session's user the owner, or marks the failure.
  reconnected-Stage :
      (now : ℕ) (digest user : String) (r : EndpointRecord) (s : Server F)
      (result : Result (Unit {0}))
      → get digest s.endpoints ≡ some r
      → 0 < leases_of user digest s.sessions
      → Sound host s
      → Stage host.sha256 digest
          (after_start host now (reconnected user) result r)
          s.endpoints
          s.sessions
  unfolding reconnected mark_forward_failure
  reconnected-Stage now digest user r s result e w h = go result
    where
      right : Balanced (some r) digest s.sessions
      right = subst (λ o. Balanced o digest s.sessions) e (h.balanced digest)

      go :
          (a : Result (Unit {0}))
          → Stage host.sha256 digest
              (after_start host now (reconnected user) a r)
              s.endpoints
              s.sessions
      go (ok _) = record { sound = h; right = (right.0, right.1, w); place = h.placed digest r e }
      go (err exc) = record { sound = h; right = right; place = h.placed digest r e }

  reconnect_at-Sound :
      (now : ℕ) (digest user file : String) (r : EndpointRecord) (s : Server F)
      (at : Result EndpointKey)
      → get digest s.endpoints ≡ some r
      → 0 < leases_of user digest s.sessions
      → Sound host s
      → Sound host (reconnect_at host now digest r s user file at)
  unfolding reconnect_at guarded_start
  reconnect_at-Sound now digest user file r s (err exc) e w h =
      write-IsSound host.sha256 digest (after_start host now (reconnected user) (err exc) r)
        s.endpoints s.sessions (reconnected-Stage now digest user r s (err exc) e w h)
  reconnect_at-Sound now digest user file r s (ok endpoint) e w h =
      let answer = host.start s.forwarder endpoint user (host.expanduser file) r.event_required in
      write-IsSound host.sha256 digest (after_start host now (reconnected user) answer.0 r)
        s.endpoints s.sessions (reconnected-Stage now digest user r s answer.0 e w h)

  reconnect-Sound :
      (now : ℕ) (digest : String) (r : EndpointRecord) (s : Server F) (xs : List Session)
      → get digest s.endpoints ≡ some r
      → ((x : Session) → least_user xs ≡ some x → 0 < leases_of x.user digest s.sessions)
      → Sound host s
      → Sound host (reconnect host now digest r s (least_user xs))
  unfolding reconnect
  reconnect-Sound now digest r s xs e w h = go (least_user xs) w
    where
      by :
          (user : String) (file : Option String)
          → 0 < leases_of user digest s.sessions
          → Sound host (reconnect_by host now digest r s user file)
      by user none q = h
      by user (some file) q =
          reconnect_at-Sound now digest user file r s
            (make_endpoint r.endpoint.hostname (pos r.endpoint.port)) e q h

      go :
          (o : Option Session)
          → ((x : Session) → o ≡ some x → 0 < leases_of x.user digest s.sessions)
          → Sound host (reconnect host now digest r s o)
      go none f = h
      go (some x) f = by x.user x.identity_file (f x refl)

  any_kept :
      (user : String) (xs : List Session)
      → any (λ y. y.user == user) (with_identity_only xs) ≡ true
      → any (λ y. y.user == user) xs ≡ true
  unfolding with_identity_only
  any_kept user [] q = q
  any_kept user (x ∷ xs) q = ground (arith, any_kept user xs)

  reconcile_one-Sound :
      (now : ℕ) (digest : String) (s : Server F) (o : Option EndpointRecord)
      → get digest s.endpoints ≡ o
      → Sound host s
      → Sound host (reconcile_one host now digest s o)
  unfolding reconcile_one
  reconcile_one-Sound now digest s none e h = h
  reconcile_one-Sound now digest s (some r) e h = if_both (Sound host) (is_settled now r) h (
      reconnect-Sound now digest r s (with_identity_only here) e
        (λ x q.
          sessions_of-leases_of x.user digest s.sessions
            (any_kept x.user here (least_user-any (with_identity_only here) x q)))
        h)
    where
      here : List Session
      here = sessions_of digest s.sessions

  pub reconcile_list-Sound :
      (now : ℕ) (xs : List (String × EndpointRecord)) (s : Server F)
      → Sound host s
      → Sound host (reconcile_list host now xs s)
  unfolding reconcile_list
  reconcile_list-Sound now [] s h = h
  reconcile_list-Sound now ((digest, r) ∷ rest) s h =
      reconcile_list-Sound now rest (reconcile_one host now digest s (get digest s.endpoints))
        (reconcile_one-Sound now digest s (get digest s.endpoints) refl h)

-- An empty table of leases is sound.
pub empty-IsSound : (sha256 : String → String) → IsSound sha256 [] []
unfolding get leases count
empty-IsSound sha256 = record {
  unique = tt;
  balanced = λ d. refl;
  placed = λ k v e. cc;
  named = λ k v e. cc;
}
