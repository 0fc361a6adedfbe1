-- ===== src/Server/Sound/Leave.antt =====
-- The end of a release: the session is gone from the table, and its endpoint is settled.
use re_remote_dev.Dict.{
  Dict, get, get-put_self, put, put-Every, remove, remove-Every, remove-Unique, remove-put,
}
use re_remote_dev.Model.{EndpointKey, TargetKey, make_target}
use re_remote_dev.Prelude.{
  Bool-cases, Option, String, arith, eq_iff, eqb, false, inl, inr, none, refl, some, subst, ℕ, ◌+◌,
  ◌-◌, ◌<◌, ◌≡◌, ◌≢◌,
}
use re_remote_dev.Prelude.Int.{pos}
use re_remote_dev.Prelude.Text.{is_blank}
use re_remote_dev.Result.{ok}
use re_remote_dev.Server.{EndpointRecord, Host, Server, Session}
use re_remote_dev.Server.Accounts.{
  Balanced, Balanced-keep, Owned, leases, leases-leave, leases_of-leave, put-others,
  remove-Balanced,
}
use re_remote_dev.Server.Release.{adjust_events, close_endpoint, leave_endpoint, same_owner, stay}
use re_remote_dev.Server.Sound.Defs.{IsEndpoint, IsNamed, IsPlaced, IsSound, Sound}
use re_remote_dev.Server.Sound.Loose.{Loose}
use re_remote_dev.Server.Sound.Settle.{adjust_events-Holding, change_owner-Sound}

module _ (sha256 : String → String) (sid : String) (x : Session) (eps : Dict EndpointRecord)
    (ss : Dict Session) (h : IsSound sha256 eps ss) (f : get sid ss ≡ some x) where
  leave-others : (d : String) → (x.endpoint_digest ≡ d → ⊥) → Balanced (get d eps) d (remove sid ss)
  leave-others d ne =
      Balanced-keep (get d eps) d ss (remove sid ss)
        (ground (arith, leases-leave sid x ss d h.unique f, eq_iff x.endpoint_digest d))
        (λ u. ground (arith, leases_of-leave sid x ss u d h.unique f, eq_iff x.endpoint_digest d))
        (h.balanced d)

  leave-count : leases x.endpoint_digest (remove sid ss) + 1 ≡ leases x.endpoint_digest ss
  leave-count = ground (
    arith,
    leases-leave sid x ss x.endpoint_digest h.unique f,
    eq_iff x.endpoint_digest x.endpoint_digest,
  )

  -- The endpoint of a session is recorded.
  pub endpoint-recorded : get x.endpoint_digest eps ≢ none
  endpoint-recorded e =
      let b : Balanced none x.endpoint_digest ss =
        subst (λ o. Balanced o x.endpoint_digest ss) e (h.balanced x.endpoint_digest) in
      absurd (omega (arith, leave-count, b))

  -- Another user's hold on the endpoint stays.
  leave-Owned :
      (o : Option String)
      → Owned o x.endpoint_digest ss
      → same_owner x.user o ≡ false
      → Owned o x.endpoint_digest (remove sid ss)
  leave-Owned none q n = q
  leave-Owned (some u) q n =
      ground (arith, leases_of-leave sid x ss u x.endpoint_digest h.unique f, eq_iff x.user u)

  -- With the session gone and its record counted down, the record is right but for its owner.
  leave-Loose :
      (r : EndpointRecord)
      → get x.endpoint_digest eps ≡ some r
      → 0 < leases x.endpoint_digest (remove sid ss)
      → let r1 = record r { session_count = r.session_count - 1 } in
        Loose sha256 x.endpoint_digest r1 (put x.endpoint_digest r1 eps) (remove sid ss)
  leave-Loose r e p = record {
    unique = remove-Unique sid ss h.unique;
    others = put-others x.endpoint_digest r1 eps (remove sid ss) leave-others;
    counted = counted;
    positive = p;
    stored = get-put_self x.endpoint_digest r1 eps;
    placed =
        put-Every (IsPlaced sha256) x.endpoint_digest r1 eps (h.placed x.endpoint_digest r e)
          h.placed;
    named = remove-Every IsNamed sid ss h.named;
  }
    where
      r1 : EndpointRecord
      r1 = record r { session_count = r.session_count - 1 }

      counted : r1.session_count ≡ leases x.endpoint_digest (remove sid ss)
      counted =
          let b : Balanced (some r) x.endpoint_digest ss =
            subst (λ o. Balanced o x.endpoint_digest ss) e (h.balanced x.endpoint_digest) in
          omega (arith, leave-count, b.0)

  -- The last session of an endpoint goes with its record.
  leave-last :
      leases x.endpoint_digest (remove sid ss) ≡ 0
      → IsSound sha256 (remove x.endpoint_digest eps) (remove sid ss)
  leave-last e = record {
    unique = remove-Unique sid ss h.unique;
    balanced = remove-Balanced x.endpoint_digest eps (remove sid ss) leave-others e;
    placed = remove-Every (IsPlaced sha256) x.endpoint_digest eps h.placed;
    named = remove-Every IsNamed sid ss h.named;
  }

  right :
      (r : EndpointRecord)
      → get x.endpoint_digest eps ≡ some r
      → Balanced (some r) x.endpoint_digest ss
  right r e = subst (λ o. Balanced o x.endpoint_digest ss) e (h.balanced x.endpoint_digest)

-- The target of a user at an endpoint.
abbrev pub endpoint_target : EndpointKey → String → TargetKey
endpoint_target endpoint user = record {
  hostname = endpoint.hostname;
  port = endpoint.port;
  user = user;
  identity_fingerprint = "";
}

pub make_target_named :
    (endpoint : EndpointKey) (user : String)
    → IsEndpoint endpoint
    → is_blank user ≡ false
    → make_target endpoint.hostname (pos endpoint.port) user "" ≡ ok (endpoint_target endpoint user)
unfolding make_target
make_target_named endpoint user (a, b, c, d) n = rw (c, d, n)

module _ {F : Type 0} (host : Host F) where
  close_endpoint-Sound :
      (endpoint : EndpointKey) (sid : String) (x : Session) (r : EndpointRecord)
      (eps : Dict EndpointRecord) (ss : Dict Session) (s : Server F) (target : TargetKey)
      → IsSound host.sha256 eps ss
      → get sid ss ≡ some x
      → s.endpoints ≡ put x.endpoint_digest r eps
      → s.sessions ≡ remove sid ss
      → leases x.endpoint_digest (remove sid ss) ≡ 0
      → Sound host (close_endpoint host endpoint x.endpoint_digest x.user s (ok target)).1
  unfolding close_endpoint
  close_endpoint-Sound endpoint sid x r eps ss s target h f q z e =
      rw (q, z, remove-put x.endpoint_digest r eps) (leave-last host.sha256 sid x eps ss h f e)

  stay-Sound :
      (now : ℕ) (endpoint : EndpointKey) (sid : String) (x : Session) (eps : Dict EndpointRecord)
      (ss : Dict Session) (s : Server F) (r : EndpointRecord)
      → IsSound host.sha256 eps ss
      → get sid ss ≡ some x
      → s.endpoints ≡ eps
      → s.sessions ≡ remove sid ss
      → get x.endpoint_digest eps ≡ some r
      → 0 < leases x.endpoint_digest (remove sid ss)
      → Sound host (stay host now endpoint x.endpoint_digest x.user r s).1
  unfolding stay
  stay-Sound now endpoint sid x eps ss s r h f q z e p =
      change_owner-Sound host now endpoint x.endpoint_digest x.user r.owner (remove sid ss)
        adjusted.0 adjusted.1
        (adjust_events-Holding host now endpoint x.endpoint_digest r.owner (remove sid ss) r1 s1
          (rw q (leave-Loose host.sha256 sid x eps ss h f r e p), refl, z))
        (leave-Owned host.sha256 sid x eps ss h f r.owner
          (right host.sha256 sid x eps ss h f r e).2)
    where
      r1 : EndpointRecord
      r1 = record r { session_count = r.session_count - 1 }

      s1 : Server F
      s1 = record s { endpoints = put x.endpoint_digest r1 s.endpoints }

      adjusted : EndpointRecord × Server F
      adjusted = adjust_events host now endpoint x.endpoint_digest r1 s1

  pub leave_endpoint-Sound :
      (now : ℕ) (endpoint : EndpointKey) (sid : String) (x : Session) (eps : Dict EndpointRecord)
      (ss : Dict Session) (s : Server F) (o : Option EndpointRecord)
      → IsSound host.sha256 eps ss
      → get sid ss ≡ some x
      → s.endpoints ≡ eps
      → s.sessions ≡ remove sid ss
      → get x.endpoint_digest eps ≡ o
      → IsEndpoint endpoint
      → Sound host (leave_endpoint host now endpoint x.endpoint_digest x.user o s).1
  unfolding leave_endpoint
  leave_endpoint-Sound now endpoint sid x eps ss s none h f q z e v =
      absurd (endpoint-recorded host.sha256 sid x eps ss h f e)
  leave_endpoint-Sound now endpoint sid x eps ss s (some r) h f q z e v =
      elim (Bool-cases (eqb (r.session_count - 1) 0)) [
        | inl t ↦
            rw (t, make_target_named endpoint x.user v (h.named sid x f).2)
              (close_endpoint-Sound endpoint sid x
                (record r { session_count = r.session_count - 1 }) eps ss
                (record s {
                  endpoints =
                      put x.endpoint_digest (record r { session_count = r.session_count - 1 })
                        s.endpoints;
                })
                (endpoint_target endpoint x.user) h f (rw q) z (ground (arith, count)))
        | inr t ↦ rw t (stay-Sound now endpoint sid x eps ss s r h f q z e (ground (arith, count)))
      ]
    where
      count : leases x.endpoint_digest (remove sid ss) + 1 ≡ r.session_count
      count = omega (
        arith,
        leave-count host.sha256 sid x eps ss h f,
        (right host.sha256 sid x eps ss h f r e).0,
      )
