-- ===== src/Server/Sound/Join.antt =====
-- A session that joins an endpoint, or is refreshed, keeps the accounts of the lease tables.
use re_remote_dev.Dict.{Dict, get, put, put-Every, put-Unique}
use re_remote_dev.Model.{EndpointKey, endpoint_digest}
use re_remote_dev.Prelude.{
  Bool, Option, String, arith, eq_iff, get_or, none, refl, some, subst, ◌+◌, ◌<◌, ◌≡◌,
}
use re_remote_dev.Server.{EndpointRecord, Session}
use re_remote_dev.Server.Accounts.{
  AllBalanced, Balanced, Balanced-keep, Owned, leases, leases-join, leases-refresh, leases_of,
  leases_of-join-le, leases_of-join_self, leases_of-refresh, put-Balanced,
}
use re_remote_dev.Server.Joining.{fresh_record, join_record}
use re_remote_dev.Server.Sound.Defs.{IsEndpoint, IsNamed, IsPlaced, IsSound, Stage}

module _ (sid digest : String) (x : Session) (ss : Dict Session) (fresh : get sid ss ≡ none)
    (e : x.endpoint_digest ≡ digest) where
  -- A joined session keeps every other endpoint's account.
  join-others :
      (eps : Dict EndpointRecord)
      → AllBalanced eps ss
      → (d : String) → (digest ≡ d → ⊥)
      → Balanced (get d eps) d (put sid x ss)
  join-others eps h d ne =
      Balanced-keep (get d eps) d ss (put sid x ss)
        (ground (arith, leases-join sid x ss d fresh, eq_iff x.endpoint_digest d))
        (λ u. leases_of-join-le sid x ss u d fresh) (h d)

  own_count : leases digest (put sid x ss) ≡ leases digest ss + 1
  own_count = ground (arith, leases-join sid x ss digest fresh, eq_iff x.endpoint_digest digest)

  own_holder : 0 < leases_of x.user digest (put sid x ss)
  own_holder =
      subst (λ d. 0 < leases_of x.user d (put sid x ss)) e (leases_of-join_self sid x ss fresh)

  -- The account of the endpoint that is joined.
  join-own :
      (endpoint : EndpointKey) (event : Bool) (o : Option EndpointRecord)
      → Balanced o digest ss
      → Balanced (some (join_record endpoint digest event x.user o)) digest (put sid x ss)
  unfolding join_record
  join-own endpoint event none b = (omega (arith, own_count), omega (arith, own_count), own_holder)
  join-own endpoint event (some r) (c, p, o) =
      (omega (arith, own_count), omega (arith, own_count), go r.owner o)
    where
      go :
          (w : Option String)
          → Owned w digest ss
          → Owned (some (get_or w x.user)) digest (put sid x ss)
      go none h = elim h [ ]
      go (some u) h = omega (arith, leases_of-join-le sid x ss u digest fresh)

-- The record that a new session joins stands under its own endpoint's digest.
join_record-IsPlaced :
    (sha256 : String → String) (endpoint : EndpointKey) (digest : String) (event : Bool)
    (user : String) (o : Option EndpointRecord)
    → endpoint_digest sha256 endpoint ≡ digest
    → IsEndpoint endpoint
    → ((r : EndpointRecord) → o ≡ some r → IsPlaced sha256 digest r)
    → IsPlaced sha256 digest (join_record endpoint digest event user o)
unfolding join_record fresh_record
join_record-IsPlaced sha256 endpoint digest event user none e v h = (e, v)
join_record-IsPlaced sha256 endpoint digest event user (some r) e v h = h r refl

pub join-Stage :
    (sha256 : String → String) (sid : String) (x : Session) (endpoint : EndpointKey)
    (digest : String) (event : Bool) (eps : Dict EndpointRecord) (ss : Dict Session)
    → IsSound sha256 eps ss
    → get sid ss ≡ none
    → x.endpoint_digest ≡ digest
    → endpoint_digest sha256 endpoint ≡ digest
    → IsEndpoint endpoint
    → IsNamed sid x
    → let r = join_record endpoint digest event x.user (get digest eps) in
      Stage sha256 digest r (put digest r eps) (put sid x ss)
join-Stage sha256 sid x endpoint digest event eps ss h fresh e p v n = record {
  sound = record {
    unique = put-Unique sid x ss h.unique;
    balanced =
        put-Balanced digest r eps (put sid x ss)
          (join-others sid digest x ss fresh e eps h.balanced) own;
    placed = put-Every (IsPlaced sha256) digest r eps place h.placed;
    named = put-Every IsNamed sid x ss n h.named;
  };
  right = own;
  place = place;
}
  where
    r : EndpointRecord
    r = join_record endpoint digest event x.user (get digest eps)

    own : Balanced (some r) digest (put sid x ss)
    own = join-own sid digest x ss fresh e endpoint event (get digest eps) (h.balanced digest)

    place : IsPlaced sha256 digest r
    place =
        join_record-IsPlaced sha256 endpoint digest event x.user (get digest eps) p v
          (h.placed digest)

-- A session that is refreshed.
pub refresh-IsSound :
    (sha256 : String → String) (sid : String) (old x : Session) (eps : Dict EndpointRecord)
    (ss : Dict Session)
    → get sid ss ≡ some old
    → old.endpoint_digest ≡ x.endpoint_digest
    → old.user ≡ x.user
    → IsSound sha256 eps ss
    → IsSound sha256 eps (put sid x ss)
refresh-IsSound sha256 sid old x eps ss f e u h = record {
  unique = put-Unique sid x ss h.unique;
  balanced = λ d.
      Balanced-keep (get d eps) d ss (put sid x ss) (leases-refresh sid x ss old d f e)
        (λ w. omega (arith, leases_of-refresh sid x ss old w d f e u)) (h.balanced d);
  placed = h.placed;
  named =
      put-Every IsNamed sid x ss (let n = h.named sid old f in (n.0, n.1, rw (← u) n.2)) h.named;
}
