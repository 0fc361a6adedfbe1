-- ===== src/Server/Accounts.antt =====
-- The accounts that the lease tables keep: how many sessions an endpoint has and who owns its tunnel.
use re_remote_dev.Dict.{
  Dict, Unique, count, count-put, count-remove, get, get-put, get-remove, put, remove,
}
use re_remote_dev.Prelude.{
  Bool, Bool-cases, Option, String, arith, eq_iff, if◌then◌else◌, inl, inr, none, some, subst, sym,
  ℕ, ◌&&◌, ◌+◌, ◌<◌, ◌==◌, ◌∙◌, ◌≡◌, ◌≤◌,
}
use re_remote_dev.Server.{EndpointRecord, Session}

abbrev pub in_endpoint : String → Session → Bool
in_endpoint digest x = x.endpoint_digest == digest

abbrev pub held_by : String → String → Session → Bool
held_by user digest x = x.endpoint_digest == digest && x.user == user

-- The number of sessions that lease an endpoint.
unfoldable pub leases : String → Dict Session → ℕ
leases digest ss = count (in_endpoint digest) ss

unfoldable pub leases_of : String → String → Dict Session → ℕ
leases_of user digest ss = count (held_by user digest) ss

abbrev pub Owned : Option String → String → Dict Session → Type 0
Owned none digest ss = ⊥
Owned (some user) digest ss = 0 < leases_of user digest ss

-- An endpoint that is not recorded has no session. One that is has its session count right and at
-- least one session, and its owner is the user of one of them.
abbrev pub Balanced : Option EndpointRecord → String → Dict Session → Type 0
Balanced none digest ss = leases digest ss ≡ 0
Balanced (some r) digest ss =
    (r.session_count ≡ leases digest ss) × (0 < leases digest ss) × Owned r.owner digest ss

abbrev pub AllBalanced : Dict EndpointRecord → Dict Session → Type 0
AllBalanced eps ss = (d : String) → Balanced (get d eps) d ss

-- A record is written that is right for its own endpoint.
pub put-Balanced :
    (digest : String) (r : EndpointRecord) (eps : Dict EndpointRecord) (ss : Dict Session)
    → ((d : String) → (digest ≡ d → ⊥) → Balanced (get d eps) d ss)
    → Balanced (some r) digest ss
    → AllBalanced (put digest r eps) ss
put-Balanced digest r eps ss h b d = elim (Bool-cases (digest == d)) [
  | inl e ↦
      rw (get-put digest d r eps, e) (subst (λ x. Balanced (some r) x ss) ((eq_iff digest d).0 e) b)
  | inr e ↦ rw (get-put digest d r eps, e) (h d (λ q. ground (arith, eq_iff digest d)))
]

-- A write to one endpoint's record is nothing to the others.
pub put-others :
    (digest : String) (r : EndpointRecord) (eps : Dict EndpointRecord) (ss : Dict Session)
    → ((d : String) → (digest ≡ d → ⊥) → Balanced (get d eps) d ss)
    → (d : String) → (digest ≡ d → ⊥)
    → Balanced (get d (put digest r eps)) d ss
put-others digest r eps ss h d ne = elim (Bool-cases (digest == d)) [
  | inl t ↦ absurd (ne ((eq_iff digest d).0 t))
  | inr t ↦ rw (get-put digest d r eps, t) (h d ne)
]

pub remove-Balanced :
    (digest : String) (eps : Dict EndpointRecord) (ss : Dict Session)
    → ((d : String) → (digest ≡ d → ⊥) → Balanced (get d eps) d ss)
    → leases digest ss ≡ 0
    → AllBalanced (remove digest eps) ss
remove-Balanced digest eps ss h b d = elim (Bool-cases (digest == d)) [
  | inl e ↦ rw (get-remove digest d eps, e) (subst (λ x. leases x ss ≡ 0) ((eq_iff digest d).0 e) b)
  | inr e ↦ rw (get-remove digest d eps, e) (h d (λ q. ground (arith, eq_iff digest d)))
]

module _ (sid : String) (x : Session) (ss : Dict Session) where
  -- A new session adds one lease to its own endpoint and none to another.
  pub leases-join :
      (d : String)
      → get sid ss ≡ none
      → leases d (put sid x ss) ≡ leases d ss + (if x.endpoint_digest == d then 1 else 0)
  unfolding leases
  leases-join d h = ground (arith, count-put (in_endpoint d) sid x ss)

  pub leases_of-join-le :
      (user d : String) → get sid ss ≡ none → leases_of user d ss ≤ leases_of user d (put sid x ss)
  unfolding leases_of
  leases_of-join-le user d h = ground (arith, count-put (held_by user d) sid x ss)

  pub leases_of-join_self :
      get sid ss ≡ none → 0 < leases_of x.user x.endpoint_digest (put sid x ss)
  unfolding leases_of
  leases_of-join_self h = ground (
    arith,
    count-put (held_by x.user x.endpoint_digest) sid x ss,
    eq_iff x.user x.user,
    eq_iff x.endpoint_digest x.endpoint_digest,
  )

  -- A session that only changes what does not concern the accounts.
  pub leases-refresh :
      (old : Session) (d : String)
      → get sid ss ≡ some old
      → old.endpoint_digest ≡ x.endpoint_digest
      → leases d (put sid x ss) ≡ leases d ss
  unfolding leases
  leases-refresh old d h e = ground (arith, count-put (in_endpoint d) sid x ss)

  pub leases_of-refresh :
      (old : Session) (user d : String)
      → get sid ss ≡ some old
      → old.endpoint_digest ≡ x.endpoint_digest
      → old.user ≡ x.user
      → leases_of user d (put sid x ss) ≡ leases_of user d ss
  unfolding leases_of
  leases_of-refresh old user d h e u = ground (arith, count-put (held_by user d) sid x ss)

  pub leases-leave :
      (d : String)
      → Unique ss
      → get sid ss ≡ some x
      → leases d (remove sid ss) + (if x.endpoint_digest == d then 1 else 0) ≡ leases d ss
  unfolding leases
  leases-leave d u h = ground (arith, count-remove (in_endpoint d) sid ss u)

  pub leases_of-leave :
      (user d : String)
      → Unique ss
      → get sid ss ≡ some x
      → leases_of user d (remove sid ss) + (if held_by user d x then 1 else 0) ≡ leases_of user d ss
  unfolding leases_of
  leases_of-leave user d u h = ground (arith, count-remove (held_by user d) sid ss u)

-- Sessions that change without a change in an endpoint's leases keep its account.
pub Balanced-keep :
    (o : Option EndpointRecord) (d : String) (ss ss' : Dict Session)
    → leases d ss' ≡ leases d ss
    → ((u : String) → leases_of u d ss ≤ leases_of u d ss')
    → Balanced o d ss
    → Balanced o d ss'
Balanced-keep none d ss ss' e m b = e ∙ b
Balanced-keep (some r) d ss ss' e m (c, p, o) = (c ∙ sym e, omega arith, owned r.owner o)
  where
    owned : (who : Option String) → Owned who d ss → Owned who d ss'
    owned none h = h
    owned (some u) h = omega (arith, m u)
