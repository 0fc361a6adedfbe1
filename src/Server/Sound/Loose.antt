-- ===== src/Server/Sound/Loose.antt =====
-- The tables while an endpoint's owner may have left: everything holds but the owner of one record.
use re_remote_dev.Dict.{Dict, Every, Unique, get, get-put_self, put, put-Every}
use re_remote_dev.Model.{EndpointKey}
use re_remote_dev.Prelude.{
  Bool, Bool-cases, Option, String, arith, eq_iff, inl, inr, some, subst, ℕ, ◌<◌, ◌==◌, ◌∙◌, ◌≡◌,
}
use re_remote_dev.Server.{EndpointRecord, Host, Server, Session}
use re_remote_dev.Server.Accounts.{AllBalanced, Balanced, Owned, leases, put-others}
use re_remote_dev.Server.Acquire.{after_start, guarded_start}
use re_remote_dev.Server.Sound.Defs.{IsNamed, IsPlaced, IsSound, Sound}
use re_remote_dev.Server.Sound.Writes.{Harmless, after_start-Harmless}

pub record Loose (sha256 : String → String) (digest : String) (r : EndpointRecord)
    (eps : Dict EndpointRecord) (ss : Dict Session) : Type 0 where
  pub unique : Unique ss
  pub others : (d : String) → (digest ≡ d → ⊥) → Balanced (get d eps) d ss
  pub counted : r.session_count ≡ leases digest ss
  pub positive : 0 < leases digest ss
  pub stored : get digest eps ≡ some r
  pub placed : Every (IsPlaced sha256) eps
  pub named : Every IsNamed ss

module _ (sha256 : String → String) (digest : String) where
  -- With an owner that holds a session the tables are sound.
  pub Loose-IsSound :
      (r : EndpointRecord) (eps : Dict EndpointRecord) (ss : Dict Session)
      → Loose sha256 digest r eps ss
      → Owned r.owner digest ss
      → IsSound sha256 eps ss
  Loose-IsSound r eps ss h o = record {
    unique = h.unique;
    balanced = balanced;
    placed = h.placed;
    named = h.named;
  }
    where
      balanced : AllBalanced eps ss
      balanced d = elim (Bool-cases (digest == d)) [
        | inl e ↦
            subst (λ x. Balanced (get x eps) x ss) ((eq_iff digest d).0 e)
              (rw h.stored (h.counted, h.positive, o))
        | inr e ↦ h.others d (λ q. ground (arith, eq_iff digest d))
      ]

  -- Writing a changed record back.
  pub write-Loose :
      (r r' : EndpointRecord) (eps : Dict EndpointRecord) (ss : Dict Session)
      → r'.session_count ≡ r.session_count
      → r'.endpoint ≡ r.endpoint
      → Loose sha256 digest r eps ss
      → Loose sha256 digest r' (put digest r' eps) ss
  write-Loose r r' eps ss c e h = record {
    unique = h.unique;
    others = put-others digest r' eps ss h.others;
    counted = c ∙ h.counted;
    positive = h.positive;
    stored = get-put_self digest r' eps;
    placed = put-Every (IsPlaced sha256) digest r' eps (rw e (h.placed digest r h.stored)) h.placed;
    named = h.named;
  }

-- The record in hand is right but for its owner, which is `o`; the sessions are `ss`.
abbrev pub Holding :
    {F : Type 0}
    → Host F
    → String
    → Option String
    → Dict Session
    → EndpointRecord × Server F
    → Type 0
Holding host digest o ss (r, s) =
    Loose host.sha256 digest r s.endpoints ss × (r.owner ≡ o) × (s.sessions ≡ ss)

module _ {F : Type 0} (host : Host F) where
  pub Holding-Sound :
      (digest : String) (o : Option String) (ss : Dict Session) (p : EndpointRecord × Server F)
      → Holding host digest o ss p
      → Owned o digest ss
      → Sound host p.1
  Holding-Sound digest o ss (r, s) (l, e, q) h =
      rw q (Loose-IsSound host.sha256 digest r s.endpoints ss l (rw e h))

  pub guarded_start-Holding :
      (now : ℕ) (digest : String) (endpoint : EndpointKey) (user file : String) (event : Bool)
      (good : EndpointRecord → EndpointRecord) (o : Option String) (ss : Dict Session)
      (r : EndpointRecord) (s : Server F)
      → Harmless host good
      → Holding host digest o ss (r, s)
      → Holding host digest o ss (guarded_start host now digest endpoint user file event good r s)
  unfolding guarded_start
  guarded_start-Holding now digest endpoint user file event good o ss r s h (l, e, q) =
      let answer = host.start s.forwarder endpoint user (host.expanduser file) event in
      let same_ = after_start-Harmless host now good answer.0 h r in
      (
        write-Loose host.sha256 digest r (after_start host now good answer.0 r) s.endpoints ss
            same_.0 same_.2 l,
        same_.1 ∙ e,
        q,
      )
