-- ===== src/Server/Sound/Writes.antt =====
-- Writing a record back keeps the invariant; a guarded start is such a write.
use re_remote_dev.Dict.{Dict, put, put-Every}
use re_remote_dev.Model.{EndpointKey}
use re_remote_dev.Prelude.{Bool, String, refl, some, ℕ, ◌≡◌}
use re_remote_dev.Result.{Exc, Result, err, ok}
use re_remote_dev.Server.{EndpointRecord, Host, Server, Session, mark_forward_failure}
use re_remote_dev.Server.Accounts.{Balanced, put-Balanced}
use re_remote_dev.Server.Acquire.{after_start, guarded_start}
use re_remote_dev.Server.Joining.{made_ready, upgraded}
use re_remote_dev.Server.Sound.Defs.{IsPlaced, IsSound, Stage, Staged}

module _ (sha256 : String → String) where
  pub write-IsSound :
      (digest : String) (r : EndpointRecord) (eps : Dict EndpointRecord) (ss : Dict Session)
      → Stage sha256 digest r eps ss
      → IsSound sha256 (put digest r eps) ss
  write-IsSound digest r eps ss h = record {
    unique = h.sound.unique;
    balanced = put-Balanced digest r eps ss (λ d _. h.sound.balanced d) h.right;
    placed = put-Every (IsPlaced sha256) digest r eps h.place h.sound.placed;
    named = h.sound.named;
  }

  -- A change of the record that leaves count, owner and endpoint alone.
  pub write-Stage :
      (digest : String) (r r' : EndpointRecord) (eps : Dict EndpointRecord) (ss : Dict Session)
      → r'.session_count ≡ r.session_count
      → r'.owner ≡ r.owner
      → r'.endpoint ≡ r.endpoint
      → Stage sha256 digest r eps ss
      → Stage sha256 digest r' (put digest r' eps) ss
  write-Stage digest r r' eps ss c o e h = record {
    sound = write-IsSound digest r' eps ss staged;
    right = right';
    place = place';
  }
    where
      right' : Balanced (some r') digest ss
      right' = rw (c, o) h.right

      place' : IsPlaced sha256 digest r'
      place' = rw e h.place

      staged : Stage sha256 digest r' eps ss
      staged = record { sound = h.sound; right = right'; place = place' }

module _ {F : Type 0} (host : Host F) where
  -- `good` touches none of what the accounts are about.
  abbrev pub Harmless : (EndpointRecord → EndpointRecord) → Type 0
  Harmless good =
      (r : EndpointRecord)
      → ((good r).session_count ≡ r.session_count)
        × ((good r).owner ≡ r.owner)
        × ((good r).endpoint ≡ r.endpoint)

  mark_forward_failure-Harmless :
      (now : ℕ) (exc : Exc) → Harmless (mark_forward_failure host now exc)
  unfolding mark_forward_failure
  mark_forward_failure-Harmless now exc r = (refl, refl, refl)

  pub after_start-Harmless :
      (now : ℕ) (good : EndpointRecord → EndpointRecord) (result : Result (Unit {0}))
      → Harmless good
      → Harmless (after_start host now good result)
  after_start-Harmless now good (ok _) h = h
  after_start-Harmless now good (err exc) h = mark_forward_failure-Harmless now exc

  pub guarded_start-Stage :
      (now : ℕ) (digest : String) (endpoint : EndpointKey) (user file : String) (event : Bool)
      (good : EndpointRecord → EndpointRecord) (r : EndpointRecord) (s : Server F)
      → Harmless good
      → Staged host digest (r, s)
      → Staged host digest (guarded_start host now digest endpoint user file event good r s)
  unfolding guarded_start
  guarded_start-Stage now digest endpoint user file event good r s h st =
      let answer = host.start s.forwarder endpoint user (host.expanduser file) event in
      let same_ = after_start-Harmless now good answer.0 h r in
      write-Stage host.sha256 digest r (after_start host now good answer.0 r) s.endpoints s.sessions
        same_.0 same_.1 same_.2 st

  pub upgraded-Harmless : (event : Bool) → Harmless (upgraded event)
  upgraded-Harmless event r = (refl, refl, refl)

  pub made_ready-Harmless : (event : Bool) → Harmless (made_ready event)
  made_ready-Harmless event r = (refl, refl, refl)
