-- ===== src/Server/Sound/Settle.antt =====
-- The endpoint that a session leaves: its tunnel is rebuilt and its owner replaced.
use re_remote_dev.Dict.{Dict, count, put}
use re_remote_dev.Model.{EndpointKey}
use re_remote_dev.Prelude.{
  Bool, Bool-cases, List, Option, String, [], any, arith, eq_iff, false, if_both, inl, inr, none,
  refl, same, some, true, ℕ, ◌<◌, ◌==◌, ◌∙◌, ◌∷◌, ◌≡◌, ◌≢◌,
}
use re_remote_dev.Server.{EndpointRecord, Host, Server, Session}
use re_remote_dev.Server.Accounts.{Owned, leases, leases_of}
use re_remote_dev.Server.Joining.{made_ready, upgraded}
use re_remote_dev.Server.Release.{
  adjust_events, change_owner, first_with_identity, hand_over, least_user, rebuild, released_reply,
  restart, same_owner, sessions_of,
}
use re_remote_dev.Server.Sound.Defs.{Sound}
use re_remote_dev.Server.Sound.Loose.{Holding, Holding-Sound, guarded_start-Holding, write-Loose}
use re_remote_dev.Server.Sound.Writes.{made_ready-Harmless, upgraded-Harmless}

-- The least user among sessions is the user of one of them.
pub least_user-any :
    (xs : List Session) (x : Session)
    → least_user xs ≡ some x
    → any (λ y. y.user == x.user) xs ≡ true
unfolding least_user
least_user-any [] x e = cc
least_user-any (y ∷ ys) x e = ground (arith, eq_iff y.user x.user, least_user-any ys x)

least_user-ne-none : (xs : List Session) → xs ≢ [] → least_user xs ≢ none
unfolding least_user
least_user-ne-none [] h = absurd (h refl)
least_user-ne-none (x ∷ xs) h = ground arith

pub sessions_of-leases_of :
    (user digest : String) (ss : Dict Session)
    → any (λ y. y.user == user) (sessions_of digest ss) ≡ true
    → 0 < leases_of user digest ss
unfolding sessions_of leases_of count
sessions_of-leases_of user digest [] h = cc
sessions_of-leases_of user digest ((k, x) ∷ ss) h =
    ground (arith, sessions_of-leases_of user digest ss)

sessions_of-nonempty :
    (digest : String) (ss : Dict Session) → 0 < leases digest ss → sessions_of digest ss ≢ []
unfolding sessions_of leases count
sessions_of-nonempty digest [] h = omega arith
sessions_of-nonempty digest ((k, x) ∷ ss) h = ground (arith, sessions_of-nonempty digest ss)

module _ {F : Type 0} (host : Host F) where
  rebuild-Holding :
      (now : ℕ) (endpoint : EndpointKey) (digest : String) (desired : Bool) (o : Option String)
      (ss : Dict Session) (r : EndpointRecord) (s : Server F) (who : Option (String × String))
      → Holding host digest o ss (r, s)
      → Holding host digest o ss (rebuild host now endpoint digest desired r s who)
  unfolding rebuild
  rebuild-Holding now endpoint digest desired o ss r s none h = h
  rebuild-Holding now endpoint digest desired o ss r s (some (user, file)) h =
      guarded_start-Holding host now digest endpoint user file desired (upgraded desired) o ss r s
        (upgraded-Harmless host desired) h

  pub adjust_events-Holding :
      (now : ℕ) (endpoint : EndpointKey) (digest : String) (o : Option String) (ss : Dict Session)
      (r : EndpointRecord) (s : Server F)
      → Holding host digest o ss (r, s)
      → Holding host digest o ss (adjust_events host now endpoint digest r s)
  unfolding adjust_events
  adjust_events-Holding now endpoint digest o ss r s h =
      if_both (Holding host digest o ss) (same desired r.event_required) h (
        rebuild-Holding now endpoint digest desired o ss r s
          (first_with_identity (sessions_of digest s.sessions)) h)
    where
      desired : Bool
      desired = any (λ item. item.event_forward) (sessions_of digest s.sessions)

  restart-Holding :
      (now : ℕ) (endpoint : EndpointKey) (digest user : String) (event : Bool) (o : Option String)
      (ss : Dict Session) (r : EndpointRecord) (s : Server F) (file : Option String)
      → Holding host digest o ss (r, s)
      → Holding host digest o ss (restart host now endpoint digest user event r s file)
  unfolding restart
  restart-Holding now endpoint digest user event o ss r s none h = h
  restart-Holding now endpoint digest user event o ss r s (some file) h =
      guarded_start-Holding host now digest endpoint user file event (made_ready event) o ss r s
        (made_ready-Harmless host event) h

  hand_over-Sound :
      (now : ℕ) (endpoint : EndpointKey) (digest : String) (event : Bool) (o : Option String)
      (ss : Dict Session) (r : EndpointRecord) (s : Server F) (xs : List Session)
      → sessions_of digest ss ≡ xs
      → 0 < leases digest ss
      → Holding host digest o ss (r, s)
      → Sound host
          (released_reply digest s (hand_over host now endpoint digest (least_user xs) event r s)).1
  unfolding hand_over
  hand_over-Sound now endpoint digest event o ss r s xs q p (l, e, z) = go (least_user xs) refl
    where
      go :
          (w : Option Session)
          → least_user xs ≡ w
          → Sound host (released_reply digest s (hand_over host now endpoint digest w event r s)).1
      go none f =
          absurd (least_user-ne-none xs (λ n. sessions_of-nonempty digest ss l.positive (q ∙ n)) f)
      go (some y) f =
          Holding-Sound host digest (some y.user) ss
            (restart host now endpoint digest y.user event r1 s1 y.identity_file)
            (restart-Holding now endpoint digest y.user event (some y.user) ss r1 s1 y.identity_file
              (write-Loose host.sha256 digest r r1 s.endpoints ss refl refl l, refl, z))
            (sessions_of-leases_of y.user digest ss (rw q (least_user-any xs y f)))
        where
          r1 : EndpointRecord
          r1 = record r { owner = some y.user; event_required = event }

          s1 : Server F
          s1 = record s { endpoints = put digest r1 s.endpoints }

  pub change_owner-Sound :
      (now : ℕ) (endpoint : EndpointKey) (digest user : String) (o : Option String)
      (ss : Dict Session) (r : EndpointRecord) (s : Server F)
      → Holding host digest o ss (r, s)
      → (same_owner user o ≡ false → Owned o digest ss)
      → Sound host (released_reply digest s (change_owner host now endpoint digest user r s)).1
  unfolding change_owner
  change_owner-Sound now endpoint digest user o ss r s h f =
      elim (Bool-cases (same_owner user r.owner)) [
        | inl t ↦ rw t (
            hand_over-Sound now endpoint digest
              (any (λ item. item.event_forward) (sessions_of digest s.sessions)) o ss r s
              (sessions_of digest s.sessions) (rw h.2) h.0.positive h)
        | inr t ↦ rw t (Holding-Sound host digest o ss (r, s) h (f (rw h.1 at t)))
      ]
