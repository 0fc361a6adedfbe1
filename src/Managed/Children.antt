-- ===== src/Managed/Children.antt =====
-- The forwarder processes of a managed session.
use re_remote_dev.Managed.{
  ManagedSession, Run, StartAnswers, World, abandon, clean_up, clear_nonce, ensure_master, fails,
  launch_forward, publish, raises, raising, registered_with, start, stop_forward, stop_master,
  succeeds, with_event, with_master, with_proxy, write_nonce,
}
use re_remote_dev.Model.{TargetKey}
use re_remote_dev.Oauth.{stop_child}
use re_remote_dev.Prelude.{
  Bool, List, Option, String, [], ap, arith, false, if◌then◌else◌, inl, inr, none, refl, some, true,
  ℕ, ◌∷◌, ◌≡◌, ◌⊎◌,
}
use re_remote_dev.Result.{Exc, Result, err, failed, ok}

abbrev pub owned : Option ℕ → List ℕ → List ℕ
owned none cs = cs
owned (some pid) cs = pid ∷ cs

-- The processes of a session.
abbrev pub own : ManagedSession → List ℕ
own s = owned s.event_forward (owned s.proxy_forward [])

-- A start over no processes ends with those of the session that it returns, or with none.
abbrev pub Accounted : Result ManagedSession × World → Type 0
Accounted (ok session, w) = w.children ≡ own session
Accounted (err exc, w) = w.children ≡ []

stop_master-children : (r : Run) (w : World) → (stop_master r w).1.children ≡ w.children
unfolding stop_master
stop_master-children succeeds w = refl
stop_master-children (fails d) w = refl
stop_master-children (raises d) w = refl

clear_nonce-children : (r : Run) (w : World) → (clear_nonce r w).children ≡ w.children
clear_nonce-children succeeds w = refl
clear_nonce-children (fails d) w = refl
clear_nonce-children (raises d) w = refl

raising-Accounted :
    (exc : Exc) (r : Run) (w : World) → w.children ≡ [] → Accounted (raising exc (stop_master r w))
unfolding stop_master
raising-Accounted exc succeeds w h = h
raising-Accounted exc (fails d) w h = h
raising-Accounted exc (raises d) w h = h

-- The processes that a session may have: its own, or none once they were stopped.
abbrev pub Held : ManagedSession → World → Type 0
Held session w = (w.children ≡ own session) ⊎ (w.children ≡ [])

stopped : ManagedSession → List ℕ → List ℕ
stopped session cs = stop_child session.proxy_forward (stop_child session.event_forward cs)

stopped-none : (p e : Option ℕ) → stop_child p (stop_child e []) ≡ []
stopped-none none none = refl
stopped-none none (some e) = refl
stopped-none (some p) none = refl
stopped-none (some p) (some e) = refl

stopped-own : (p e : Option ℕ) → stop_child p (stop_child e (owned e (owned p []))) ≡ []
stopped-own none none = refl
stopped-own none (some e) = ground arith
stopped-own (some p) none = ground arith
stopped-own (some p) (some e) = ground arith

pub stop_forwards-Held :
    (session : ManagedSession) (w : World)
    → Held session w
    → stop_child session.proxy_forward (stop_child session.event_forward w.children) ≡ []
stop_forwards-Held session w (inl h) =
    rw h (stopped-own session.proxy_forward session.event_forward)
stop_forwards-Held session w (inr h) =
    rw h (stopped-none session.proxy_forward session.event_forward)

pub clean_up-Held :
    (session : ManagedSession) (clear master : Run) (w : World)
    → Held session w
    → (clean_up session clear master w).children ≡ []
unfolding clean_up
clean_up-Held session clear master w h =
    rw (stop_master-children master (clear_nonce clear w), clear_nonce-children clear w)
      (stop_forwards-Held session w h)

module _ (a : StartAnswers) where
  abandon-Accounted :
      (session : ManagedSession) (exc : Exc) (w : World)
      → w.children ≡ own session
      → Accounted (abandon a session exc w)
  unfolding abandon
  abandon-Accounted session exc w h =
      raising-Accounted exc a.stop_master
        (stop_forward session.proxy_forward (stop_forward session.event_forward w))
        (stop_forwards-Held session w (inl h))

  registered_with-Accounted :
      (session : ManagedSession) (w : World) (r : Result (Option String))
      → w.children ≡ own session
      → Accounted (registered_with a session w r)
  unfolding registered_with
  registered_with-Accounted session w (err exc) h = abandon-Accounted session exc w h
  registered_with-Accounted session w (ok none) h = h
  registered_with-Accounted session w (ok (some d)) h =
      clean_up-Held session a.clear_nonce a.stop_master w (inl h)

  publish-Accounted :
      (session : ManagedSession) (r : Run) (nonce : String) (w : World)
      → w.children ≡ own session
      → Accounted (publish a session (write_nonce r nonce w))
  unfolding publish
  publish-Accounted session succeeds nonce w h =
      registered_with-Accounted session (record w { remote_nonce = some nonce }) a.response h
  publish-Accounted session (fails d) nonce w h =
      abandon-Accounted session (failed "无法在目标机写入 Codex 会话 nonce，已拒绝启用受管事件") w h
  publish-Accounted session (raises d) nonce w h = abandon-Accounted session (failed d) w h

  with_event-Accounted :
      (session : ManagedSession) (proxy : ℕ) (w : World) (r : Result ℕ)
      → w.children ≡ proxy ∷ []
      → Accounted (with_event a session proxy w r)
  unfolding with_event
  with_event-Accounted session proxy w (err exc) h =
      raising-Accounted (failed "独立 SSH 事件 forwarder 启动失败") a.stop_master
        (stop_forward (some proxy) w) (rw h (stopped-own (some proxy) none))
  with_event-Accounted session proxy w (ok event) h =
      publish-Accounted (record session { proxy_forward = some proxy; event_forward = some event })
        a.write_nonce session.nonce (record w { children = event ∷ w.children })
        (ap (λ cs. event ∷ cs) h)

  with_proxy-Accounted :
      (session : ManagedSession) (w : World) (r : Result ℕ)
      → w.children ≡ []
      → Accounted (with_proxy a session w r)
  unfolding with_proxy
  with_proxy-Accounted session w (err exc) h =
      raising-Accounted (failed "独立 SSH 代理 forwarder 启动失败") a.stop_master w h
  with_proxy-Accounted session w (ok proxy) h =
      with_event-Accounted session proxy (record w { children = proxy ∷ w.children })
        (launch_forward a.event) (ap (λ cs. proxy ∷ cs) h)

  with_master-Accounted :
      (target : TargetKey) (identity : String) (w : World)
      → w.children ≡ []
      → Accounted (with_master a target identity w)
  unfolding with_master
  with_master-Accounted target identity w h =
      with_proxy-Accounted
        (record {
          target = target;
          nonce = a.nonce;
          identity_file = some identity;
          proxy_forward = none;
          event_forward = none;
        })
        w (launch_forward a.proxy) h

  ensure_master-Accounted :
      (target : TargetKey) (identity : String) (w : World) (r : Run)
      → w.children ≡ []
      → Accounted (ensure_master a target identity w r)
  unfolding ensure_master
  ensure_master-Accounted target identity w succeeds h =
      with_master-Accounted target identity (record w { master = true }) h
  ensure_master-Accounted target identity w (fails d) h = h
  ensure_master-Accounted target identity w (raises d) h = h

-- Whatever a start over no forwarder processes meets, the processes that run after it are the two of the
-- session that it returns, or none where it raises.
pub start-Accounted :
    (a : StartAnswers) (target : TargetKey) (identity : String) (w : World)
    → w.children ≡ []
    → Accounted (start a target identity w)
unfolding start
start-Accounted a target identity w h = go a.check
  where
    go :
        (check : Result Bool)
        → Accounted (elim check [
          | err exc ↦ (err exc, w)
          | ok running ↦
              if running
              then with_master a target identity w
              else ensure_master a target identity w a.ensure
        ])
    go (err exc) = h
    go (ok true) = with_master-Accounted a target identity w h
    go (ok false) = ensure_master-Accounted a target identity w a.ensure h
