-- ===== src/Managed.antt =====
-- orchestrator/session.py: `SessionManager.start` and `.stop`. What the operating system, the remote host
-- and the orchestrator answer to each step is an argument.
pub mod Serve
pub mod Children
pub mod Supervised
use re_remote_dev.Model.{TargetKey}
use re_remote_dev.Oauth.{Launch, exited, not_started, runs, stop_child}
use re_remote_dev.Prelude.{
  Bool, List, Option, String, false, if◌then◌else◌, none, some, true, ℕ, ◌∷◌,
}
use re_remote_dev.Prelude.Text.{◌<>◌}
use re_remote_dev.Result.{Exc, Result, err, failed, ok}

-- The fields of `ManagedSession` that its methods change or read.
pub record ManagedSession : Type 0 where
  pub target : TargetKey
  pub nonce : String
  pub identity_file : Option String
  pub proxy_forward : Option ℕ
  pub event_forward : Option ℕ

-- `children` are the forwarder processes launched and not stopped, newest first; `master` tells whether a
-- ControlMaster of the target runs, and `remote_nonce` is the nonce file on the target.
pub record World : Type 0 where
  pub children : List ℕ
  pub master : Bool
  pub remote_nonce : Option String

-- subprocess.run of a command: it succeeds, fails, or raises (timeout, OSError).
pub data Run : Type 0 where
  succeeds : Run
  fails : String → Run
  raises : String → Run

-- What a start meets. `check` is `MasterManager.check`, `response` the orchestrator's answer to the
-- registration: `none` for ok, or its error.
pub record StartAnswers : Type 0 where
  pub check : Result Bool
  pub ensure : Run
  pub nonce : String
  pub proxy : Launch
  pub event : Launch
  pub write_nonce : Run
  pub response : Result (Option String)
  pub stop_master : Run
  pub clear_nonce : Run

pub record StopAnswers : Type 0 where
  pub unregister : Result (Unit {0})
  pub clear_nonce : Run
  pub stop_master : Run

-- ProxyForwarder.start and EventForwarder.start
abbrev pub launch_forward : Launch → Result ℕ
launch_forward (Launch.runs pid) = ok pid
launch_forward Launch.exited = err (failed "代理 forwarder 启动失败（SSH 进程已退出）")
launch_forward (Launch.not_started detail) = err (failed detail)

-- subprocess.run(self.master.stop_command(target), check=False, …), which may raise
unfoldable pub stop_master : Run → World → Result (Unit {0}) × World
stop_master succeeds w = (ok tt, record w { master = false })
stop_master (fails detail) w = (ok tt, w)
stop_master (raises detail) w = (err (failed detail), w)

-- rm -f session.nonce on the target
abbrev pub clear_nonce : Run → World → World
clear_nonce succeeds w = record w { remote_nonce = none }
clear_nonce (fails detail) w = w
clear_nonce (raises detail) w = w

-- ProxyForwarder.stop(forward)
abbrev pub stop_forward : Option ℕ → World → World
stop_forward forward w = record w { children = stop_child forward w.children }

-- The `finally` of `stop`: what runs whether or not the orchestrator answers.
unfoldable pub clean_up : ManagedSession → Run → Run → World → World
unfolding stop_master
clean_up session clear master w =
    stop_forward session.proxy_forward
      (stop_forward session.event_forward (stop_master master (clear_nonce clear w)).1)

-- stop(session), with unregister=True
unfoldable pub stop : ManagedSession → StopAnswers → World → Result (Unit {0}) × World
unfolding clean_up
stop session a w = (a.unregister, clean_up session a.clear_nonce a.stop_master w)

-- `raise` in an `except` block, after a run that may raise in its place
abbrev pub raising : Exc → Result (Unit {0}) × World → Result ManagedSession × World
raising exc (ok _, w) = (err exc, w)
raising exc (err other, w) = (err other, w)

-- _write_nonce
abbrev pub write_nonce : Run → String → World → Result (Unit {0}) × World
write_nonce succeeds nonce w = (ok tt, record w { remote_nonce = some nonce })
write_nonce (fails detail) nonce w = (err (failed "无法在目标机写入 Codex 会话 nonce，已拒绝启用受管事件"), w)
write_nonce (raises detail) nonce w = (err (failed detail), w)

-- The `except Exception` around the nonce and the registration: no forwarder outlives the failure.
unfoldable pub abandon : StartAnswers → ManagedSession → Exc → World → Result ManagedSession × World
unfolding stop_master
abandon a session exc w = raising exc (
    stop_master a.stop_master
      (stop_forward session.proxy_forward (stop_forward session.event_forward w)))

-- The orchestrator's answer to the registration.
unfoldable pub registered_with :
    StartAnswers → ManagedSession → World → Result (Option String) → Result ManagedSession × World
unfolding abandon clean_up
registered_with a session w (err exc) = abandon a session exc w
registered_with a session w (ok none) = (ok session, w)
registered_with a session w (ok (some detail)) =
    (err (failed ("编排器注册目标失败：" <> detail)), clean_up session a.clear_nonce a.stop_master w)

unfoldable pub publish :
    StartAnswers → ManagedSession → Result (Unit {0}) × World → Result ManagedSession × World
unfolding registered_with
publish a session (err exc, w) = abandon a session exc w
publish a session (ok _, w) = registered_with a session w a.response

-- The second forwarder; without it the first is stopped.
unfoldable pub with_event :
    StartAnswers → ManagedSession → ℕ → World → Result ℕ → Result ManagedSession × World
unfolding publish
with_event a session proxy w (err exc) =
    raising (failed "独立 SSH 事件 forwarder 启动失败")
      (stop_master a.stop_master (stop_forward (some proxy) w))
with_event a session proxy w (ok event) =
    let s : ManagedSession = record session {
      proxy_forward = some proxy;
      event_forward = some event;
    } in
    publish a s (write_nonce a.write_nonce s.nonce (record w { children = event ∷ w.children }))

unfoldable pub with_proxy :
    StartAnswers → ManagedSession → World → Result ℕ → Result ManagedSession × World
unfolding with_event
with_proxy a session w (err exc) =
    raising (failed "独立 SSH 代理 forwarder 启动失败") (stop_master a.stop_master w)
with_proxy a session w (ok proxy) =
    with_event a session proxy (record w { children = proxy ∷ w.children }) (launch_forward a.event)

-- The steps that follow a running master.
unfoldable pub with_master :
    StartAnswers → TargetKey → String → World → Result ManagedSession × World
unfolding with_proxy
with_master a target identity w =
    with_proxy a
      (record {
        target = target;
        nonce = a.nonce;
        identity_file = some identity;
        proxy_forward = none;
        event_forward = none;
      })
      w (launch_forward a.proxy)

unfoldable pub ensure_master :
    StartAnswers → TargetKey → String → World → Run → Result ManagedSession × World
unfolding with_master
ensure_master a target identity w succeeds =
    with_master a target identity (record w { master = true })
ensure_master a target identity w (fails detail) =
    (err (failed ("无法建立 SSH ControlMaster：" <> detail)), w)
ensure_master a target identity w (raises detail) = (err (failed detail), w)

-- start(target, identity_file)
unfoldable pub start : StartAnswers → TargetKey → String → World → Result ManagedSession × World
unfolding ensure_master
start a target identity w = elim a.check [
  | err exc ↦ (err exc, w)
  | ok running ↦
      if running
      then with_master a target identity w
      else ensure_master a target identity w a.ensure
]
