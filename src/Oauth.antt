-- ===== src/Oauth.antt =====
-- orchestrator/oauth.py: one temporary callback forward. What the operating system answers to a start
-- is an argument: whether the local port is taken, and what became of each SSH process.
use re_remote_dev.Model.{TargetKey, same_target, same_target_iff}
use re_remote_dev.Prelude.{
  Bool, List, Option, String, [], ap, arith, eqb, false, if◌then◌else◌, inl, inr, none, not, refl,
  some, subst, true, ℕ, ◌∙◌, ◌∷◌, ◌≡◌, ◌⊎◌,
}
use re_remote_dev.Prelude.Text.{◌<>◌}

-- A forwarder process that runs; its pid stands for the Popen object.
pub record OauthSession : Type 0 where
  pub target : TargetKey
  pub local_port : ℕ
  pub remote_port : ℕ
  pub forward : Option ℕ
  pub ipv6_forward : Option ℕ

pub data ErrorCode : Type 0 where
  master_unavailable oauth_busy port_conflict target_not_found : ErrorCode

-- Popen and the wait of 0.15 s: the process still runs, it has exited, or it was not started (OSError).
pub data Launch : Type 0 where
  runs : ℕ → Launch
  exited : Launch
  not_started : String → Launch

pub record Answers : Type 0 where
  pub port_taken : Bool
  pub primary : Launch
  pub ipv6 : Launch

-- `children` are the forwarder processes that were launched and not stopped, newest first.
pub record OauthManager : Type 0 where
  pub local_port : ℕ
  pub remote_port : ℕ
  pub active : Option OauthSession
  pub children : List ℕ

pub data Outcome {ℓ} (A : Type ℓ) : Type ℓ where
  done : A → Outcome A
  refused : ErrorCode → String → Outcome A

abbrev pub init : OauthManager
init = record { local_port = 1455; remote_port = 1455; active = none; children = [] }

-- `_start_process`: the process, or the text of the exception. For 127.0.0.1 it probes the port first.
abbrev pub start_process : Bool → Launch → ℕ ⊎ String
start_process true launch = inr "本机 127.0.0.1:1455 已被其他程序占用；请关闭占用该端口的程序后重试 Codex 登录"
start_process false (runs pid) = inl pid
start_process false exited = inr "SSH OAuth forwarder 启动失败（端口冲突或 SSH 拒绝转发）"
start_process false (not_started detail) = inr detail

-- `except …: ipv6 = None`
abbrev best_effort : ℕ ⊎ String → Option ℕ
best_effort (inl pid) = some pid
best_effort (inr detail) = none

abbrev launched : Option ℕ → List ℕ → List ℕ
launched none cs = cs
launched (some pid) cs = pid ∷ cs

start_new : OauthManager → TargetKey → ℕ ⊎ String → Option ℕ → Outcome OauthSession × OauthManager
start_new m target (inr detail) ipv6 =
    (refused port_conflict ("无法建立本地 1455→远端 1455 转发：" <> detail), m)
start_new m target (inl pid) ipv6 =
    let session : OauthSession = record {
      target = target;
      local_port = m.local_port;
      remote_port = m.remote_port;
      forward = some pid;
      ipv6_forward = ipv6;
    } in
    (done session, record m { active = some session; children = launched ipv6 (pid ∷ m.children) })

start_active :
    OauthManager → TargetKey → Answers → Option OauthSession → Outcome OauthSession × OauthManager
unfolding start_new
start_active m target a (some session) =
    if same_target session.target target
    then (done session, m)
    else (refused oauth_busy "已有另一个目标正在进行 OAuth 登录，请先完成或取消它", m)
start_active m target a none =
    start_new m target (start_process a.port_taken a.primary)
      (best_effort (start_process false a.ipv6))

-- start(target, identity_file=…)
unfoldable pub start :
    OauthManager → TargetKey → Option String → Answers → Outcome OauthSession × OauthManager
unfolding start_active
start m target none a = (refused master_unavailable "OAuth 回调需要目标 SSH 私钥路径；请重新建立受管会话", m)
start m target (some identity_file) a = start_active m target a m.active

-- ProxyForwarder.stop on a process that may be missing
abbrev pub stop_child : Option ℕ → List ℕ → List ℕ
stop_child none cs = cs
stop_child (some pid) [] = []
stop_child (some pid) (c ∷ cs) = if eqb c pid then cs else c ∷ stop_child (some pid) cs

finish_active : OauthManager → Option TargetKey → Option OauthSession → Outcome Bool × OauthManager
finish_active m target none = (done false, m)
finish_active m target (some session) =
    let mismatch : Bool = elim target [
      | none ↦ false
      | some t ↦ not (same_target session.target t)
    ] in
    if mismatch then (refused target_not_found "目标不是当前活跃 OAuth 会话", m) else (
      done true,
      record m {
        active = none;
        children = stop_child session.forward (stop_child session.ipv6_forward m.children);
      },
    )

-- finish(target), of which `cancel` is another name
unfoldable pub finish : OauthManager → Option TargetKey → Outcome Bool × OauthManager
unfolding finish_active
finish m target = finish_active m target m.active

-- Every launched process is accounted for: the children are those of the active session.
abbrev pub session_children : Option OauthSession → List ℕ
session_children none = []
session_children (some s) = launched s.ipv6_forward (launched s.forward [])

abbrev pub NoLeak : OauthManager → Type 0
NoLeak m = m.children ≡ session_children m.active

-- If the forwarder processes that run are those of the active session, they are so after `start`,
-- whatever became of its two launches.
pub start-NoLeak :
    (m : OauthManager) (target : TargetKey) (identity : Option String) (a : Answers)
    → NoLeak m
    → NoLeak (start m target identity a).1
unfolding start
start-NoLeak m target none a h = h
start-NoLeak m target (some f) a h = ground arith

-- If the forwarder processes that run are those of the active session, they are so after `finish`: it
-- stops the two of the session that it forgets.
pub finish-NoLeak :
    (m : OauthManager) (target : Option TargetKey) → NoLeak m → NoLeak (finish m target).1
unfolding finish
finish-NoLeak m target h = ground arith

start-second :
    (m : OauthManager) (other : TargetKey) (again : Option String) (b : Answers)
    (session : OauthSession)
    → m.active ≡ some session
    → (start m other again b).1 ≡ m
unfolding start
start-second m other none b session h = refl
start-second m other (some file) b session h = ground arith

-- A manager without a login and without processes.
abbrev idle_manager : ℕ → ℕ → OauthManager
idle_manager local remote = record {
  local_port = local;
  remote_port = remote;
  active = none;
  children = [];
}

module _ (target : TargetKey) (session : OauthSession) where
  abbrev Finishes : Outcome OauthSession × OauthManager → OauthManager → Type 0
  Finishes (result, first) m =
      (first.active ≡ some session) × (finish first (some target) ≡ (done true, m))

  start_new-finish :
      (local remote : ℕ) (made : ℕ ⊎ String) (ipv6 : Option ℕ)
      → (start_new (idle_manager local remote) target made ipv6).0 ≡ done session
      → Finishes
          (start_new (idle_manager local remote) target made ipv6)
          (idle_manager local remote)
  unfolding start_new finish
  start_new-finish local remote (inr detail) ipv6 h = cc
  start_new-finish local remote (inl pid) none h =
      let own : same_target target target ≡ true = (same_target_iff target target).1 refl in
      let same_pid : eqb pid pid ≡ true = ground arith in (cc, rw (own, same_pid) refl)
  start_new-finish local remote (inl pid) (some other) h =
      let own : same_target target target ≡ true = (same_target_iff target target).1 refl in
      let same_pid : eqb pid pid ≡ true = ground arith in
      let same_other : eqb other other ≡ true = ground arith in
      (cc, rw (own, same_other, same_pid) refl)

  start_idle :
      (local remote : ℕ) (identity : Option String) (a : Answers)
      → (start (idle_manager local remote) target identity a).0 ≡ done session
      → Finishes (start (idle_manager local remote) target identity a) (idle_manager local remote)
  unfolding start
  start_idle local remote none a h = cc
  start_idle local remote (some file) a h =
      start_new-finish local remote (start_process a.port_taken a.primary)
        (best_effort (start_process false a.ipv6)) h

-- A login that starts on an idle manager is not changed by any second start, whatever its target,
-- identity file and answers are, and the finish for the login's target then leaves the manager as it was
-- before.
pub start_again :
    (m : OauthManager) (target other : TargetKey) (identity again : Option String) (a b : Answers)
    (session : OauthSession)
    → m.children ≡ []
    → m.active ≡ none
    → (start m target identity a).0 ≡ done session
    → let first = (start m target identity a).1 in
      let second = start first other again b in
      (second.1 ≡ first) × (finish second.1 (some target) ≡ (done true, m))
start_again m target other identity again a b session e f h =
    let first = (start m target identity a).1 in
    let is_idle : idle_manager m.local_port m.remote_port ≡ m = cc in
    let (active, finished) =
      subst
        (λ n.
          (start n target identity a).0 ≡ done session
          → Finishes target session (start n target identity a) n)
        is_idle (start_idle target session m.local_port m.remote_port identity a) h in
    let same_manager = start-second first other again b session active in
    (same_manager, ap (λ t. finish t (some target)) same_manager ∙ finished)
