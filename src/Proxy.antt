-- ===== src/Proxy.antt =====
-- proxy.py: the settings of the temporary reverse proxy, its ssh command line, and the life of its ssh
-- process. Ports are natural numbers; processes are known by their numbers.
pub mod Lifetime
use re_remote_dev.Prelude.{
  Bool, List, Option, String, [], eqb, if◌then◌else◌, leb, none, not, on_some, some, suc, zero, ℕ,
  ◌&&◌, ◌++◌, ◌==◌, ◌||◌, ◌∷◌,
}
use re_remote_dev.Prelude.Text.{decimal, is_empty, ◌<>◌}
use re_remote_dev.Result.{Result, err, failed, invalid, ok, ◌>>=◌}
use re_remote_dev.Tunnel.{started}

pub record ProxySettings : Type 0 where
  pub mode : String
  pub host : String
  pub port : ℕ
  pub remote_port_min : ℕ
  pub remote_port_max : ℕ

-- lo <= n <= hi
abbrev pub within : ℕ → ℕ → ℕ → Bool
within lo n hi = leb lo n && leb n hi

-- ProxySettings.validate()
unfoldable pub validate : ProxySettings → Result (Unit {0})
validate p =
    if not (p.mode == "auto" || p.mode == "required" || p.mode == "off")
    then err (invalid "代理 mode 必须是 auto、required 或 off")
    else if is_empty p.host || not (within 1 p.port 65535)
    then err (invalid "代理 host/port 无效")
    else if not (leb 1024 p.remote_port_min && within p.remote_port_min p.remote_port_max 65535)
    then err (invalid "远端临时端口范围无效")
    else ok tt

-- ssh_reverse_forward_args(settings, remote_port)
unfoldable pub ssh_reverse_forward_args : ProxySettings → ℕ → Result (List String)
unfolding validate
ssh_reverse_forward_args p remote_port = validate p >>= λ u.
    if not (within p.remote_port_min remote_port p.remote_port_max)
    then err (invalid "remote_port 不在声明的随机端口范围内")
    else ok (
        "-o"
        ∷ "ExitOnForwardFailure=yes"
        ∷ "-o"
        ∷ "ServerAliveInterval=30"
        ∷ "-o"
        ∷ "ServerAliveCountMax=3"
        ∷ "-o"
        ∷ "ControlMaster=no"
        ∷ "-o"
        ∷ "ControlPath=none"
        ∷ "-R"
        ∷ ("127.0.0.1:" <> decimal remote_port <> ":" <> p.host <> ":" <> decimal p.port)
        ∷ [])

-- choose_remote_port(settings), with the number that randint gives
unfoldable pub choose_remote_port : ProxySettings → ℕ → Result ℕ
unfolding validate
choose_remote_port p random = validate p >>= λ u. ok random

-- The fields of ReverseProxyTunnel that its operations read; `process` is `self.process`.
pub record ReverseProxyTunnel : Type 0 where
  pub settings : ProxySettings
  pub destination : String
  pub identity_file : Option String
  pub auth_password : Option String
  pub ssh_bin : String
  pub remote_port : ℕ
  pub ssh_extra_args : List String
  pub process : Option ℕ

-- remote_port or choose_remote_port(settings)
unfoldable pub port_or_choose : ProxySettings → ℕ → Option ℕ → Result ℕ
unfolding choose_remote_port
port_or_choose p random none = choose_remote_port p random
port_or_choose p random (some zero) = choose_remote_port p random
port_or_choose p random (some (suc n)) = ok (suc n)

-- The identity file that the command names.
unfoldable pub used_identity : Option String → Option String
used_identity none = none
used_identity (some file) = if is_empty file || file == "/dev/null" then none else some file

abbrev pub isolated : Option String → Option String → List String
isolated (some file) password = "-F" ∷ "/dev/null" ∷ []
isolated none (some password) = "-F" ∷ "/dev/null" ∷ []
isolated none none = []

-- ReverseProxyTunnel.command()
unfoldable pub command : ReverseProxyTunnel → Result (List String)
unfolding ssh_reverse_forward_args used_identity
command t =
    let identity = used_identity t.identity_file in
    ssh_reverse_forward_args t.settings t.remote_port >>= λ forward. ok (
      on_some [] (λ password. "sshpass" ∷ "-e" ∷ []) t.auth_password
      ++ (t.ssh_bin
          ∷ (on_some [] (λ file. "-i" ∷ file ∷ []) identity
              ++ ("-N"
                  ∷ "-T"
                  ∷ (isolated identity t.auth_password
                      ++ (t.ssh_extra_args ++ (forward ++ (t.destination ∷ []))))))))

-- What a start meets: whether the local proxy listens, the number of the ssh process or the OSError of
-- its Popen, and whether it ends within 0.8 seconds, with what it wrote.
pub record Attempt : Type 0 where
  pub available : Bool
  pub pid : Result ℕ
  pub ends : Option String

-- ReverseProxyTunnel.start(), with the ssh processes that run
unfoldable pub launch :
    ReverseProxyTunnel → Attempt → List ℕ → Result (Unit {0}) × ReverseProxyTunnel × List ℕ
launch t a running = elim a.pid [
  | err e ↦ (err e, t, running)
  | ok pid ↦
      let started = record t { process = some pid } in
      elim a.ends [
        | none ↦ (ok tt, started, pid ∷ running)
        | some detail ↦ (err (failed ("SSH 临时代理建立失败：" <> detail)), started, running)
      ]
]

unfoldable pub start_available :
    ReverseProxyTunnel
    → Attempt
    → List ℕ
    → Result (List String)
    → Result (Unit {0}) × ReverseProxyTunnel × List ℕ
unfolding launch
start_available t a running (err e) = (err e, t, running)
start_available t a running (ok args) = launch t a running

unfoldable pub start_valid :
    ReverseProxyTunnel
    → Attempt
    → List ℕ
    → Result (Unit {0})
    → Result (Unit {0}) × ReverseProxyTunnel × List ℕ
unfolding start_available command
start_valid t a running (err e) = (err e, t, running)
start_valid t a running (ok u) =
    if t.settings.mode == "off"
    then (ok tt, t, running)
    else if not a.available
    then (if t.settings.mode == "required"
        then (err (failed "执行端临时 HTTP 代理不可用"), t, running)
        else (ok tt, t, running))
    else start_available t a running (command t)

unfoldable pub start :
    ReverseProxyTunnel → Attempt → List ℕ → Result (Unit {0}) × ReverseProxyTunnel × List ℕ
unfolding start_valid validate
start t a running = start_valid t a running (validate t.settings)

-- The processes but one.
unfoldable pub ended : ℕ → List ℕ → List ℕ
ended pid [] = []
ended pid (p ∷ ps) = let rest = ended pid ps in if eqb p pid then rest else p ∷ rest

-- ReverseProxyTunnel.stop(): a process that runs is terminated, and killed if it stays.
unfoldable pub stop : ReverseProxyTunnel → List ℕ → List ℕ
unfolding ended
stop t running = on_some running (λ pid. ended pid running) t.process
