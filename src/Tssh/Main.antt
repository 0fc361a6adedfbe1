-- ===== src/Tssh/Main.antt =====
-- `main` of tssh.py, from the first request to the end of the `finally` block, and the command of the
-- remote shell. `quote` stands for `shlex.quote`.
use re_remote_dev.Json.{Fields, end, field, num, obj, str}
use re_remote_dev.Prelude.{
  Bool, List, Option, String, [], false, if◌then◌else◌, none, not, on_some, some, true, ℕ, ◌&&◌,
  ◌||◌, ◌∷◌,
}
use re_remote_dev.Prelude.Int.{pos}
use re_remote_dev.Prelude.Text.{decimal, is_empty, ◌<>◌}
use re_remote_dev.Proxy.{command}
use re_remote_dev.Result.{Result, err, ok}
use re_remote_dev.Tssh.{Try, preview_forward, ssh_command, stop_preview_forward}
use re_remote_dev.Tssh.Requests.{Caller, Said, acquire_payload, endpoint_json, session_payload}

-- "; ".join(f"export {key}={quote(value)}" for key, value in values.items())
unfoldable pub exports : (String → String) → List (String × String) → String
exports quote [] = ""
exports quote ((k, v) ∷ []) = "export " <> k <> "=" <> quote v
exports quote ((k, v) ∷ w ∷ rest) =
    "export " <> k <> "=" <> quote v <> "; " <> exports quote (w ∷ rest)

-- The variables that both commands carry.
unfoldable pub proxy_values : ℕ → List (String × String)
proxy_values port =
    let url = "http://127.0.0.1:" <> decimal port in
    ("REMOTE_DEV_TSSH_PROXY_PORT", decimal port)
    ∷ ("http_proxy", url)
    ∷ ("https_proxy", url)
    ∷ ("HTTP_PROXY", url)
    ∷ ("HTTPS_PROXY", url)
    ∷ ("no_proxy", "127.0.0.1,localhost")
    ∷ ("NO_PROXY", "127.0.0.1,localhost")
    ∷ []

abbrev login_shell : String
login_shell = "; exec \"${SHELL:-/bin/sh}\" -l"

-- _preview_shell_command(endpoint_digest, session_id, nonce, remote_port, proxy_port)
unfoldable pub preview_shell_command : (String → String) → String → String → String → ℕ → ℕ → String
unfolding exports proxy_values
preview_shell_command quote digest session_id nonce remote_port proxy_port =
    exports quote (
      ("RDO_ENDPOINT", digest)
      ∷ ("RDO_SESSION", session_id)
      ∷ ("RDO_NONCE", nonce)
      ∷ ("RDO_PORT", decimal remote_port)
      ∷ proxy_values proxy_port)
    <> login_shell

-- _proxy_shell_command(proxy_port)
unfoldable pub proxy_shell_command : (String → String) → ℕ → String
unfolding exports proxy_values
proxy_shell_command quote proxy_port = exports quote (proxy_values proxy_port) <> login_shell

-- What a session holds on the client: the requests that `main` itself sent, newest first (those of the
-- heartbeat thread are in Tssh), the reverse leg's processes, the
-- heartbeat thread, the bridge, the download manager, and the ssh command lines run, newest first.
pub record Local : Type 0 where
  pub asked : List Fields
  pub children : List ℕ
  pub beating : Bool
  pub bridge_open : Bool
  pub downloads_open : Bool
  pub ran : List (List String)

-- What the steps meet. `acquired` is the first response; `prepared` the directory of the control
-- sockets; `bridge` the start of the bridge, with its digest, nonce and port; `finished` the ssh run;
-- `outlives` says that a request keeps the heartbeat thread for longer than the second of its `join`.
pub record Course : Type 0 where
  pub acquired : Result Said
  pub prepared : Result (Unit {0})
  pub bridge : Result (String × String × ℕ)
  pub tries : List Try
  pub has_agent : Bool
  pub finished : Result ℕ
  pub outlives : Bool

-- The code that main returns, with `preview_forward` and what is held.
abbrev pub Left : Type 0
Left = ℕ × Option (ℕ × ℕ) × Local

abbrev pub send_request : Fields → Local → Local
send_request payload w = record w { asked = payload ∷ w.asked }

-- The arguments of a session.
pub record Args : Type 0 where
  pub destination : String
  pub ssh_args : List String

-- subprocess.run(ssh_args), whose OSError gives 1
unfoldable pub run_ssh : Course → List String → Option (ℕ × ℕ) → Local → Left
run_ssh course command forward w = (
  elim course.finished [ ok status ↦ status | err e ↦ 1 ],
  forward,
  record w { ran = command ∷ w.ran },
)

-- {"op": "preview_register", ...}
unfoldable pub preview_payload : Caller → String → String → ℕ → ℕ → Fields
preview_payload c digest nonce local_port remote_port = field "op" (str "preview_register") (
    field "session_id" (str c.session_id) (
      field "endpoint" (endpoint_json c) (
        field "preview"
          (obj (
            field "endpoint_digest" (str digest) (
              field "session_id" (str c.session_id) (
                field "nonce" (str nonce) (
                  field "local_port" (num (pos local_port))
                    (field "remote_port" (num (pos remote_port)) end))))))
          end)))

-- not args.ssh_args
abbrev pub plain : List String → Bool
plain [] = true
plain (arg ∷ rest) = false

module _ (quote : String → String) (c : Caller) (args : Args) (course : Course) where
  -- With a reverse leg the bridge is registered; without one it is stopped.
  unfoldable pub with_forward : String → String → ℕ → Option (ℕ × ℕ) × List ℕ → Local → Left
  unfolding run_ssh preview_payload
  with_forward digest nonce local_port (some (pid, remote_port), children) w =
      let command = preview_shell_command quote digest c.session_id nonce remote_port 4227 in
      run_ssh course (ssh_command args.destination c.identity c.port args.ssh_args (some command))
        (some (pid, remote_port))
        (record (send_request (preview_payload c digest nonce local_port remote_port) w) {
          children = children;
        })
  with_forward digest nonce local_port (none, children) w =
      let command = if plain args.ssh_args then some (proxy_shell_command quote 4227) else none in
      run_ssh course (ssh_command args.destination c.identity c.port args.ssh_args command) none
        (record w { children = children; bridge_open = false })

  -- The bridge was started, or its start raised.
  unfoldable pub with_bridge : Result (String × String × ℕ) → Local → Left
  unfolding with_forward
  with_bridge (err e) w = (1, none, w)
  with_bridge (ok (digest, nonce, local_port)) w =
      let can =
        on_some course.has_agent (λ file. not (is_empty file) || course.has_agent) c.identity in
      with_forward digest nonce local_port
        (if plain args.ssh_args
          then preview_forward can course.tries w.children
          else (none, w.children))
        w

  -- The directory was made, or could not be.
  unfoldable pub interactive : Result (Unit {0}) → Local → Left
  unfolding with_bridge
  interactive (err e) w = (1, none, w)
  interactive (ok u) w =
      with_bridge course.bridge (record w { downloads_open = true; bridge_open = true })

  unfoldable pub with_lease : Result Said → Local → Left
  unfolding interactive
  with_lease (err e) w = (1, none, w)
  with_lease (ok r) w =
      let w1 = record w { beating = true } in
      if not r.fine
      then (1, none, w)
      else if r.degraded
      then (1, none, w)
      else if c.persistent_run
      then (0, none, w1)
      else interactive course.prepared w1

  -- The `finally` block.
  unfoldable pub let_go : Left → ℕ × Local
  let_go (status, forward, w) = (
    status,
    send_request (session_payload "release" c) (record w {
      children = stop_preview_forward forward w.children;
      beating = w.beating && course.outlives;
      bridge_open = false;
      downloads_open = false;
    }),
  )

  unfoldable pub main : Local → ℕ × Local
  unfolding with_lease let_go
  main w = let_go (with_lease course.acquired (send_request (acquire_payload c) w))
