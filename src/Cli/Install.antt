-- ===== src/Cli/Install.antt =====
-- `_local_service_matches` and `_install_local_orchestrator` of cli.py. `render` stands for the
-- `str.replace` that puts the executable into the service unit; a file is its text.
use re_remote_dev.Prelude.{
  Bool, List, Option, String, [], false, if◌then◌else◌, none, not, some, true, ◌&&◌, ◌==◌, ◌||◌,
  ◌∷◌,
}
use re_remote_dev.Result.{Exc, Result, err, failed, ok, ◌>>◌}

-- The source tree: whether `re-remote` is there, and the texts of the four files.
pub record Project : Type 0 where
  pub executable : Bool
  pub service : String
  pub socket : String
  pub hook : String
  pub tdl : Option String

-- The installed files, each of which may be missing.
pub record Installed : Type 0 where
  pub service_file : Option String
  pub socket_file : Option String
  pub hook_file : Option String
  pub tdl_file : Option String

-- path.is_file() and path.read_text() == content
abbrev pub holds : String → Option String → Bool
holds content none = false
holds content (some text) = text == content

abbrev pub holds_tdl : Option String → Option String → Bool
holds_tdl none file = false
holds_tdl (some content) file = holds content file

-- _local_service_matches(project_root), where a missing source of tdl is an exception instead
unfoldable pub local_service_matches : (String → String) → Project → Installed → Bool
local_service_matches render p f =
    p.executable
    && holds (render p.service) f.service_file
    && holds p.socket f.socket_file
    && holds p.hook f.hook_file
    && holds_tdl p.tdl f.tdl_file

-- What was done besides the files: the question asked, and the restart of the service.
pub record Done : Type 0 where
  pub asked : Bool
  pub restarted : Bool

-- What the steps meet: the answer to the question, the SSH integration, `systemctl` with check=True
-- (daemon-reload, enable, restart), and the health requests within 15 seconds.
pub record Setting : Type 0 where
  pub agrees : Bool
  pub ssh_installed : Result (Unit {0})
  pub reload : Result (Unit {0})
  pub enable : Result (Unit {0})
  pub restart_unit : Result (Unit {0})
  pub health : List (Result Bool)

-- The polling loop: the first answer counts.
unfoldable pub check_health : List (Result Bool) → Result (Unit {0})
check_health [] = err (failed "本地编排器启动后未能通过健康检查")
check_health (err e ∷ rest) = check_health rest
check_health (ok true ∷ rest) = ok tt
check_health (ok false ∷ rest) = err (failed "本地编排器健康检查失败")

-- The end of an installation: cancelled with exit code 0, an exception, or done.
pub data Ending : Type 0 where
  cancelled : Ending
  broke : Exc → Ending
  in_place : Ending

abbrev pub ending : Result (Unit {0}) → Ending
ending (ok u) = in_place
ending (err e) = broke e

abbrev pub InstallOutcome : Type 0
InstallOutcome = Ending × Installed × Done

module _ (render : String → String) (p : Project) (set : Setting) where
  -- The two units, the calls of systemctl and the health check.
  unfoldable pub install_units : Bool → Installed → InstallOutcome
  unfolding check_health
  install_units asked f =
      let changed =
        not (holds (render p.service) f.service_file) || not (holds p.socket f.socket_file) in
      let g = record f { service_file = some (render p.service); socket_file = some p.socket } in
      let restart = if changed then set.restart_unit else ok tt in
      (
        ending (set.reload >> set.enable >> restart >> check_health set.health),
        g,
        record {
          asked = asked;
          restarted = elim (set.reload >> set.enable) [ ok u ↦ changed | err e ↦ false ];
        },
      )

  unfoldable pub install_ssh_then : Bool → Installed → Result (Unit {0}) → InstallOutcome
  unfolding install_units
  install_ssh_then asked f (err e) = (broke e, f, record { asked = asked; restarted = false })
  install_ssh_then asked f (ok u) = install_units asked f

  unfoldable pub install_tdl : Bool → Installed → Option String → InstallOutcome
  unfolding install_ssh_then
  install_tdl asked f none =
      (broke (failed "未找到 scripts/tdl"), f, record { asked = asked; restarted = false })
  install_tdl asked f (some text) =
      install_ssh_then asked (record f { tdl_file = some text }) set.ssh_installed

  unfoldable pub install_files : Bool → Installed → InstallOutcome
  unfolding install_tdl
  install_files asked f =
      if not p.executable
      then (broke (failed "未找到项目统一入口 re-remote"), f, record { asked = asked; restarted = false })
      else install_tdl asked (record f { hook_file = some p.hook }) p.tdl

  -- _install_local_orchestrator(confirm=confirm)
  unfoldable pub install_local_orchestrator : Bool → Installed → InstallOutcome
  unfolding install_files local_service_matches
  install_local_orchestrator confirm f =
      let asks = confirm && not (local_service_matches render p f) in
      if asks && not set.agrees
      then (cancelled, f, record { asked = true; restarted = false })
      else install_files asks f
