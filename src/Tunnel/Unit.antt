-- ===== src/Tunnel/Unit.antt =====
-- orchestrator/proxy_persistent.py: the systemd unit of an endpoint's tunnel. `join` stands for `shlex.join`,
-- and the unit files are a table of their texts by name.
use re_remote_dev.Dict.{Dict, get, put, remove}
use re_remote_dev.Model.{TargetKey, target_endpoint_digest}
use re_remote_dev.Prelude.{
  Bool, List, Option, String, [], false, if◌then◌else◌, none, not, some, true, ◌&&◌, ◌++◌, ◌==◌,
  ◌∷◌,
}
use re_remote_dev.Prelude.Text.{decimal, ◌<>◌}
use re_remote_dev.Result.{Result, err, failed, ok}

-- A remote listener on port 4227.
pub data Probe : Type 0 where
  free healthy occupied unavailable unreachable : Probe

-- The ssh of the probe: it raises, fails, or prints lines of which the last is given.
pub data Probed : Type 0 where
  no_answer denied : Probed
  printed : Option String → Probed

-- probe_remote_proxy, without the detail text
unfoldable pub probe_of : Probed → Probe
probe_of no_answer = unreachable
probe_of denied = unreachable
probe_of (printed none) = unavailable
probe_of (printed (some marker)) =
    if marker == "HEALTHY"
    then healthy
    else if marker == "FREE"
    then free
    else if marker == "OCCUPIED"
    then occupied
    else unavailable

abbrev pub proxy_leg : String
proxy_leg = "127.0.0.1:4227:127.0.0.1:4227"

abbrev pub event_leg : String
event_leg = "127.0.0.1:4228:127.0.0.1:4230"

abbrev leg : Bool → String → List String
leg true spec = "-R" ∷ spec ∷ []
leg false spec = []

unfoldable pub forwards : Bool → Bool → List String
forwards proxy event = leg proxy proxy_leg ++ leg event event_leg

-- The answers of systemctl: is-active, and whether daemon-reload and start or restart succeed.
pub record Systemd : Type 0 where
  pub active : Bool
  pub reload : Bool
  pub activate : Bool

module _ (sha256 : String → String) where
  unfoldable pub unit_name : TargetKey → String
  unit_name target = "remote-dev-proxy-" <> target_endpoint_digest sha256 target <> ".service"

  -- remove
  unfoldable pub remove_unit : TargetKey → Dict String → Dict String
  remove_unit target units = remove (unit_name target) units

module _ (sha256 : String → String) (expanduser : String → String)
    (join : List String → String) where
  -- The command line of the tunnel.
  unfoldable pub arguments : TargetKey → String → Bool → Bool → List String
  unfolding forwards
  arguments target identity proxy event =
      "/usr/bin/ssh"
      ∷ "-F"
      ∷ "/dev/null"
      ∷ "-N"
      ∷ "-T"
      ∷ "-o"
      ∷ "BatchMode=yes"
      ∷ "-o"
      ∷ "ControlMaster=no"
      ∷ "-o"
      ∷ "ControlPath=none"
      ∷ "-o"
      ∷ "ExitOnForwardFailure=yes"
      ∷ "-o"
      ∷ "ServerAliveInterval=15"
      ∷ "-o"
      ∷ "ServerAliveCountMax=3"
      ∷ "-i"
      ∷ expanduser identity
      ∷ (forwards proxy event
          ++ ("-p" ∷ decimal target.port ∷ (target.user <> "@" <> target.hostname) ∷ []))

  unfoldable pub unit_text : TargetKey → String → Bool → Bool → String
  unfolding arguments
  unit_text target identity proxy event =
      "[Unit]\nDescription=remote-dev proxy tunnel ("
      <> target_endpoint_digest sha256 target
      <> ")\nAfter=network-online.target\nWants=network-online.target\nCollectMode=inactive-or-failed\nStartLimitIntervalSec=600\nStartLimitBurst=10\n\n[Service]\nType=simple\nExecStart="
      <> join (arguments target identity proxy event)
      <> "\nRestart=on-failure\nRestartSec=5\nNoNewPrivileges=yes\nMemoryMax=32M\nTasksMax=8\n"

  changed : String → Option String → Bool
  changed content none = true
  changed content (some old) = not (old == content)

  -- ensure: the unit file is written first; an `err` is a CalledProcessError
  unfoldable pub ensure :
      Systemd → TargetKey → String → Bool → Bool → Dict String → Result (Unit {0}) × Dict String
  unfolding changed
  ensure a target identity proxy event units =
      let name = unit_name sha256 target in
      let content = unit_text target identity proxy event in
      let wanted = if a.active then changed content (get name units) else true in
      (
        if a.reload && (if wanted then a.activate else true)
            then ok tt
            else err (failed "systemctl"),
        put name content units,
      )
