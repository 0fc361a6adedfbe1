-- ===== src/Persistent.antt =====
-- orchestrator/persistent.py: the systemd unit of one managed session. `join` stands for `shlex.join` and
-- `expanduser` for the method of a path;
-- the unit files of a directory are a dict, and the calls of systemctl a list, newest first.
use re_remote_dev.Dict.{Dict, get, get-put, get-put_self, get-remove, put, remove}
use re_remote_dev.Model.{TargetKey, target_digest}
use re_remote_dev.Prelude.{
  Bool, Bool-cases, List, Option, String, [], eq_iff, false, if◌then◌else◌, inl, inr, none, not,
  refl, some, true, ◌==◌, ◌∙◌, ◌∷◌, ◌≡◌,
}
use re_remote_dev.Prelude.Text.{decimal, ◌<>◌}

-- session_unit_name(target)
unfoldable pub session_unit_name : (String → String) → TargetKey → String
session_unit_name sha256 target = "remote-dev-master-" <> target_digest sha256 target <> ".service"

-- unit_text(target, identity), where `executable` is the path of remote-dev
unfoldable pub persistent_text :
    (String → String)
    → (String → String)
    → (List String → String)
    → String
    → TargetKey
    → String
    → String
persistent_text sha256 expanduser join executable target identity =
    "[Unit]\nDescription=remote-dev managed SSH session ("
    <> target_digest sha256 target
    <> ")\nAfter=network-online.target tssh.service\nPartOf=tssh.service\nStartLimitIntervalSec=600\nStartLimitBurst=10\n\n[Service]\nType=simple\nExecStart="
    <> join (
        executable
        ∷ "orchestrator"
        ∷ "connect"
        ∷ target.hostname
        ∷ target.user
        ∷ "--identity"
        ∷ expanduser identity
        ∷ "--port"
        ∷ decimal target.port
        ∷ "--persistent"
        ∷ [])
    <> "\nRestart=on-failure\nRestartSec=30\n\n[Install]\nWantedBy=default.target\n"

pub data Systemctl : Type 0 where
  daemon_reload : Systemctl
  reset_failed enable_now restart_unit disable_now : String → Systemctl

pub record Manager : Type 0 where
  pub units : Dict String
  pub calls : List Systemctl

-- not path.exists() or path.read_text() != content
abbrev pub is_changed : String → Option String → Bool
is_changed content none = true
is_changed content (some text) = not (text == content)

abbrev pub call : Systemctl → Manager → Manager
call c m = record m { calls = c ∷ m.calls }

module _ (sha256 expanduser : String → String) (join : List String → String)
    (executable : String) where
  -- install(target, identity), where every call with check=True succeeds
  unfoldable pub install_unit : TargetKey → String → Manager → Manager
  unfolding persistent_text session_unit_name
  install_unit target identity m =
      let name = session_unit_name sha256 target in
      let content = persistent_text sha256 expanduser join executable target identity in
      let changed = is_changed content (get name m.units) in
      let written : Manager = record m { units = put name content m.units } in
      let enabled =
        call (enable_now name) (call (reset_failed name) (call daemon_reload written)) in
      if changed then call (restart_unit name) enabled else enabled

  -- remove(target)
  unfoldable pub uninstall_unit : TargetKey → Manager → Manager
  unfolding session_unit_name
  uninstall_unit target m =
      let name = session_unit_name sha256 target in
      call daemon_reload (record (call (disable_now name) m) { units = remove name m.units })

  -- An installation right after the same one writes the same file and restarts nothing, and a removal
  -- then takes the target's unit file away and leaves every other one.
  pub install_unit-again :
      (target : TargetKey) (identity : String) (m : Manager)
      → let first = install_unit target identity m in
        let name = session_unit_name sha256 target in
        let second = install_unit target identity first in
        (get name second.units
          ≡ some (persistent_text sha256 expanduser join executable target identity))
        × (second.calls ≡ enable_now name ∷ reset_failed name ∷ daemon_reload ∷ first.calls)
        × ((j : String)
            → get j (uninstall_unit target second).units
              ≡ (if name == j then none else get j m.units))
  unfolding install_unit uninstall_unit
  install_unit-again target identity m = go (is_changed content (get name m.units))
    where
      name : String
      name = session_unit_name sha256 target

      content : String
      content = persistent_text sha256 expanduser join executable target identity

      text_self : (content == content) ≡ true
      text_self = (eq_iff content content).1 refl

      after :
          (j : String)
          → get j (remove name (put name content (put name content m.units)))
            ≡ (if name == j then none else get j m.units)
      after j =
          get-remove name j (put name content (put name content m.units))
          ∙ elim (Bool-cases (name == j)) [
            | inl e ↦ rw e refl
            | inr e ↦
                rw
                  (
                    e,
                    get-put name j content (put name content m.units),
                    get-put name j content m.units,
                    e,
                  )
                  refl
          ]

      go :
          (b : Bool)
          → let written : Manager = record m { units = put name content m.units } in
            let enabled =
              call (enable_now name) (call (reset_failed name) (call daemon_reload written)) in
            let first = if b then call (restart_unit name) enabled else enabled in
            let second = install_unit target identity first in
            (get name second.units ≡ some content)
            × (second.calls ≡ enable_now name ∷ reset_failed name ∷ daemon_reload ∷ first.calls)
            × ((j : String)
                → get j (uninstall_unit target second).units
                  ≡ (if name == j then none else get j m.units))
      go true =
          rw (get-put_self name content m.units, text_self)
            (get-put_self name content (put name content m.units), refl, λ j. after j)
      go false =
          rw (get-put_self name content m.units, text_self)
            (get-put_self name content (put name content m.units), refl, λ j. after j)
