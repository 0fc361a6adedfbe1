-- ===== src/Setups.antt =====
-- The theorems on the local client, the installation, the units and the viewers at concrete data.
use re_remote_dev.Cli.{apply_inputs, proxy_inputs, validate}
use re_remote_dev.Cli.Install.{
  Done, Installed, Project, Setting, in_place, install_local_orchestrator, local_service_matches,
}
use re_remote_dev.Cli.Installed.{install_again}
use re_remote_dev.Cli.Inventory.{Reads, remote_of, validate-apply_inputs}
use re_remote_dev.Client.{decoded, request}
use re_remote_dev.Client.Responses.{request-response}
use re_remote_dev.Dict.{get}
use re_remote_dev.Json.{Fields, Json, end, field, get_field, null, num, obj, str}
use re_remote_dev.Persistent.{
  Manager, daemon_reload, enable_now, install_unit, install_unit-again, persistent_text,
  reset_failed, session_unit_name, uninstall_unit,
}
use re_remote_dev.Prelude.{
  Bool, List, Option, String, [], arith, concat, false, if◌then◌else◌, length, ltb, map, none, not,
  refl, some, true, ℕ, ◌&&◌, ◌++◌, ◌==◌, ◌||◌, ◌∷◌, ◌≡◌,
}
use re_remote_dev.Prelude.Int.{pos}
use re_remote_dev.Prelude.Text.{mem}
use re_remote_dev.Result.{Result, err, failed, invalid, ok}
use re_remote_dev.Server.Serve.{Recv, bytes}
use re_remote_dev.Tests.{alice}
use re_remote_dev.Tunnel.Orphans.{
  Units, cleanup_orphans, cleanup_orphans-leaves, first_fields, is_proxy_unit,
}
use re_remote_dev.Viewers.{Apps, configured, open_local, open_local-Opens, viewers}

abbrev two_bytes : Fields → List ℕ
two_bytes fields = 123 ∷ 125 ∷ []

abbrev nothing_parsed : List ℕ → Option Json
nothing_parsed seen = some (obj end)

abbrev answering : List ℕ → Result (List Recv)
answering raw = ok (map bytes ((123 ∷ []) ∷ (125 ∷ 10 ∷ []) ∷ []) ++ [])

cut_line : concat ((123 ∷ []) ∷ (125 ∷ 10 ∷ []) ∷ []) ≡ (123 ∷ 125 ∷ []) ++ (10 ∷ [])
unfolding concat
cut_line = refl

request-response_example : request two_bytes nothing_parsed answering end ≡ (
    if ltb 8192 (length {A = ℕ} ((123 ∷ 125 ∷ []) ++ (10 ∷ [])))
    then err (invalid "编排器响应超过 8 KiB")
    else decoded nothing_parsed ((123 ∷ 125 ∷ []) ++ (10 ∷ [])))
request-response_example =
    request-response two_bytes nothing_parsed answering end ((123 ∷ []) ∷ (125 ∷ 10 ∷ []) ∷ [])
      (123 ∷ 125 ∷ []) [] (omega arith) refl tt cut_line refl

abbrev remote_dev : Fields
remote_dev =
    field "schema_version" (num (pos 1))
      (field "target_user" (str "dev") (field "ssh_private_key_file" (str "~/.ssh/id") end))

abbrev inventory : Fields
inventory =
    field "all"
      (obj (
        field "vars" (obj (field "remote_dev" (obj remote_dev) end)) (
          field "children"
            (obj (
              field "remote_dev_targets"
                (obj (
                  field "hosts"
                    (obj (field "one" (obj (field "ansible_host" (str "10.0.0.1") end)) end)) end))
                end))
            end)))
      end

inventory_valid : validate inventory ≡ ok tt
unfolding validate get_field
inventory_valid = refl

validate-apply_inputs_example :
    (remote : Fields) × (remote_of inventory ≡ ok remote)
    × Reads (proxy_inputs remote) (apply_inputs inventory)
validate-apply_inputs_example = validate-apply_inputs inventory inventory_valid

-- Without a proxy table the defaults are read, and an empty one, which YAML makes None, is no mapping.
proxy_defaults :
    proxy_inputs remote_dev
    ≡ ok (record {
      mode = str "auto";
      host = str "127.0.0.1";
      port = pos 4227;
      remote_port_min = pos 40000;
      remote_port_max = pos 60000;
    })
unfolding proxy_inputs get_field
proxy_defaults = refl

proxy_empty : proxy_inputs (field "proxy" null remote_dev) ≡ err (failed "AttributeError")
unfolding proxy_inputs get_field
proxy_empty = refl

abbrev project : Project
project = record {
  executable = true;
  service = "ExecStart=tssh-server";
  socket = "[Socket]";
  hook = "#!/usr/bin/env python3";
  tdl = some "#!/bin/sh";
}

abbrev calm : Setting
calm = record {
  agrees = true;
  ssh_installed = ok tt;
  reload = ok tt;
  enable = ok tt;
  restart_unit = ok tt;
  health = err (failed "refused") ∷ ok true ∷ [];
}

abbrev nothing_installed : Installed
nothing_installed = record {
  service_file = none;
  socket_file = none;
  hook_file = none;
  tdl_file = none;
}

abbrev now_installed : Installed
now_installed = record {
  service_file = some "ExecStart=tssh-server";
  socket_file = some "[Socket]";
  hook_file = some "#!/usr/bin/env python3";
  tdl_file = some "#!/bin/sh";
}

abbrev first_done : Done
first_done = record { asked = true; restarted = true }

installed_well :
    install_local_orchestrator (λ text. text) project calm true nothing_installed
    ≡ (in_place, now_installed, first_done)
unfolding install_local_orchestrator
installed_well = refl

install_again_example :
    (local_service_matches (λ text. text) project now_installed ≡ true)
    × (let second = install_local_orchestrator (λ text. text) project calm true now_installed in
        (second.1 ≡ now_installed) × (second.2.asked ≡ false) × (second.2.restarted ≡ false))
install_again_example =
    install_again (λ text. text) project calm calm true true nothing_installed now_installed
      first_done installed_well

abbrev left_over : Units
left_over = record {
  files = "remote-dev-proxy-ab.service" ∷ "tssh.service" ∷ [];
  disabled = [];
  reloads = 0;
}

abbrev listed : List String
listed = " remote-dev-proxy-cd.service loaded" ∷ "● remote-dev-proxy-ef.service failed" ∷ []

cleanup_orphans-leaves_example :
    (mem "tssh.service" (cleanup_orphans listed left_over).files
      ≡ (mem "tssh.service" left_over.files && not (is_proxy_unit "tssh.service")))
    × (mem "tssh.service" (cleanup_orphans listed left_over).disabled ≡ (
        (is_proxy_unit "tssh.service"
          && (mem "tssh.service" left_over.files || mem "tssh.service" (first_fields listed)))
        || mem "tssh.service" left_over.disabled))
cleanup_orphans-leaves_example = cleanup_orphans-leaves "tssh.service" listed left_over

-- A failed unit is listed after a bullet, and is not found.
cleanup_test : cleanup_orphans listed left_over ≡ record {
  files = "tssh.service" ∷ [];
  disabled = "remote-dev-proxy-cd.service" ∷ "remote-dev-proxy-ab.service" ∷ [];
  reloads = 1;
}
unfolding cleanup_orphans
cleanup_test = refl

abbrev no_apps : Apps
no_apps = record { markdown = ""; pdf = "my-pdf -x"; image = ""; default = "" }

abbrev only_xdg : String → Bool
only_xdg program = program == "xdg-open"

pdf_app :
    configured (λ text. some (text ∷ [])) (viewers no_apps ".pdf").0 ≡ ok (some ("my-pdf -x" ∷ []))
unfolding configured viewers
pdf_app = refl

open_local-Opens_example :
    (command : List String) × (open_local only_xdg
        (λ argv. true)
        (λ text. some (text ∷ []))
        no_apps
        ".pdf"
        "/tmp/a.pdf"
      ≡ ok command)
    × (◌≡◌ {A = Bool} true true)
open_local-Opens_example =
    open_local-Opens only_xdg (λ argv. true) (λ text. some (text ∷ [])) no_apps ".pdf" "/tmp/a.pdf"
      (some ("my-pdf -x" ∷ [])) pdf_app refl refl

abbrev no_units : Manager
no_units = record { units = []; calls = [] }

abbrev joined : List String → String
joined argv = "remote-dev"

abbrev unit_of_alice : String
unit_of_alice = session_unit_name (λ text. text) alice

abbrev once : Manager
once = install_unit (λ text. text) (λ path. path) joined "remote-dev" alice "/id" no_units

abbrev twice : Manager
twice = install_unit (λ text. text) (λ path. path) joined "remote-dev" alice "/id" once

install_unit-again_example :
    (get unit_of_alice twice.units
      ≡ some (persistent_text (λ text. text) (λ path. path) joined "remote-dev" alice "/id"))
    × (twice.calls
        ≡ enable_now unit_of_alice ∷ reset_failed unit_of_alice ∷ daemon_reload ∷ once.calls)
    × ((j : String)
        → get j (uninstall_unit (λ text. text) (λ path. path) joined "remote-dev" alice twice).units
          ≡ (if unit_of_alice == j then none else get j no_units.units))
install_unit-again_example =
    install_unit-again (λ text. text) (λ path. path) joined "remote-dev" alice "/id" no_units
