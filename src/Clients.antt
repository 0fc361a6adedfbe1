-- ===== src/Clients.antt =====
-- The theorems on the client programs at concrete data.
use re_remote_dev.Dict.{get}
use re_remote_dev.Helper.{at_start, chunk, end_of, exit, fetch}
use re_remote_dev.Helper.Chunks.{at_end, fetch-scan, scan}
use re_remote_dev.Json.{Json, bool, end, field, get_field, obj, str}
use re_remote_dev.Model.{endpoint_digest, make_endpoint}
use re_remote_dev.Prelude.{
  List, Option, String, [], concat, false, length, map, none, not, refl, some, true, ℕ, ◌++◌, ◌<◌,
  ◌==◌, ◌∷◌, ◌≡◌,
}
use re_remote_dev.Proxy.{Attempt, ReverseProxyTunnel, start, stop}
use re_remote_dev.Proxy.Lifetime.{start_stop-processes}
use re_remote_dev.Result.{Result, err, invalid, ok}
use re_remote_dev.Server.Acquire.{acquire, acquire_new}
use re_remote_dev.Server.Handle.{handle, run_op}
use re_remote_dev.Server.Lease.{handle_lease}
use re_remote_dev.Server.Parse.{identity_file_of, parse_candidate, parse_endpoint, parse_session_id}
use re_remote_dev.Server.Release.{heartbeat}
use re_remote_dev.Server.Sweep.{expire_sessions, reconcile_endpoints}
use re_remote_dev.Server.Table.{held}
use re_remote_dev.Tests.{answers, idle, tunnels}
use re_remote_dev.Tssh.{exits, stays}
use re_remote_dev.Tssh.Ending.{Between, main-lets_go}
use re_remote_dev.Tssh.Keeping.{heartbeat_turn-held}
use re_remote_dev.Tssh.Main.{Args, Course, Local, main}
use re_remote_dev.Tssh.Payloads.{IsFit, endpoint_key}
use re_remote_dev.Tssh.Requests.{
  Caller, Link, Said, Wire, acquire_payload, ask_server, heartbeat_turn, said, served,
  session_payload,
}
use re_remote_dev.Upload.{Connection, Files, exited, expand_upload_sources, put_files, sftp_quote}
use re_remote_dev.Upload.Quoting.{unquote, unquote-sftp_quote}
use re_remote_dev.Upload.Sources.{
  Distinct, expand-Distinct, locals_of, put_files-masters, remotes_of,
}

-- The helper: a JSON reader for which every line is the same final message.
abbrev finals : List ℕ → Option Json
finals line = some (
    obj (field "ok" (bool true) (field "event" (str "complete") (field "state" (str "READY") end))))

fetch-scan_example :
    fetch finals (some (map chunk ((123 ∷ []) ∷ (10 ∷ 123 ∷ []) ∷ [])))
    ≡ end_of (at_end finals (scan finals at_start [] (concat ((123 ∷ []) ∷ (10 ∷ 123 ∷ []) ∷ []))))
fetch-scan_example = fetch-scan finals ((123 ∷ []) ∷ (10 ∷ 123 ∷ []) ∷ []) tt

fetch_test : fetch finals (some (map chunk ((123 ∷ []) ∷ (10 ∷ 123 ∷ []) ∷ []))) ≡ exit 0
unfolding fetch get_field
fetch_test = refl

abbrev caller : Caller
caller = record {
  hostname = "10.0.0.1";
  port = 22;
  user = "alice";
  identity = none;
  session_id = "s1";
  persistent_run = true;
}

caller-IsFit : IsFit caller
caller-IsFit = record {
  host = refl;
  host_short = refl;
  host_named = refl;
  port_fits = refl;
  user_there = refl;
  user_short = refl;
  id_there = refl;
  id_short = refl;
}

-- The server lost its leases: the heartbeat is refused, and the session acquires again.
abbrev links : List Link
links = served 4 ∷ served 5 ∷ []

abbrev granted_again : Said
granted_again = record { fine = true; error = none; degraded = false }

abbrev turned : Result Said × Wire ℕ
turned = heartbeat_turn (ask_server tunnels answers) caller (links, idle)

turned_well : turned ≡ (ok granted_again, turned.1)
unfolding heartbeat_turn said handle ask_server acquire_payload session_payload expire_sessions
    get_field run_op handle_lease parse_endpoint make_endpoint parse_session_id heartbeat get
    reconcile_endpoints acquire parse_candidate acquire_new identity_file_of
turned_well = refl

heartbeat_turn-held_example :
    held turned.1.1 "s1" ≡ some (endpoint_digest tunnels.sha256 (endpoint_key caller))
heartbeat_turn-held_example =
    heartbeat_turn-held tunnels answers caller caller-IsFit (links, idle) granted_again turned.1.0
      turned.1.1 turned_well refl

abbrev nothing_held : Local
nothing_held = record {
  asked = [];
  children = [];
  beating = false;
  bridge_open = false;
  downloads_open = false;
  ran = [];
}

abbrev course : Course
course = record {
  acquired = ok granted_again;
  prepared = ok tt;
  bridge = ok ("d", "n", 5000);
  tries = exits 3 ∷ stays 77 4 ∷ [];
  has_agent = true;
  finished = ok 0;
  outlives = true;
}

abbrev args : Args
args = record { destination = "alice@10.0.0.1"; ssh_args = [] }

abbrev interactive_caller : Caller
interactive_caller = record caller { persistent_run = false }

main-lets_go_example :
    let t = (main (λ text. text) interactive_caller args course nothing_held).1 in
    (t.children ≡ [])
    × Between
        (λ text. text)
        interactive_caller
        args
        course
        (ok ("d", "n", 5000))
        (acquire_payload interactive_caller ∷ [])
        t.asked
main-lets_go_example = main-lets_go (λ text. text) interactive_caller args course nothing_held refl

unquote-sftp_quote_example :
    unquote (sftp_quote (97 ∷ 34 ∷ 92 ∷ []) ++ (32 ∷ [])) ≡ some (97 ∷ 34 ∷ 92 ∷ [], 32 ∷ [])
unquote-sftp_quote_example = unquote-sftp_quote (97 ∷ 34 ∷ 92 ∷ []) (32 ∷ [])

-- A directory with two files, one of which is named again.
abbrev files : Files
files = record {
  expanduser = λ path. path;
  has_magic = λ path. false;
  glob = λ path. [];
  is_dir = λ path. path == "d";
  is_file = λ path. not (path == "d");
  resolve = λ path. path;
  rglob = λ path. "d/a" ∷ "d/b" ∷ [];
  relative = λ base path. path;
  name = λ path. path;
}

abbrev uploads : List (String × String)
uploads = ("d/a", "d/a") ∷ ("d/b", "d/b") ∷ ("c", "c") ∷ []

expanded : expand_upload_sources files true ("d" ∷ "d/a" ∷ "c" ∷ []) ≡ ok uploads
unfolding expand_upload_sources
expanded = refl

expand-Distinct_example :
    Distinct (locals_of uploads) × Distinct (remotes_of uploads) × (0 < length uploads)
expand-Distinct_example = expand-Distinct files true ("d" ∷ "d/a" ∷ "c" ∷ []) uploads expanded

abbrev connection : Connection
connection = record {
  hostname = "10.0.0.1";
  port = 22;
  user = "alice";
  identity_file = none;
  control_path = some "/run/cm";
}

abbrev lost_root : Connection → Result String
lost_root c = err (invalid "no route")

abbrev put_nothing : Connection → String → String × String → Result String
put_nothing c base item = ok base

put_files-masters_example :
    (put_files lost_root put_nothing (exited 0) true connection uploads ("/run/other" ∷ [])).1
    ≡ "/run/other" ∷ []
put_files-masters_example =
    put_files-masters lost_root put_nothing (exited 0) true connection ("d/a", "d/a")
      (("d/b", "d/b") ∷ ("c", "c") ∷ []) ("/run/other" ∷ []) refl

abbrev tunnel : ReverseProxyTunnel
tunnel = record {
  settings = record {
    mode = "auto";
    host = "127.0.0.1";
    port = 4227;
    remote_port_min = 40000;
    remote_port_max = 60000;
  };
  destination = "alice@10.0.0.1";
  identity_file = none;
  auth_password = none;
  ssh_bin = "ssh";
  remote_port = 40001;
  ssh_extra_args = [];
  process = none;
}

abbrev attempt : Attempt
attempt = record { available = true; pid = ok 9; ends = none }

start_stop-processes_example :
    let after = start tunnel attempt (7 ∷ []) in stop after.1 after.2 ≡ 7 ∷ []
start_stop-processes_example = start_stop-processes tunnel attempt (7 ∷ []) refl refl
