-- ===== src/Runs.antt =====
-- The theorems on managed sessions, tunnels, downloads, settings and the preview bridge at concrete data.
use re_remote_dev.Bridge.{
  Context, PreviewRequest, admit, admit-authorised, is_authorised, max_request_bytes,
}
use re_remote_dev.Dict.{Dict, get}
use re_remote_dev.Download.{Disk, Job, failed_job, no_viewer, queued, run, submit}
use re_remote_dev.Download.Again.{run_again, submit_again}
use re_remote_dev.Json.{Fields, end, field, get_field, obj, str}
use re_remote_dev.Managed.{
  ManagedSession, StartAnswers, StopAnswers, World, clear_nonce, fails, raises, start, stop,
  stop_master, succeeds, write_nonce,
}
use re_remote_dev.Managed.Children.{Accounted, start-Accounted}
use re_remote_dev.Managed.Serve.{Supervision, Turn, forwarding_ok, gone, inconclusive, serve, turn}
use re_remote_dev.Managed.Supervised.{
  IsSupervised, serve-children, turn-IsSupervised, turn_inconclusive,
}
use re_remote_dev.Model.{EndpointKey, TargetKey, endpoint_digest, make_target}
use re_remote_dev.Oauth.{Launch}
use re_remote_dev.Prelude.{
  Bool, List, String, [], all, arith, false, inl, none, refl, some, true, ◌*◌, ◌<◌, ◌∷◌, ◌≡◌, ◌≤◌,
  ◌⊎◌,
}
use re_remote_dev.Prelude.Int.{pos}
use re_remote_dev.Prelude.Text.{codes, decimal, len, take_text}
use re_remote_dev.Result.{err, invalid, ok}
use re_remote_dev.Server.Lifecycle.{member}
use re_remote_dev.Transfer.{is_special, safe_component}
use re_remote_dev.Transfer.Names.{is_safe, safe_component-inside}
use re_remote_dev.Tunnel.{TunnelAnswers, Tunnels, confirmed}
use re_remote_dev.Tunnel.Removal.{endpoint_unit, start_stop, start_stop_stale}
use re_remote_dev.Tunnel.Unit.{free, printed, probe_of, unit_text}
use re_remote_dev.Managed
use re_remote_dev.Tunnel
use re_remote_dev.Download

abbrev bob : TargetKey
bob = record { hostname = "10.0.0.2"; port = 22; user = "bob"; identity_fingerprint = "" }

abbrev box : EndpointKey
box = record { hostname = "10.0.0.2"; port = 22 }

abbrev no_event : Managed.StartAnswers
no_event = record {
  check = ok false;
  ensure = Managed.succeeds;
  nonce = "n";
  proxy = Launch.runs 11;
  event = Launch.exited;
  write_nonce = Managed.succeeds;
  response = ok none;
  stop_master = Managed.succeeds;
  clear_nonce = Managed.succeeds;
}

abbrev bare : Managed.World
bare = record { children = []; master = false; remote_nonce = none }

start-Accounted_example : Accounted (Managed.start no_event bob "id" bare)
start-Accounted_example = start-Accounted no_event bob "id" bare refl

abbrev held : Managed.ManagedSession
held = record {
  target = bob;
  nonce = "n";
  identity_file = some "id";
  proxy_forward = some 11;
  event_forward = some 12;
}

abbrev busy : Managed.World
busy = record { children = 12 ∷ 11 ∷ []; master = true; remote_nonce = some "n" }

abbrev bad_turn : Turn
bad_turn = record {
  now = 0;
  probe = gone;
  proxy_runs = true;
  event_runs = true;
  stop_master = Managed.fails "";
  restart = no_event;
}

abbrev slow_turn : Turn
slow_turn = record bad_turn { probe = inconclusive }

abbrev at_exit : Managed.StopAnswers
at_exit = record {
  unregister = ok tt;
  clear_nonce = Managed.fails "";
  stop_master = Managed.raises "timeout";
}

serve-children_example :
    (serve (bad_turn ∷ bad_turn ∷ bad_turn ∷ slow_turn ∷ []) at_exit held busy).children ≡ []
serve-children_example =
    serve-children (bad_turn ∷ bad_turn ∷ bad_turn ∷ slow_turn ∷ []) at_exit held busy refl

abbrev watching : Supervision
watching = record {
  session = held;
  failures = 2;
  backoff = 5000;
  next_heartbeat = 0;
  slept = 0;
  heartbeats = [];
  world = busy;
}

both_run : forwarding_ok slow_turn held ≡ true
unfolding forwarding_ok
both_run = refl

turn_inconclusive_example :
    let out = turn slow_turn watching in
    (out.1.session ≡ held) × (out.1.world ≡ busy) × (out.1.failures ≡ 2)
turn_inconclusive_example = turn_inconclusive slow_turn watching refl both_run (omega arith)

turn-IsSupervised_example : IsSupervised (turn bad_turn watching).1
turn-IsSupervised_example =
    turn-IsSupervised bad_turn watching (record { held = inl refl; bounded = ground arith })

abbrev joined : List String → String
joined args = ""

abbrev never : String → String → Bool
never part text = false

abbrev no_tunnels : Tunnel.Tunnels
no_tunnels = record { external = []; event_only = []; units = [] }

abbrev healthy_port : Tunnel.TunnelAnswers
healthy_port = record {
  active = false;
  probe = printed (some "HEALTHY");
  systemd = record { active = false; reload = true; activate = true };
  polls = (true, true) ∷ [];
  detail = "";
}

bob-made : make_target "10.0.0.2" (pos 22) "bob" "" ≡ ok bob
unfolding make_target
bob-made = refl

start_stop_example :
    get
      (endpoint_unit (λ text. text) box)
      (Tunnel.stop
        (λ text. text)
        box
        (some "bob")
        (Tunnel.start
          (λ text. text)
          (λ path. path)
          joined
          never
          healthy_port
          box
          "bob"
          "id"
          true
          no_tunnels).1).1.units
    ≡ none
start_stop_example =
    start_stop (λ text. text) (λ path. path) joined never healthy_port box "bob" "id" (some "bob")
      bob no_tunnels bob-made (inl refl)

abbrev stale : Tunnel.Tunnels
stale = record no_tunnels { external = endpoint_digest (λ text. text) box ∷ [] }

abbrev free_port : Tunnel.TunnelAnswers
free_port = record healthy_port { probe = printed (some "FREE") }

found_free : probe_of free_port.probe ≡ free
unfolding probe_of
found_free = refl

stays_up : Tunnel.confirmed free_port.polls ≡ true
unfolding Tunnel.confirmed
stays_up = refl

marked : member (endpoint_digest (λ text. text) box) stale.external ≡ true
unfolding endpoint_digest re_remote_dev.Prelude.Text.take_text re_remote_dev.Prelude.Text.decimal
marked = refl

start_stop_stale_example :
    let out =
      Tunnel.start (λ text. text) (λ path. path) joined never free_port box "bob" "id" true stale in
    (out.0 ≡ ok tt)
    × (get (endpoint_unit (λ text. text) box) (Tunnel.stop (λ text. text) box none out.1).1.units
        ≡ some (unit_text (λ text. text) (λ path. path) joined bob "id" true true))
start_stop_stale_example =
    start_stop_stale (λ text. text) (λ path. path) joined never free_port box "bob" "id" none bob
      stale bob-made marked refl refl found_free refl refl stays_up

safe_component-inside_example :
    (all is_safe (codes (safe_component "..")) ≡ true)
    × (is_special (codes (safe_component "..")) ≡ false)
    × (len (safe_component "..") ≤ 240)
safe_component-inside_example = safe_component-inside ".."

abbrev asked : Download.Job
asked = record {
  request_id = "r1";
  remote_path = "/a.md";
  local_path = "/home/a.md";
  operation = "open";
  state = Download.queued;
  error = none;
  bytes_total = 0;
  bytes_done = 0;
}

abbrev empty_disk : Download.Disk
empty_disk = record { files = []; sidecars = []; partials = []; partial_sidecars = [] }

abbrev complete : Download.Answers
complete = record {
  stat = ok (3, 7);
  partial = some "abc";
  transferred = ok tt;
  viewer = Download.no_viewer "";
}

abbrev broken_link : Download.Answers
broken_link = record complete { partial = none; transferred = err (invalid "") }

run_again_example :
    let out = Download.run (λ text. "x") "d" (λ path. path) complete asked empty_disk in
    (out.0.state ≡ Download.failed_job)
    ⊎ ((Download.run (λ text. "x") "d" (λ path. path) broken_link asked out.1).1 ≡ out.1)
run_again_example =
    run_again (λ text. "x") "d" (λ path. path) complete broken_link asked asked 3 7 empty_disk
      (λ content. refl) refl refl refl refl

abbrev no_jobs : Dict Download.Job
no_jobs = []

nothing_queued : get "/a" no_jobs ≡ none
unfolding get
nothing_queued = refl

submit_again_example :
    let first = Download.submit (λ path. path) "r1" "/a" "get" no_jobs in
    Download.submit (λ path. path) "r2" "/a" "open" first.1 ≡ first
submit_again_example =
    submit_again (λ path. path) "r1" "r2" "/a" "get" "open" no_jobs nothing_queued

abbrev context : Context
context = record {
  endpoint_digest = "d";
  session_id = "s";
  nonce = "n";
  local_port = 9000;
  remote_port = 9000;
}

abbrev sent_request : Fields
sent_request = field "operation" (str "get") (
    field "remote_path" (str "/a") (
      field "endpoint_digest" (str "d")
        (field "session_id" (str "s") (field "nonce" (str "n") end))))

abbrev admitted : PreviewRequest
admitted = record {
  operation = "get";
  remote_path = "/a";
  endpoint_digest = "d";
  session_id = "s";
  nonce = "n";
  request_id = "id";
}

admitted-eq : admit context len "id" 99 (some (obj sent_request)) ≡ ok admitted
unfolding admit get_field is_authorised
admitted-eq = refl

admit-authorised_example :
    (admitted.endpoint_digest ≡ context.endpoint_digest)
    × (admitted.session_id ≡ context.session_id)
    × (admitted.nonce ≡ context.nonce)
    × (99 ≤ max_request_bytes)
    × ((admitted.operation ≡ "get") ⊎ (admitted.operation ≡ "open"))
admit-authorised_example =
    admit-authorised context len "id" 99 (some (obj sent_request)) admitted admitted-eq
