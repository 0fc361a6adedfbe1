-- ===== src/Tests.antt =====
-- The theorems at concrete data: an orchestrator with one endpoint at 10.0.0.1 and tunnels that start.
use re_remote_dev.Dict.{get, remove}
use re_remote_dev.Health.{retry_delay, retry_delay-mono_bounds, seconds}
use re_remote_dev.Json.{Fields, end, field, get_field, null, num, obj, py_int, str}
use re_remote_dev.Model.{EndpointKey, TargetKey}
use re_remote_dev.Oauth.{
  Answers, NoLeak, OauthManager, OauthSession, done, finish, finish-NoLeak, init, oauth_busy, runs,
  start, start-NoLeak, start_again,
}
use re_remote_dev.Prelude.{
  String, [], arith, false, none, refl, some, true, ℕ, ◌+◌, ◌-◌, ◌∷◌, ◌≡◌, ◌≤◌,
}
use re_remote_dev.Prelude.Int.{pos}
use re_remote_dev.Protocol.{
  Event, codex_start, decode_event, encode_event, max_message_bytes, to_dict,
}
use re_remote_dev.Protocol.RoundTrip.{IsEvent, IsLineOf, decode-encode, decode_event-IsEvent}
use re_remote_dev.Result.{ok}
use re_remote_dev.Server.{Host, Server, Session, not_released, protocol_invalid, reply}
use re_remote_dev.Server.Accounts.{leases}
use re_remote_dev.Server.Acquire.{acquire_new}
use re_remote_dev.Server.Faults.{acquire_new-blank_user, counted}
use re_remote_dev.Server.Joining.{new_session}
use re_remote_dev.Server.Parse.{identity_file_of, parse_candidate}
use re_remote_dev.Server.Release.{release}
use re_remote_dev.Server.Remaining.{release_twice}
use re_remote_dev.Server.Sound.{HasNamedUser, Sound}
use re_remote_dev.Oauth

abbrev pub tunnels : Host ℕ
tunnels = record {
  sha256 = λ text. text;
  expanduser = λ path. path;
  search = λ pattern text. false;
  lower = λ text. text;
  repr = λ v. "";
  py_float = py_int;
  dump_size = λ fs. 64;
  start = λ f endpoint user file event. (ok tt, f + 1);
  stop = λ f endpoint user. (ok tt, f - 1);
}

abbrev pub idle : Server ℕ
idle = record {
  targets = [];
  endpoints = [];
  sessions = [];
  lease_ttl = 15000;
  forwarder = 0;
  identity_files = [];
  browser_opened = [];
  launched_urls = [];
  running = true;
  oauth = init;
}

abbrev pub address : EndpointKey
address = record { hostname = "10.0.0.1"; port = 22 }

abbrev pub alice : TargetKey
alice = record { hostname = "10.0.0.1"; port = 22; user = "alice"; identity_fingerprint = "" }

abbrev pub candidate : String → Fields
candidate user = field "user" (str user) (field "identity_file" (str "~/.ssh/id") end)

abbrev pub request : String → String → Fields
request op user = field "op" (str op) (
    field "endpoint" (obj (field "hostname" (str "10.0.0.1") end))
      (field "session_id" (str "s1") (field "candidate" (obj (candidate user)) end)))

abbrev pub answers : Answers
answers = record { port_taken = false; primary = runs 7; ipv6 = runs 8 }

pub named : HasNamedUser (request "acquire" "alice")
unfolding parse_candidate get_field
named user fingerprint h = cc

abbrev pub lease : Session
lease = record {
  endpoint_digest = "10.0.0.1:22|";
  user = "alice";
  identity_fingerprint = "";
  last_seen = 0;
  event_forward = true;
  persistent = false;
  identity_file = none;
  preview = none;
}

abbrev pub leased : Server ℕ
leased = record idle { sessions = ("s1", lease) ∷ [] }

pub leased-get : get "s1" leased.sessions ≡ some lease
unfolding get
leased-get = refl

abbrev after_release : Server ℕ
after_release = (release tunnels 5 address "10.0.0.1:22|" "s1" leased).1

release_twice_example :
    (after_release.sessions ≡ remove "s1" leased.sessions)
    × (release tunnels 6 address "10.0.0.1:22|" "s1" after_release
        ≡ (reply not_released, after_release))
release_twice_example =
    release_twice tunnels 5 6 address "10.0.0.1:22|" "s1" lease leased leased-get refl

abbrev started_event : Event
started_event = record {
  event = codex_start;
  target = "t";
  nonce = "n";
  pid = num (pos 42);
  exit_code = null;
  args_mode = null;
  oauth_url = str "https://auth";
}

started-IsEvent : IsEvent started_event
started-IsEvent = record { target = refl; nonce = refl; pid = refl }

sent : encode_event (λ fs. 64) started_event ≡ ok (to_dict started_event)
unfolding encode_event
sent = refl

decode-encode_example : decode_event 65 (some (obj (to_dict started_event))) ≡ ok started_event
decode-encode_example =
    decode-encode (λ fs. 64) started_event (to_dict started_event) started-IsEvent sent

decode-encode_again : decode_event 65 (some (obj (to_dict started_event))) ≡ ok started_event
unfolding decode_event to_dict get_field
decode-encode_again = refl

decode_event-IsEvent_example :
    IsEvent started_event
    × (65 ≤ max_message_bytes)
    × ((line : Fields) × (some (obj (to_dict started_event)) ≡ some (obj line))
        × IsLineOf started_event line)
decode_event-IsEvent_example =
    decode_event-IsEvent 65 (some (obj (to_dict started_event))) started_event decode-encode_again

abbrev login : OauthSession
login = record {
  target = alice;
  local_port = 1455;
  remote_port = 1455;
  forward = some 7;
  ipv6_forward = some 8;
}

abbrev managed : OauthManager
managed = record init { active = some login; children = 8 ∷ 7 ∷ [] }

start-NoLeak_example : NoLeak (start init alice (some "id") answers).1
start-NoLeak_example = start-NoLeak init alice (some "id") answers refl

finish-NoLeak_example : NoLeak (finish managed (some alice)).1
finish-NoLeak_example = finish-NoLeak managed (some alice) refl

login_starts : (start init alice (some "id") answers).0 ≡ Oauth.done login
unfolding start
login_starts = refl

start_again_example :
    let first = (start init alice (some "id") answers).1 in
    let second = start first alice none answers in
    (second.1 ≡ first) × (finish second.1 (some alice) ≡ (Oauth.done true, init))
start_again_example =
    start_again init alice alice (some "id") none answers answers login refl refl login_starts

retry_delay-mono_bounds_example :
    (seconds 5 ≤ retry_delay 2) × (retry_delay 2 ≤ retry_delay 9) × (retry_delay 9 ≤ seconds 300)
retry_delay-mono_bounds_example = retry_delay-mono_bounds 2 9 (ground arith)

blank_file : identity_file_of (request "acquire" " ") ≡ some "~/.ssh/id"
unfolding identity_file_of get_field
blank_file = refl

nobody : get "s1" idle.sessions ≡ none
unfolding get
nobody = refl

acquire_new-blank_user_example :
    let out = acquire_new tunnels 0 address "d" "s1" " " "" (request "acquire" " ") idle in
    (out.0 ≡ reply (protocol_invalid "user 不能为空"))
    × (get "s1" out.1.sessions ≡ some (new_session "d" " " "" 0 (request "acquire" " ")))
    × (leases "d" out.1.sessions ≡ leases "d" idle.sessions + 1)
    × (counted (get "d" out.1.endpoints) ≡ counted (get "d" idle.endpoints) + 1)
acquire_new-blank_user_example =
    acquire_new-blank_user tunnels 0 address "d" "s1" " " "" "~/.ssh/id" (request "acquire" " ")
      idle refl refl refl blank_file nobody
