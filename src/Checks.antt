-- ===== src/Checks.antt =====
-- The theorems on the serving loop and on its clients at concrete data.
use re_remote_dev.Json.{Json, arr, end, field, get_field, nil, obj, str}
use re_remote_dev.Model.{endpoint_digest}
use re_remote_dev.Prelude.{
  List, Option, [], arith, concat, length, map, none, refl, some, true, ℕ, ◌++◌, ◌∷◌, ◌≡◌, ◌≤◌,
}
use re_remote_dev.Server.Handle.{handle}
use re_remote_dev.Server.Lease.{op_acquire, run_lease}
use re_remote_dev.Server.Parse.{parse_candidate}
use re_remote_dev.Server.Refines.{run_lease-refines}
use re_remote_dev.Server.Serve.{
  Conn, Round, abandoned, bytes, delivered, got, max_request_bytes, read, serve, serve_conn,
  timed_out,
}
use re_remote_dev.Server.Serve.Crashes.{IsCrashed, serve-collection}
use re_remote_dev.Server.Serve.Reading.{IsBounded, no_newline, read-IsBounded, read-line}
use re_remote_dev.Server.Serve.Requests.{
  IsOver, IsShutdown, in_chunks, serve-shutdown, serve_conn-line, serve_conn-stalled,
}
use re_remote_dev.Server.Sound.{Sound}
use re_remote_dev.Server.Sweep.{swept}
use re_remote_dev.Server.Table.{held, is_ok, table_step}
use re_remote_dev.Tests.{address, answers, idle, leased, request, tunnels}

run_lease-refines_example :
    held (run_lease tunnels op_acquire 3 address "s2" (request "acquire" "alice") leased).1 "s2"
    ≡ table_step op_acquire
        (is_ok (parse_candidate (request "acquire" "alice")))
        (endpoint_digest tunnels.sha256 address)
        "s2"
        (held leased)
        "s2"
run_lease-refines_example =
    run_lease-refines tunnels op_acquire 3 address "s2" (request "acquire" "alice") leased "s2"

-- A JSON reader for which every text but the empty one is the same acquire.
abbrev acquires : List ℕ → Option Json
acquires [] = none
acquires (c ∷ cs) = some (obj (request "acquire" "alice"))

abbrev chunks : List (List ℕ)
chunks = (123 ∷ []) ∷ (125 ∷ 10 ∷ []) ∷ []

abbrev line : List ℕ
line = 123 ∷ 125 ∷ []

abbrev asking : Conn
asking = record { stream = in_chunks chunks []; answers = answers; at = 4; sending = delivered }

chunks-line : concat chunks ≡ line ++ (10 ∷ [])
unfolding concat
chunks-line = refl

read-line_example : read [] (map bytes chunks ++ []) ≡ got (line ++ (10 ∷ []))
read-line_example = read-line chunks line [] tt chunks-line refl (omega arith)

read-IsBounded_example : IsBounded (read [] (in_chunks chunks (timed_out ∷ [])))
read-IsBounded_example = read-IsBounded (in_chunks chunks (timed_out ∷ [])) refl

serve_conn-line_example :
    serve_conn tunnels acquires (some asking) idle
    ≡ swept (handle tunnels 4 answers (request "acquire" "alice") idle)
serve_conn-line_example =
    serve_conn-line tunnels acquires chunks line [] (request "acquire" "alice") answers 4 delivered
      idle tt chunks-line refl (omega arith) refl tt

abbrev half : List (List ℕ)
half = (123 ∷ []) ∷ []

half-no_newline : no_newline (concat half) ≡ true
unfolding concat
half-no_newline = refl

half-small : length (concat half) ≤ max_request_bytes
unfolding concat
half-small = omega arith

abbrev stalling : Conn
stalling = record {
  stream = in_chunks half (timed_out ∷ []);
  answers = answers;
  at = 4;
  sending = abandoned;
}

serve_conn-stalled_example : serve_conn tunnels acquires (some stalling) leased ≡ (none, leased)
serve_conn-stalled_example =
    serve_conn-stalled tunnels acquires half [] answers 4 abandoned leased refl tt half-no_newline
      half-small tt

abbrev rounds : List Round
rounds = record { now = 3; accepted = none ∷ some stalling ∷ some asking ∷ [] } ∷ []

abbrev shutdowns : List ℕ → Option Json
shutdowns seen = some (obj (field "op" (str "shutdown") end))

is_shutdown : IsShutdown (field "op" (str "shutdown") end)
unfolding get_field
is_shutdown = (refl, refl)

asked : read [] asking.stream ≡ got (line ++ (10 ∷ []))
asked = read-line chunks line [] tt chunks-line refl (omega arith)

serve-shutdown_example : IsOver tunnels shutdowns (
    serve tunnels shutdowns
      (record { now = 3; accepted = (none ∷ []) ++ (some asking ∷ []) } ∷ rounds)
      leased)
serve-shutdown_example =
    serve-shutdown tunnels shutdowns 3 (none ∷ []) asking rounds (field "op" (str "shutdown") end)
      (line ++ (10 ∷ [])) leased asked refl is_shutdown tt

-- A JSON reader for which every text but the empty one is an object whose op is an empty list.
abbrev collects : List ℕ → Option Json
collects [] = none
collects (c ∷ cs) = some (obj (field "op" (arr nil) end))

op_there : get_field "op" (field "op" (arr nil) end) ≡ some (arr nil)
unfolding get_field
op_there = refl

no_event_there : get_field "event" (field "op" (arr nil) end) ≡ none
unfolding get_field
no_event_there = refl

serve-collection_example : IsCrashed tunnels collects (
    serve tunnels collects
      (record { now = 3; accepted = none ∷ some asking ∷ none ∷ [] } ∷ [])
      leased)
serve-collection_example =
    serve-collection tunnels collects 3 (none ∷ []) (none ∷ []) asking [] (field "op" (arr nil) end)
      (arr nil) (line ++ (10 ∷ [])) leased refl read-line_example refl no_event_there op_there tt
