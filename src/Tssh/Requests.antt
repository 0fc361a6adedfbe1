-- ===== src/Tssh/Requests.antt =====
-- The requests of a tssh session, its heartbeat and its main sequence.
use re_remote_dev.Json.{Fields, Json, bool, end, field, num, obj, str}
use re_remote_dev.Oauth.{Answers}
use re_remote_dev.Prelude.{
  Bool, List, Option, String, [], false, if◌then◌else◌, none, not, on_some, some, true, ℕ, ◌==◌,
  ◌||◌, ◌∷◌,
}
use re_remote_dev.Prelude.Int.{pos}
use re_remote_dev.Result.{Result, err, failed, ok}
use re_remote_dev.Server.{
  Host, LeaseState, Outcome, Reply, Server, granted, lease_cleared, protocol_invalid, raised,
  refused, reply, session_conflict, unknown_target,
}
use re_remote_dev.Server.Handle.{handle}

-- What the session knows when it starts.
pub record Caller : Type 0 where
  pub hostname : String
  pub port : ℕ
  pub user : String
  pub identity : Option String
  pub session_id : String
  pub persistent_run : Bool

abbrev pub endpoint_json : Caller → Json
endpoint_json c = obj (field "hostname" (str c.hostname) (field "port" (num (pos c.port)) end))

abbrev pub candidate_json : Caller → Json
candidate_json c = obj (
    field "user" (str c.user)
      (elim c.identity [ none ↦ end | some file ↦ field "identity_file" (str file) end ]))

-- {"op": "acquire", ...}, with the two fields of a persistent run
unfoldable pub acquire_payload : Caller → Fields
acquire_payload c = field "op" (str "acquire") (
    field "endpoint" (endpoint_json c) (
      field "candidate" (candidate_json c) (
        field "session_id" (str c.session_id) (
          if c.persistent_run
          then field "event_forward" (bool false) (field "persistent" (bool true) end)
          else end))))

-- {"op": op, "endpoint": endpoint, "session_id": session_id}
unfoldable pub session_payload : String → Caller → Fields
session_payload op c =
    field "op" (str op)
      (field "endpoint" (endpoint_json c) (field "session_id" (str c.session_id) end))

-- What the client reads of a response: `ok`, `error` and `state`.
pub record Said : Type 0 where
  pub fine : Bool
  pub error : Option String
  pub degraded : Bool

abbrev pub refusal : String → Said
refusal error = record { fine = false; error = some error; degraded = false }

abbrev pub accepted : Said
accepted = record { fine = true; error = none; degraded = false }

abbrev pub is_degraded : LeaseState → Bool
is_degraded LeaseState.degraded = true
is_degraded _ = false

-- The two keys, and the state, of each reply of the server.
unfoldable pub said : Reply → Said
said (granted at state owner held reused) = record {
  fine = true;
  error = none;
  degraded = is_degraded state;
}
said session_conflict = refusal "SESSION_CONFLICT"
said lease_cleared = refusal "LEASE_CLEARED"
said (protocol_invalid detail) = refusal "PROTOCOL_INVALID"
said unknown_target = refusal "TARGET_NOT_FOUND"
said (refused error) = refusal error
said _ = accepted

-- response.get("error") == "LEASE_CLEARED" or not response.get("ok")
abbrev pub wants_acquire : Said → Bool
wants_acquire r = on_some false (λ e. e == "LEASE_CLEARED") r.error || not r.fine

-- `W` is what requests change; `ask` is `_request`, whose exceptions are those that the callers catch.
module _ {W : Type 0} (ask : Fields → W → Result Said × W) where
  -- The second try of a heartbeat turn, after an exception.
  unfoldable pub after_retry : Caller → Result Said × W → Result Said × W
  after_retry c (ok r, w) = (ok r, w)
  after_retry c (err e, w) = ask (acquire_payload c) w

  -- The turn after the heartbeat's response, or after its exception.
  unfoldable pub after_beat : Caller → Result Said × W → Result Said × W
  unfolding after_retry
  after_beat c (ok r, w) =
      if wants_acquire r then after_retry c (ask (acquire_payload c) w) else (ok r, w)
  after_beat c (err e, w) = ask (acquire_payload c) w

  -- One turn of `heartbeat`, with the last response.
  unfoldable pub heartbeat_turn : Caller → W → Result Said × W
  unfolding after_beat
  heartbeat_turn c w = after_beat c (ask (session_payload "heartbeat" c) w)

-- What becomes of a request on its way: it is answered, its answer is lost, or it never arrives.
pub data Link : Type 0 where
  served : ℕ → Link
  lost : ℕ → Link
  down : Link

-- What requests change: the links that are to come, and the server.
abbrev pub Wire : Type 0 → Type 0
Wire F = List Link × Server F

abbrev pub heard : {F : Type 0} → List Link → Outcome × Server F → Result Said × Wire F
heard links (reply r, s) = (ok (said r), (links, s))
heard links (raised e, s) = (err (failed e), (links, s))

-- `_request` of a running server.
unfoldable pub ask_server : {F : Type 0} → Host F → Answers → Fields → Wire F → Result Said × Wire F
ask_server host answers payload ([], s) = (err (failed "refused"), ([], s))
ask_server host answers payload (served now ∷ links, s) =
    heard links (handle host now answers payload s)
ask_server host answers payload (lost now ∷ links, s) =
    (err (failed "timed out"), (links, (handle host now answers payload s).1))
ask_server host answers payload (down ∷ links, s) = (err (failed "refused"), (links, s))
