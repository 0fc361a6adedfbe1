-- ===== src/Server.antt =====
-- orchestrator/server.py: the tables of `OrchestratorServer`, what it takes from its surroundings, and
-- the forms of its replies. Times are milliseconds of the monotonic clock.
pub mod Parse
pub mod Joining
pub mod Acquire
pub mod Release
pub mod Lease
pub mod Accounts
pub mod Sound
pub mod Faults
pub mod Remaining
pub mod Table
pub mod Refines
pub mod Sweep
pub mod Lifecycle
pub mod Register
pub mod Preview
pub mod Handle
pub mod Serve
use re_remote_dev.Dict.{Dict}
use re_remote_dev.Health.{FailureClass, classify_failure, retry_delay}
use re_remote_dev.Json.{Fields, Json}
use re_remote_dev.Model.{EndpointKey}
use re_remote_dev.Model.Status.{TargetStatus}
use re_remote_dev.Oauth.{OauthManager}
use re_remote_dev.Prelude.{Bool, List, Option, String, [], if◌then◌else◌, some, true, ℕ, ◌+◌, ◌∷◌}
use re_remote_dev.Prelude.Int.{ℤ}
use re_remote_dev.Protocol.{EventKind}
use re_remote_dev.Result.{Exc, Result, failed, invalid}

pub data LeaseState : Type 0 where
  starting ready degraded : LeaseState

-- One row of `_forward_rows`; both hosts are 127.0.0.1.
pub record ForwardRow : Type 0 where
  pub kind : String
  pub remote_port : ℕ
  pub local_port : ℕ
  pub state : LeaseState
  pub last_error : Option FailureClass

-- A value of `self.endpoints`.
pub record EndpointRecord : Type 0 where
  pub endpoint : EndpointKey
  pub endpoint_digest : String
  pub state : LeaseState
  pub owner : Option String
  pub session_count : ℕ
  pub event_required : Bool
  pub forwards : List ForwardRow
  pub failure_count : ℕ
  pub last_error : Option FailureClass
  pub next_retry : Option ℕ

pub record PreviewContext : Type 0 where
  pub endpoint_digest : String
  pub session_id : String
  pub nonce : String
  pub local_port : ℕ
  pub remote_port : ℕ

-- A value of `self.sessions`.
pub record Session : Type 0 where
  pub endpoint_digest : String
  pub user : String
  pub identity_fingerprint : String
  pub last_seen : ℕ
  pub event_forward : Bool
  pub persistent : Bool
  pub identity_file : Option String
  pub preview : Option PreviewContext

-- What the server takes from elsewhere: the forwarder of orchestrator/endpoint_forward.py with its
-- state `F`, and functions of Python's library. `dump_size` is the number of bytes of
-- `json.dumps(payload, separators=(",", ":"))`, and `py_float` is `float(v)` in milliseconds.
pub record Host (F : Type 0) : Type 0 where
  pub sha256 : String → String
  pub expanduser : String → String
  pub search : String → String → Bool
  pub lower : String → String
  pub repr : Json → String
  pub py_float : Json → Option ℤ
  pub dump_size : Fields → ℕ
  pub start : F → EndpointKey → String → String → Bool → Result (Unit {0}) × F
  pub stop : F → EndpointKey → Option String → Result (Unit {0}) × F

-- `launched_urls` are the URLs that `_open_browser` was called with, newest first.
pub record Server (F : Type 0) : Type 0 where
  pub targets : Dict TargetStatus
  pub endpoints : Dict EndpointRecord
  pub sessions : Dict Session
  pub lease_ttl : ℕ
  pub forwarder : F
  pub identity_files : Dict String
  pub browser_opened : List String
  pub launched_urls : List Json
  pub running : Bool
  pub oauth : OauthManager

-- The JSON objects that `handle` returns.
pub data Reply : Type 0 where
  granted : String → LeaseState → Option String → ℕ → Bool → Reply
  alive : String → ℕ → Reply
  not_released released_only : Reply
  released_last : String → Reply
  released : String → Option String → ℕ → Reply
  cleaned : ℕ → Reply
  previewed : PreviewContext → Reply
  registered : String → Reply
  event_done : EventKind → Reply
  report : List TargetStatus → List (EndpointRecord × Option ℕ × Bool) → Reply
  healthy stopping : Reply
  session_conflict lease_cleared unknown_target : Reply
  protocol_invalid : String → Reply
  refused : String → Reply

-- A request is answered, or an exception leaves `handle`.
pub data Outcome : Type 0 where
  reply : Reply → Outcome
  raised : String → Outcome

-- `except (TypeError, ValueError, KeyError)` of `_handle_lease`
abbrev pub rescue : Exc → Outcome
rescue (invalid detail) = reply (protocol_invalid detail)
rescue (failed detail) = raised detail

forward_row : String → ℕ → ℕ → LeaseState → Option FailureClass → ForwardRow
forward_row kind remote_port local_port state error = record {
  kind = kind;
  remote_port = remote_port;
  local_port = local_port;
  state = state;
  last_error = error;
}

unfoldable pub forward_rows : LeaseState → Option FailureClass → Bool → List ForwardRow
unfolding forward_row
forward_rows state error event_forward =
    forward_row "proxy" 4227 4227 state error
    ∷ (if event_forward then forward_row "event" 4228 4230 state error ∷ [] else [])

-- str(exc)
abbrev pub message : Exc → String
message (invalid text) = text
message (failed text) = text

module _ {F : Type 0} (host : Host F) where
  unfoldable pub mark_forward_failure : ℕ → Exc → EndpointRecord → EndpointRecord
  mark_forward_failure now exc record_ =
      let failures = record_.failure_count + 1 in
      let class = classify_failure host.search host.lower (message exc) in
      record record_ {
        state = degraded;
        failure_count = failures;
        last_error = some class;
        next_retry = some (now + retry_delay failures);
        forwards = forward_rows degraded (some class) true;
      }
