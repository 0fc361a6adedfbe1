-- ===== src/Server/Lease.antt =====
-- `_handle_lease` of orchestrator/server.py.
use re_remote_dev.Json.{Fields}
use re_remote_dev.Model.{EndpointKey, endpoint_digest}
use re_remote_dev.Prelude.{String, ℕ}
use re_remote_dev.Result.{Result, err, ok}
use re_remote_dev.Server.{Host, Outcome, Server, rescue}
use re_remote_dev.Server.Acquire.{acquire}
use re_remote_dev.Server.Parse.{parse_endpoint, parse_session_id}
use re_remote_dev.Server.Release.{heartbeat, release}

pub data LeaseOp : Type 0 where
  op_acquire op_heartbeat op_release : LeaseOp

module _ {F : Type 0} (host : Host F) where
  unfoldable pub run_lease :
      LeaseOp → ℕ → EndpointKey → String → Fields → Server F → Outcome × Server F
  run_lease op_acquire now endpoint session_id payload s =
      acquire host now endpoint (endpoint_digest host.sha256 endpoint) session_id payload s
  run_lease op_heartbeat now endpoint session_id payload s =
      heartbeat now (endpoint_digest host.sha256 endpoint) session_id s
  run_lease op_release now endpoint session_id payload s =
      release host now endpoint (endpoint_digest host.sha256 endpoint) session_id s

  unfoldable pub lease_parsed :
      LeaseOp → ℕ → Fields → Server F → Result EndpointKey → Result String → Outcome × Server F
  unfolding run_lease
  lease_parsed op now payload s (err exc) session_id = (rescue exc, s)
  lease_parsed op now payload s (ok endpoint) (err exc) = (rescue exc, s)
  lease_parsed op now payload s (ok endpoint) (ok session_id) =
      run_lease op now endpoint session_id payload s

  unfoldable pub handle_lease : LeaseOp → ℕ → Fields → Server F → Outcome × Server F
  unfolding lease_parsed
  handle_lease op now payload s =
      lease_parsed op now payload s (parse_endpoint payload) (parse_session_id payload)
