-- ===== src/Model/Status.antt =====
-- The lifecycle states and the status records of orchestrator/model.py. Times are milliseconds.
use re_remote_dev.Model.{TargetKey}
use re_remote_dev.Prelude.{Bool, Option, String, none, ℕ}
use re_remote_dev.Prelude.Int.{ℤ}

pub data MasterState : Type 0 where
  absent master_starting ready codex_running oauth_pending authenticated degraded failed :
      MasterState

pub data OauthState : Type 0 where
  none_yet pending authenticated failed : OauthState

pub data ForwardState : Type 0 where
  absent starting ready degraded stopping failed : ForwardState

pub record ForwardStatus : Type 0 where
  pub kind : String
  pub state : ForwardState
  pub pid : Option ℤ
  pub local_port : Option ℤ
  pub remote_port : Option ℤ
  pub last_error : Option String
  pub last_success : Option ℤ

-- ForwardStatus(kind)
abbrev pub new_forward_status : String → ForwardStatus
new_forward_status kind = record {
  kind = kind;
  state = ForwardState.absent;
  pid = none;
  local_port = none;
  remote_port = none;
  last_error = none;
  last_success = none;
}

pub record TargetStatus : Type 0 where
  pub target : TargetKey
  pub master : MasterState
  pub oauth : OauthState
  pub control_path : Option String
  pub proxy_available : Bool
  pub session_count : ℕ
  pub proxy_forward : ForwardStatus
  pub event_forward : ForwardStatus
  pub oauth_forward : ForwardStatus
