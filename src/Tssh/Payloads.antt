-- ===== src/Tssh/Payloads.antt =====
-- How the server reads the requests of a tssh session.
use re_remote_dev.Json.{get_field}
use re_remote_dev.Model.{EndpointKey, in_port_range, make_endpoint}
use re_remote_dev.Prelude.{Bool, Option, String, false, leb, none, refl, some, true, ◌≡◌}
use re_remote_dev.Prelude.Text.{is_blank, is_empty, len}
use re_remote_dev.Result.{ok}
use re_remote_dev.Server.Handle.{lease_acquire, lease_heartbeat, op_of}
use re_remote_dev.Server.Parse.{
  endpoint_of, or_raise, parse_candidate, parse_endpoint, parse_session_id, port_of,
}
use re_remote_dev.Tssh.Requests.{Caller, acquire_payload, session_payload}

-- What the server accepts of a session.
pub record IsFit (c : Caller) : Type 0 where
  pub host : is_empty c.hostname ≡ false
  pub host_short : leb (len c.hostname) 253 ≡ true
  pub host_named : is_blank c.hostname ≡ false
  pub port_fits : in_port_range c.port ≡ true
  pub user_there : is_empty c.user ≡ false
  pub user_short : leb (len c.user) 128 ≡ true
  pub id_there : is_empty c.session_id ≡ false
  pub id_short : leb (len c.session_id) 128 ≡ true

abbrev pub endpoint_key : Caller → EndpointKey
endpoint_key c = record { hostname = c.hostname; port = c.port }

pub parse_endpoint-acquire :
    (c : Caller) → IsFit c → parse_endpoint (acquire_payload c) ≡ ok (endpoint_key c)
unfolding parse_endpoint endpoint_of port_of or_raise make_endpoint acquire_payload get_field
parse_endpoint-acquire c h = rw (h.host, h.host_short, h.host_named, h.port_fits) refl

pub parse_candidate-acquire :
    (c : Caller) → IsFit c → parse_candidate (acquire_payload c) ≡ ok (c.user, "")
unfolding parse_candidate acquire_payload get_field or_raise
parse_candidate-acquire c h = go c.identity
  where
    go :
        (o : Option String)
        → parse_candidate (acquire_payload (record c { identity = o })) ≡ ok (c.user, "")
    go none = rw (h.user_there, h.user_short) refl
    go (some file) = rw (h.user_there, h.user_short) refl

pub parse_session_id-acquire :
    (c : Caller) → IsFit c → parse_session_id (acquire_payload c) ≡ ok c.session_id
unfolding parse_session_id acquire_payload get_field or_raise
parse_session_id-acquire c h = rw (h.id_there, h.id_short) refl

pub no_event-acquire : (c : Caller) → get_field "event" (acquire_payload c) ≡ none
unfolding acquire_payload get_field
no_event-acquire c = go c.persistent_run
  where
    go : (b : Bool) → get_field "event" (acquire_payload (record c { persistent_run = b })) ≡ none
    go true = refl
    go false = refl

pub op-acquire : (c : Caller) → op_of (get_field "op" (acquire_payload c)) ≡ lease_acquire
unfolding acquire_payload get_field
op-acquire c = refl

pub parse_endpoint-session :
    (op : String) (c : Caller)
    → IsFit c
    → parse_endpoint (session_payload op c) ≡ ok (endpoint_key c)
unfolding parse_endpoint endpoint_of port_of or_raise make_endpoint session_payload get_field
parse_endpoint-session op c h = rw (h.host, h.host_short, h.host_named, h.port_fits) refl

pub parse_session_id-session :
    (op : String) (c : Caller) → IsFit c → parse_session_id (session_payload op c) ≡ ok c.session_id
unfolding parse_session_id session_payload get_field or_raise
parse_session_id-session op c h = rw (h.id_there, h.id_short) refl

pub no_event-session : (op : String) (c : Caller) → get_field "event" (session_payload op c) ≡ none
unfolding session_payload get_field
no_event-session op c = refl

pub op-heartbeat :
    (c : Caller) → op_of (get_field "op" (session_payload "heartbeat" c)) ≡ lease_heartbeat
unfolding session_payload get_field
op-heartbeat c = refl
