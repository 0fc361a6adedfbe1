-- ===== src/Server/Parse.antt =====
-- The parts of a lease request: `_parse_endpoint`, `_parse_candidate` and the session id.
use re_remote_dev.Json.{Fields, Json, bool, get_field, obj, py_int, short_text, str}
use re_remote_dev.Model.{EndpointKey, make_endpoint}
use re_remote_dev.Prelude.{Option, String, if◌then◌else◌, leb, none, some}
use re_remote_dev.Prelude.Int.{pos, ℤ}
use re_remote_dev.Prelude.Text.{is_empty, len}
use re_remote_dev.Result.{Result, err, invalid, ok, ◌>>=◌}

-- value.get("hostname", value.get("host"))
abbrev pub hostname_of : Fields → Option Json
hostname_of fs = elim (get_field "hostname" fs) [ none ↦ get_field "host" fs | some v ↦ some v ]

-- value.get("port", 22), refused if it is a Boolean, and then int(port)
unfoldable pub port_of : Option Json → Result ℤ
port_of none = ok (pos 22)
port_of (some (bool b)) = err (invalid "endpoint.port 无效")
port_of (some v) = elim (py_int v) [ none ↦ err (invalid "int") | some n ↦ ok n ]

unfoldable pub or_raise : {A : Type 0} → String → Option A → Result A
or_raise text none = err (invalid text)
or_raise text (some a) = ok a

unfoldable pub endpoint_of : Option Json → Result EndpointKey
unfolding port_of or_raise
endpoint_of (some (obj value)) = do
  hostname ← or_raise "endpoint.hostname 无效" (short_text 253 (hostname_of value))
  port ← port_of (get_field "port" value)
  make_endpoint hostname port
endpoint_of _ = err (invalid "endpoint 必须是 object")

unfoldable pub parse_endpoint : Fields → Result EndpointKey
unfolding endpoint_of
parse_endpoint payload = endpoint_of (get_field "endpoint" payload)

-- value.get("identity_fingerprint", ""): a text of at most 256 characters
fingerprint_of : Option Json → Option String
fingerprint_of none = some ""
fingerprint_of (some (str s)) = if leb (len s) 256 then some s else none
fingerprint_of (some _) = none

candidate_of : Option Json → Result (String × String)
unfolding fingerprint_of or_raise
candidate_of (some (obj value)) = do
  user ← or_raise "candidate.user 无效" (short_text 128 (get_field "user" value))
  fingerprint ←
      or_raise "candidate.identity_fingerprint 无效"
        (fingerprint_of (get_field "identity_fingerprint" value))
  ok (user, fingerprint)
candidate_of _ = err (invalid "candidate 必须是 object")

unfoldable pub parse_candidate : Fields → Result (String × String)
unfolding candidate_of
parse_candidate payload = candidate_of (get_field "candidate" payload)

-- payload.get("candidate", {}).get("identity_file"), if it is a text that is not empty
unfoldable pub identity_file_of : Fields → Option String
identity_file_of payload = elim (get_field "candidate" payload) [
  | some (obj value) ↦ elim (get_field "identity_file" value) [
    | some (str s) ↦ if is_empty s then none else some s
    | _ ↦ none
  ]
  | _ ↦ none
]

unfoldable pub parse_session_id : Fields → Result String
unfolding or_raise
parse_session_id payload =
    or_raise "session_id 无效" (short_text 128 (get_field "session_id" payload))
