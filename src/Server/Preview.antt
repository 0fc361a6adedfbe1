-- ===== src/Server/Preview.antt =====
-- `_register_preview` of orchestrator/server.py.
use re_remote_dev.Dict.{get, put}
use re_remote_dev.Json.{Fields, Json, as_object, get_field, py_int, short_text, str}
use re_remote_dev.Model.{in_port_range}
use re_remote_dev.Prelude.{
  Bool, Option, String, false, if◌then◌else◌, none, on_some, some, true, ℕ, ◌&&◌, ◌==◌,
}
use re_remote_dev.Prelude.Int.{negsuc, pos, ℤ}
use re_remote_dev.Prelude.Text.{◌<>◌}
use re_remote_dev.Result.{Result, err, invalid, ok, ◌>>=◌}
use re_remote_dev.Server.{
  PreviewContext, Reply, Server, Session, lease_cleared, message, previewed, refused,
}
use re_remote_dev.Server.Register.{or_else}

-- int(v)
int_of : Option Json → Result ℤ
int_of none = err (invalid "preview.local_port 无效")
int_of (some v) = elim (py_int v) [ none ↦ err (invalid "preview.local_port 无效") | some n ↦ ok n ]

-- 1 <= port <= 65535
port_of : ℤ → Result ℕ
port_of (pos n) = if in_port_range n then ok n else err (invalid "preview.local_port 无效")
port_of (negsuc n) = err (invalid "preview.local_port 无效")

limited : String → ℕ → Fields → Result String
limited key limit preview = elim (short_text limit (get_field key preview)) [
  | none ↦ err (invalid ("preview." <> key <> " 无效"))
  | some s ↦ ok s
]

abbrev names_session : String → Option Json → Bool
names_session session_id (some (str s)) = s == session_id
names_session session_id _ = false

abbrev has_field : String → Fields → Bool
has_field key fs = elim (get_field key fs) [ none ↦ false | some v ↦ true ]

context_of : String → Fields → Result PreviewContext
unfolding int_of port_of limited
context_of session_id preview = do
  local ← int_of (get_field "local_port" preview)
  remote ← int_of (or_else (get_field "remote_port" preview) (get_field "local_port" preview))
  local_port ← port_of local
  remote_port ← port_of remote
  digest ← limited "endpoint_digest" 128 preview
  nonce ← limited "nonce" 256 preview
  ok (record {
    endpoint_digest = digest;
    session_id = session_id;
    nonce = nonce;
    local_port = local_port;
    remote_port = remote_port;
  })

-- The context that is stored with the session, after all the checks.
unfoldable pub preview_of : String → Fields → Result PreviewContext
unfolding context_of
preview_of session_id preview =
    if has_field "endpoint_digest" preview
      && has_field "nonce" preview
      && has_field "local_port" preview
      && names_session session_id (get_field "session_id" preview)
    then context_of session_id preview
    else err (invalid "preview context 无效")

module _ {F : Type 0} where
  unfoldable pub store_preview :
      String → Session → Server F → Result PreviewContext → Reply × Server F
  store_preview session_id x s (err exc) = (refused (message exc), s)
  store_preview session_id x s (ok context) = (
    previewed context,
    record s { sessions = put session_id (record x { preview = some context }) s.sessions },
  )

  unfoldable pub preview_session : String → Fields → Server F → Option Session → Reply × Server F
  unfolding store_preview
  preview_session session_id preview s none = (lease_cleared, s)
  preview_session session_id preview s (some x) =
      store_preview session_id x s (preview_of session_id preview)

  unfoldable pub register_preview : Fields → Server F → Reply × Server F
  unfolding preview_session
  register_preview payload s =
      on_some (refused "session_id 无效", s)
        (λ session_id.
          on_some (refused "preview 必须是 object", s)
            (λ preview. preview_session session_id preview s (get session_id s.sessions))
            (as_object (get_field "preview" payload)))
        (short_text 128 (get_field "session_id" payload))
