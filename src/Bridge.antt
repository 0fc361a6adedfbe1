-- ===== src/Bridge.antt =====
-- preview_bridge.py: the requests of the preview bridge. `byte_len` is the length in UTF-8, `new_id` a fresh
-- uuid, `size` the bytes of the request and `loaded` what `json.loads` makes of it, `none` where it raises.
use re_remote_dev.Json.{Fields, Json, arr, get_field, obj, short_text, str, truthy}
use re_remote_dev.Prelude.{
  Bool, Option, String, arith, eq_iff, if◌then◌else◌, ltb, none, some, ℕ, ◌&&◌, ◌*◌, ◌==◌, ◌||◌,
  ◌≡◌, ◌≤◌, ◌⊎◌,
}
use re_remote_dev.Prelude.Text.{is_empty, ◌<>◌}
use re_remote_dev.Result.{>>=-eq-ok, Result, err, failed, invalid, ok, ◌>>=◌}

pub record Context : Type 0 where
  pub endpoint_digest : String
  pub session_id : String
  pub nonce : String
  pub local_port : ℕ
  pub remote_port : ℕ

pub record PreviewRequest : Type 0 where
  pub operation : String
  pub remote_path : String
  pub endpoint_digest : String
  pub session_id : String
  pub nonce : String
  pub request_id : String

abbrev pub max_request_bytes : ℕ
max_request_bytes = 8 * 1024

abbrev pub max_path_bytes : ℕ
max_path_bytes = 4096

-- operation in {"get", "open"}; a list or an object is not hashable
unfoldable pub operation_of : Option Json → Result String
operation_of (some (str s)) =
    if s == "get" || s == "open" then ok s else err (invalid "unsupported preview operation")
operation_of (some (arr items)) = err (failed "unhashable type")
operation_of (some (obj fields)) = err (failed "unhashable type")
operation_of v = err (invalid "unsupported preview operation")

-- isinstance(item, str) and item and len(item) <= limit
unfoldable pub limited_text : String → ℕ → Option Json → Result String
limited_text name limit v = elim (short_text limit v) [
  | none ↦ err (invalid (name <> " is invalid"))
  | some s ↦ ok s
]

unfoldable pub path_text : (String → ℕ) → Option Json → Result String
path_text byte_len (some (str s)) =
    if is_empty s || ltb max_path_bytes (byte_len s)
    then err (invalid "remote_path is invalid")
    else ok s
path_text byte_len v = err (invalid "remote_path is invalid")

-- value.get("request_id") or uuid.uuid4().hex
abbrev pub or_new : String → Option Json → Json
or_new new_id none = str new_id
or_new new_id (some v) = if truthy v then v else str new_id

unfoldable pub decode_object : (String → ℕ) → String → Fields → Result PreviewRequest
unfolding operation_of limited_text path_text
decode_object byte_len new_id value = do
  operation ← operation_of (get_field "operation" value)
  remote_path ← path_text byte_len (get_field "remote_path" value)
  endpoint_digest ← limited_text "endpoint_digest" 128 (get_field "endpoint_digest" value)
  session_id ← limited_text "session_id" 128 (get_field "session_id" value)
  nonce ← limited_text "nonce" 256 (get_field "nonce" value)
  request_id ← limited_text "request_id" 128 (some (or_new new_id (get_field "request_id" value)))
  ok (record {
    operation = operation;
    remote_path = remote_path;
    endpoint_digest = endpoint_digest;
    session_id = session_id;
    nonce = nonce;
    request_id = request_id;
  })

-- PreviewRequest.decode
unfoldable pub decode : (String → ℕ) → String → ℕ → Option Json → Result PreviewRequest
unfolding decode_object
decode byte_len new_id size loaded =
    if ltb max_request_bytes size
    then err (invalid "preview request exceeds 8 KiB")
    else elim loaded [
      | none ↦ err (invalid "preview request is not valid JSON")
      | some (obj value) ↦ decode_object byte_len new_id value
      | some _ ↦ err (invalid "preview request must be an object")
    ]

-- The request is of this session's context.
unfoldable pub is_authorised : Context → PreviewRequest → Bool
is_authorised c r =
    r.endpoint_digest == c.endpoint_digest && r.session_id == c.session_id && r.nonce == c.nonce

unfoldable pub authorised : Context → Result PreviewRequest → Result PreviewRequest
authorised c (err exc) = err exc
authorised c (ok r) =
    if is_authorised c r then ok r else err (invalid "preview request context mismatch")

-- The request that `_handle` gives to `on_request`; an `err` is answered, or ends the thread.
unfoldable pub admit : Context → (String → ℕ) → String → ℕ → Option Json → Result PreviewRequest
unfolding authorised decode
admit c byte_len new_id size loaded = authorised c (decode byte_len new_id size loaded)

authorised-context :
    (c : Context) (d : Result PreviewRequest) (r : PreviewRequest)
    → authorised c d ≡ ok r
    → (d ≡ ok r)
      × (r.endpoint_digest ≡ c.endpoint_digest)
      × (r.session_id ≡ c.session_id)
      × (r.nonce ≡ c.nonce)
unfolding authorised is_authorised
authorised-context c (err exc) r h = absurd (ground arith)
authorised-context c (ok q) r h = ground (
  arith,
  eq_iff q.endpoint_digest c.endpoint_digest,
  eq_iff q.session_id c.session_id,
  eq_iff q.nonce c.nonce,
)

operation_of-known :
    (v : Option Json) (s : String) → operation_of v ≡ ok s → (s ≡ "get") ⊎ (s ≡ "open")
unfolding operation_of
operation_of-known (some (str t)) s h = ground (arith, eq_iff t "get", eq_iff t "open")
operation_of-known v s h = absurd (ground arith)

decode_object-known :
    (byte_len : String → ℕ) (new_id : String) (value : Fields) (r : PreviewRequest)
    → decode_object byte_len new_id value ≡ ok r
    → (r.operation ≡ "get") ⊎ (r.operation ≡ "open")
unfolding decode_object
decode_object-known byte_len new_id value r h =
    let (operation, known, h1) = >>=-eq-ok (operation_of (get_field "operation" value)) _ r h in
    let (_, _, h2) = >>=-eq-ok (path_text byte_len (get_field "remote_path" value)) _ r h1 in
    let (_, _, h3) =
      >>=-eq-ok (limited_text "endpoint_digest" 128 (get_field "endpoint_digest" value)) _ r h2 in
    let (_, _, h4) =
      >>=-eq-ok (limited_text "session_id" 128 (get_field "session_id" value)) _ r h3 in
    let (_, _, h5) = >>=-eq-ok (limited_text "nonce" 256 (get_field "nonce" value)) _ r h4 in
    let (_, _, h6) =
      >>=-eq-ok
        (limited_text "request_id" 128 (some (or_new new_id (get_field "request_id" value)))) _ r
        h5 in
    let same : r.operation ≡ operation = cc in
    rw same (operation_of-known (get_field "operation" value) operation known)

decode-known :
    (byte_len : String → ℕ) (new_id : String) (size : ℕ) (loaded : Option Json) (r : PreviewRequest)
    → decode byte_len new_id size loaded ≡ ok r
    → (size ≤ max_request_bytes) × ((r.operation ≡ "get") ⊎ (r.operation ≡ "open"))
unfolding decode decode_object
decode-known byte_len new_id size (some (obj value)) r h =
    (ground arith, decode_object-known byte_len new_id value r (ground arith))
decode-known byte_len new_id size loaded r h = absurd (ground arith)

-- Whatever a connection sends, a request that is passed on carries the digest, the session and the nonce of
-- the bridge's own context, asks for one of the two operations, and fits the size limit.
pub admit-authorised :
    (c : Context) (byte_len : String → ℕ) (new_id : String) (size : ℕ) (loaded : Option Json)
    (r : PreviewRequest)
    → admit c byte_len new_id size loaded ≡ ok r
    → (r.endpoint_digest ≡ c.endpoint_digest)
      × (r.session_id ≡ c.session_id)
      × (r.nonce ≡ c.nonce)
      × (size ≤ max_request_bytes)
      × ((r.operation ≡ "get") ⊎ (r.operation ≡ "open"))
unfolding admit
admit-authorised c byte_len new_id size loaded r h =
    let (decoded, same_digest, same_session, same_nonce) =
      authorised-context c (decode byte_len new_id size loaded) r h in
    let (fits, known) = decode-known byte_len new_id size loaded r decoded in
    (same_digest, same_session, same_nonce, fits, known)
