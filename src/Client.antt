-- ===== src/Client.antt =====
-- orchestrator/client.py: one request over the orchestrator's socket. `dumps` stands for the bytes of
-- `json.dumps(payload, separators=(",", ":"))`, and `parse` for `json.loads(data.decode())`, where `none`
-- is one of its errors.
pub mod Responses
use re_remote_dev.Json.{Fields, Json, obj}
use re_remote_dev.Prelude.{
  List, Option, [], all, if◌then◌else◌, length, ltb, none, some, ℕ, ◌++◌, ◌∷◌,
}
use re_remote_dev.Result.{Result, err, failed, invalid, ok, ◌>>=◌}
use re_remote_dev.Server.Serve.{Recv, broken, bytes, ends_line, max_request_bytes, timed_out}

-- The loop over `conn.recv`: a timeout or another error of the socket leaves it.
unfoldable pub collect : List ℕ → List Recv → Result (List ℕ)
collect seen [] = ok seen
collect seen (timed_out ∷ rest) = if ends_line seen then ok seen else err (failed "timed out")
collect seen (broken e ∷ rest) = if ends_line seen then ok seen else err (failed e)
collect seen (bytes [] ∷ rest) = ok seen
collect seen (bytes (c ∷ cs) ∷ rest) =
    let all = seen ++ (c ∷ cs) in
    let further = collect all rest in
    if ends_line seen
    then ok seen
    else if ltb max_request_bytes (length all)
    then err (invalid "编排器响应超过 8 KiB")
    else further

-- json.loads(response.decode()), which has to be an object
unfoldable pub decoded : (List ℕ → Option Json) → List ℕ → Result Fields
decoded parse [] = err (failed "编排器没有返回响应")
decoded parse (c ∷ cs) = elim (parse (c ∷ cs)) [
  | none ↦ err (invalid "JSONDecodeError")
  | some (obj fields) ↦ ok fields
  | some other ↦ err (invalid "编排器响应必须是 JSON object")
]

-- request(payload), where `exchange` connects, sends the bytes and gives what `recv` then meets
unfoldable pub request :
    (Fields → List ℕ)
    → (List ℕ → Option Json)
    → (List ℕ → Result (List Recv))
    → Fields
    → Result Fields
unfolding collect decoded
request dumps parse exchange payload =
    let raw = dumps payload ++ (10 ∷ []) in
    if ltb max_request_bytes (length raw)
    then err (invalid "编排器请求超过 8 KiB")
    else exchange raw >>= λ stream. collect [] stream >>= decoded parse
