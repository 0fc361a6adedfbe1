-- ===== src/Server/Serve.antt =====
-- `serve` of orchestrator/server.py: the rounds of sweeps and connections, with what a
-- client's socket may do in the middle of them. Bytes are numbers.
pub mod Reading
pub mod Requests
pub mod Reached
pub mod Crashes
use re_remote_dev.Json.{Json, obj}
use re_remote_dev.Oauth.{Answers}
use re_remote_dev.Prelude.{
  Bool, List, Option, String, [], all, eqb, false, if◌then◌else◌, length, ltb, none, some, ℕ, ◌++◌,
  ◌∷◌,
}
use re_remote_dev.Server.{Host, Outcome, Reply, Server, raised, reply}
use re_remote_dev.Server.Handle.{handle}
use re_remote_dev.Server.Sweep.{Swept, and_then, expire_sessions, reconcile_endpoints}

-- What one `conn.recv(4096)` meets: bytes (none at the end of the stream), the two seconds without any,
-- or another error of the socket.
pub data Recv : Type 0 where
  bytes : List ℕ → Recv
  timed_out : Recv
  broken : String → Recv

pub data Read : Type 0 where
  got : List ℕ → Read
  died : String → Read

-- MAX_REQUEST_BYTES
abbrev pub max_request_bytes : ℕ
max_request_bytes = 8192

-- data.endswith(b"\n")
unfoldable pub ends_line : List ℕ → Bool
ends_line [] = false
ends_line (c ∷ []) = eqb c 10
ends_line (c ∷ d ∷ cs) = ends_line (d ∷ cs)

-- The reading loop. A stream with nothing more to come is at its end.
unfoldable pub read : List ℕ → List Recv → Read
unfolding ends_line
read seen [] = got seen
read seen (timed_out ∷ rest) = if ends_line seen then got seen else got []
read seen (broken e ∷ rest) = if ends_line seen then got seen else died e
read seen (bytes [] ∷ rest) = got seen
read seen (bytes (c ∷ cs) ∷ rest) =
    let all = seen ++ (c ∷ cs) in
    let more = read all rest in
    if ends_line seen
    then got seen
    else if ltb max_request_bytes (length all)
    then got all
    else more

-- What `serve` sends: the reply of `handle`, or one of its own refusals.
pub data Response : Type 0 where
  answer : Reply → Response
  not_object not_json : Response

-- What becomes of `conn.sendall`. The two errors of an abandoned client are passed over.
pub data Sent : Type 0 where
  delivered abandoned : Sent
  send_failed : String → Sent

-- A connection that `accept` gave: its stream, its answers, and the time of the request.
pub record Conn : Type 0 where
  pub stream : List Recv
  pub answers : Answers
  pub at : ℕ
  pub sending : Sent

-- One pass of the `while`: the time of the sweeps, and what each ready listener's `accept` gave.
pub record Round : Type 0 where
  pub now : ℕ
  pub accepted : List (Option Conn)

-- `parse` is `json.loads(data.decode())`; `none` is one of the two errors that `serve` catches.
module _ {F : Type 0} (host : Host F) (parse : List ℕ → Option Json) where
  abbrev pub answered_with : Outcome × Server F → (Option String × Option Response) × Server F
  answered_with (reply r, s) = ((none, some (answer r)), s)
  answered_with (raised e, s) = ((some e, none), s)

  -- The exception that leaves the request, if any, and the response.
  unfoldable pub respond :
      ℕ → Answers → Option Json → Server F → (Option String × Option Response) × Server F
  respond now answers (some (obj fields)) s = answered_with (handle host now answers fields s)
  respond now answers (some _) s = ((none, some not_object), s)
  respond now answers none s = ((none, some not_json), s)

  unfoldable pub send : Sent → (Option String × Option Response) × Server F → Swept F
  send (send_failed e) ((none, some r), s) = (some e, s)
  send sent ((e, r), s) = (e, s)

  unfoldable pub on_read : Conn → Read → Server F → Swept F
  unfolding respond send
  on_read conn (died e) s = (some e, s)
  on_read conn (got seen) s = send conn.sending (respond conn.at conn.answers (parse seen) s)

  -- One connection; an `accept` that fails is skipped.
  unfoldable pub serve_conn : Option Conn → Server F → Swept F
  unfolding on_read
  serve_conn none s = (none, s)
  serve_conn (some conn) s = on_read conn (read [] conn.stream) s

  unfoldable pub serve_conns : List (Option Conn) → Server F → Swept F
  unfolding serve_conn
  serve_conns [] s = (none, s)
  serve_conns (conn ∷ rest) s = and_then (serve_conn conn s) (serve_conns rest)

  unfoldable pub serve_round : Round → Server F → Swept F
  unfolding serve_conns
  serve_round round s =
      and_then (expire_sessions host round.now s)
        (λ t. serve_conns round.accepted (reconcile_endpoints host round.now t))

  -- How far the rounds came: they go on, the loop was left, or an exception left it.
  pub data Served : Type 0 where
    serving : Server F → Served
    closed : Server F → Served
    crashed : String → Server F → Served

  unfoldable pub then_serve : Swept F → (Server F → Served) → Served
  then_serve (none, s) next = next s
  then_serve (some e, s) next = crashed e s

  -- serve(), up to the rounds given
  unfoldable pub serve : List Round → Server F → Served
  unfolding serve_round then_serve
  serve [] s = if s.running then serving s else closed s
  serve (round ∷ rest) s =
      let next = serve rest in if s.running then then_serve (serve_round round s) next else closed s
