-- ===== src/Server/Serve/Requests.antt =====
-- What one connection does to the server: a line that reaches `handle` as it was sent, a client that stops
-- in the middle of its line, and a request for a shutdown.
use re_remote_dev.Json.{Fields, Json, get_field, obj}
use re_remote_dev.Oauth.{Answers}
use re_remote_dev.Prelude.{
  AreFull, Bool, List, Option, [], concat, false, if◌then◌else◌, length, map, none, refl, some, sym,
  true, ℕ, ◌++◌, ◌∙◌, ◌∷◌, ◌≡◌, ◌≤◌,
}
use re_remote_dev.Server.{Host, Outcome, Server, raised, reply}
use re_remote_dev.Server.Handle.{after_expiry, dispatch, handle, op_of, run_op, shutdown}
use re_remote_dev.Server.Serve.{
  Conn, Recv, Round, Sent, Served, abandoned, answered_with, bytes, closed, crashed, delivered, got,
  max_request_bytes, on_read, read, respond, send, send_failed, serve, serve_conn, serve_conns,
  serve_round, serving, then_serve, timed_out,
}
use re_remote_dev.Server.Serve.Reading.{no_newline, read-line, read-stalled}
use re_remote_dev.Server.Sweep.{Swept, and_then, expire_sessions, reconcile_endpoints, swept}

-- The stream of a client that sends a line in chunks, and what comes after it.
abbrev pub in_chunks : List (List ℕ) → List Recv → List Recv
in_chunks chunks rest = map bytes chunks ++ rest

-- The reply is sent, or the client has gone.
abbrev pub IsSendable : Sent → Type 0
IsSendable delivered = Unit
IsSendable abandoned = Unit
IsSendable (send_failed e) = ⊥

-- A request for a shutdown: no event, and the operation's name.
abbrev pub IsShutdown : Fields → Type 0
IsShutdown fields = (get_field "event" fields ≡ none) × (op_of (get_field "op" fields) ≡ shutdown)

module _ {F : Type 0} (host : Host F) (parse : List ℕ → Option Json) where
  send-swept :
      (sent : Sent) (o : Outcome × Server F)
      → IsSendable sent
      → send host parse sent (answered_with host parse o) ≡ swept o
  unfolding send
  send-swept delivered (reply r, s) h = refl
  send-swept delivered (raised e, s) h = refl
  send-swept abandoned (reply r, s) h = refl
  send-swept abandoned (raised e, s) h = refl
  send-swept (send_failed x) o h = elim h [ ]

  -- A request of at most 8 KiB on one line, whose text is an object, is handled the same in whatever
  -- chunks it arrives, the last of which ends with the line, and also if the client has gone when the
  -- reply is sent. What the socket would give after that chunk changes nothing.
  pub serve_conn-line :
      (chunks : List (List ℕ)) (body : List ℕ) (rest : List Recv) (fields : Fields)
      (answers : Answers) (at : ℕ) (sending : Sent) (s : Server F)
      → AreFull chunks
      → concat chunks ≡ body ++ (10 ∷ [])
      → no_newline body ≡ true
      → length (body ++ (10 ∷ [])) ≤ max_request_bytes
      → parse (body ++ (10 ∷ [])) ≡ some (obj fields)
      → IsSendable sending
      → serve_conn host parse
          (some (record {
            stream = in_chunks chunks rest;
            answers = answers;
            at = at;
            sending = sending;
          }))
          s
        ≡ swept (handle host at answers fields s)
  unfolding serve_conn on_read respond
  serve_conn-line chunks body rest fields answers at sending s full e line small p h =
      rw (read-line chunks body rest full e line small, on_read, p, respond)
        (send-swept sending (handle host at answers fields s) h)

  -- A client that stops in the middle of its line is answered without the server being changed, and the
  -- rounds go on, if the empty text is no JSON and the answer can be sent or the client has gone.
  pub serve_conn-stalled :
      (chunks : List (List ℕ)) (rest : List Recv) (answers : Answers) (at : ℕ) (sending : Sent)
      (s : Server F)
      → parse [] ≡ none
      → AreFull chunks
      → no_newline (concat chunks) ≡ true
      → length (concat chunks) ≤ max_request_bytes
      → IsSendable sending
      → serve_conn host parse
          (some (record {
            stream = in_chunks chunks (timed_out ∷ rest);
            answers = answers;
            at = at;
            sending = sending;
          }))
          s
        ≡ (none, s)
  unfolding serve_conn on_read respond send
  serve_conn-stalled chunks rest answers at delivered s p full line small h =
      rw (read-stalled chunks rest full line small, on_read, p, respond) refl
  serve_conn-stalled chunks rest answers at abandoned s p full line small h =
      rw (read-stalled chunks rest full line small, on_read, p, respond) refl
  serve_conn-stalled chunks rest answers at (send_failed e) s p full line small h = elim h [ ]

  -- The loop was left, or an exception left it: it serves no longer.
  abbrev pub IsOver : Served host parse → Type 0
  IsOver (serving s) = ⊥
  IsOver (closed s) = s.running ≡ false
  IsOver (crashed e s) = Unit

  -- An exception, or a server that is to stop.
  abbrev pub Stops : Swept F → Type 0
  Stops (none, s) = s.running ≡ false
  Stops (some e, s) = Unit

  serve_conns-last :
      (before : List (Option Conn)) (conn : Option Conn)
      → ((s : Server F) → Stops (serve_conn host parse conn s))
      → (s : Server F) → Stops (serve_conns host parse (before ++ (conn ∷ [])) s)
  unfolding serve_conns
  serve_conns-last [] conn k s = go (serve_conn host parse conn s) (k s)
    where
      go : (o : Swept F) → Stops o → Stops (and_then o (λ t. (none, t)))
      go (none, t) h = h
      go (some e, t) h = tt
  serve_conns-last (c ∷ before) conn k s =
      go (serve_conn host parse c s) (serve_conns-last before conn k)
    where
      go :
          (o : Swept F)
          → ((t : Server F) → Stops (serve_conns host parse (before ++ (conn ∷ [])) t))
          → Stops (and_then o (serve_conns host parse (before ++ (conn ∷ []))))
      go (none, t) ih = ih t
      go (some e, t) ih = tt

  IsOver-loop :
      (s : Server F) (b : Bool) (o : Served host parse)
      → s.running ≡ b
      → (b ≡ true → IsOver o)
      → IsOver (if b then o else closed s)
  IsOver-loop s true o e k = k refl
  IsOver-loop s false o e k = e

  IsOver-stopped :
      (s : Server F) (o : Served host parse)
      → s.running ≡ false
      → IsOver (if s.running then o else closed s)
  IsOver-stopped s o e =
      IsOver-loop s s.running o refl (λ on. let both : true ≡ false = sym on ∙ e in cc)

  Stops-IsOver :
      (o : Swept F) (rest : List Round)
      → Stops o
      → IsOver (then_serve host parse o (serve host parse rest))
  unfolding then_serve serve
  Stops-IsOver (none, t) [] e = IsOver-stopped t (serving t) e
  Stops-IsOver (none, t) (round ∷ rest) e =
      IsOver-stopped t
        (then_serve host parse (serve_round host parse round t) (serve host parse rest)) e
  Stops-IsOver (some x, t) rest e = tt

  shutdown-Stops :
      (now : ℕ) (answers : Answers) (fields : Fields) (s : Server F)
      → IsShutdown fields
      → Stops (swept (handle host now answers fields s))
  unfolding handle
  shutdown-Stops now answers fields s h = go (expire_sessions host now s)
    where
      go : (o : Swept F) → Stops (swept (after_expiry host now answers fields o))
      go (none, t) = unfold after_expiry dispatch run_op in rw (h.0, h.1, run_op) refl
      go (some e, t) = unfold after_expiry in tt

  -- When the last connection of a round brings a shutdown request, the loop is over with that round,
  -- whatever the connections before it brought and whatever rounds would follow.
  pub serve-shutdown :
      (now : ℕ) (before : List (Option Conn)) (conn : Conn) (rest : List Round) (fields : Fields)
      (seen : List ℕ) (s : Server F)
      → read [] conn.stream ≡ got seen
      → parse seen ≡ some (obj fields)
      → IsShutdown fields
      → IsSendable conn.sending
      → IsOver
          (serve host parse (record { now = now; accepted = before ++ (some conn ∷ []) } ∷ rest) s)
  unfolding serve serve_round
  serve-shutdown now before conn rest fields seen s r p h sendable =
      let first : Swept F = and_then (expire_sessions host now s) (λ t.
        serve_conns host parse (before ++ (some conn ∷ [])) (reconcile_endpoints host now t)) in
      IsOver-loop s s.running (then_serve host parse first (serve host parse rest)) refl
        (λ on. Stops-IsOver first rest (round_stops (expire_sessions host now s)))
    where
      stops : (t : Server F) → Stops (serve_conn host parse (some conn) t)
      stops t =
          unfold serve_conn on_read respond in
          rw
            (
              r,
              on_read,
              p,
              respond,
              send-swept conn.sending (handle host conn.at conn.answers fields t) sendable,
            )
            (shutdown-Stops conn.at conn.answers fields t h)

      round_stops :
          (o : Swept F)
          → Stops (
              and_then o (λ t.
                serve_conns host parse
                  (before ++ (some conn ∷ []))
                  (reconcile_endpoints host now t)))
      round_stops (none, t) =
          serve_conns-last before (some conn) stops (reconcile_endpoints host now t)
      round_stops (some e, t) = tt
