-- ===== src/Server/Serve/Crashes.antt =====
-- Requests that `serve` of orchestrator/server.py does not survive.
use re_remote_dev.Json.{Fields, Json, arr, bool, get_field, null, num, obj, str}
use re_remote_dev.Oauth.{Answers}
use re_remote_dev.Prelude.{
  Bool, List, Option, [], false, if◌then◌else◌, none, refl, some, true, ℕ, ◌++◌, ◌∷◌, ◌≡◌,
}
use re_remote_dev.Server.{Host, Outcome, Server, raised, reply}
use re_remote_dev.Server.Handle.{after_expiry, dispatch, handle, op_of, run_op, unhashable}
use re_remote_dev.Server.Serve.{
  Conn, Round, Sent, Served, abandoned, answered_with, closed, crashed, delivered, got, on_read,
  read, respond, send, send_failed, serve, serve_conn, serve_conns, serve_round, serving,
  then_serve,
}
use re_remote_dev.Server.Sweep.{Swept, and_then, expire_sessions, reconcile_endpoints, swept}

-- A list or an object, which cannot be looked up in a set.
abbrev pub IsCollection : Json → Type 0
IsCollection (arr xs) = Unit
IsCollection (obj fields) = Unit
IsCollection v = ⊥

op_of-unhashable : (op : Json) → IsCollection op → op_of (some op) ≡ unhashable
op_of-unhashable (arr xs) h = refl
op_of-unhashable (obj fields) h = refl
op_of-unhashable null h = elim h [ ]
op_of-unhashable (bool b) h = elim h [ ]
op_of-unhashable (num n) h = elim h [ ]
op_of-unhashable (str t) h = elim h [ ]

module _ {F : Type 0} (host : Host F) (parse : List ℕ → Option Json) where
  -- An exception has left the loop.
  abbrev pub IsCrashed : Served host parse → Type 0
  IsCrashed (serving s) = ⊥
  IsCrashed (closed s) = ⊥
  IsCrashed (crashed e s) = Unit

  abbrev Raises : Swept F → Type 0
  Raises (none, s) = ⊥
  Raises (some e, s) = Unit

  handle-Raises :
      (now : ℕ) (answers : Answers) (fields : Fields) (op : Json) (s : Server F)
      → get_field "event" fields ≡ none
      → get_field "op" fields ≡ some op
      → IsCollection op
      → Raises (swept (handle host now answers fields s))
  unfolding handle
  handle-Raises now answers fields op s no_event has_op h = go (expire_sessions host now s)
    where
      go : (o : Swept F) → Raises (swept (after_expiry host now answers fields o))
      go (none, t) =
          unfold after_expiry dispatch run_op in
          rw (no_event, has_op, op_of-unhashable op h, run_op) tt
      go (some e, t) = unfold after_expiry in tt

  send-Raises :
      (o : Outcome × Server F)
      → Raises (swept o)
      → (sent : Sent) → Raises (send host parse sent (answered_with host parse o))
  unfolding send
  send-Raises (raised e, s) h delivered = tt
  send-Raises (raised e, s) h abandoned = tt
  send-Raises (raised e, s) h (send_failed x) = tt
  send-Raises (reply r, s) h sent = elim h [ ]

  serve_conns-Raises :
      (before after : List (Option Conn)) (conn : Option Conn)
      → ((s : Server F) → Raises (serve_conn host parse conn s))
      → (s : Server F) → Raises (serve_conns host parse (before ++ (conn ∷ after)) s)
  unfolding serve_conns
  serve_conns-Raises [] after conn k s = go (serve_conn host parse conn s) (k s)
    where
      go : (o : Swept F) → Raises o → Raises (and_then o (serve_conns host parse after))
      go (none, t) h = elim h [ ]
      go (some e, t) h = tt
  serve_conns-Raises (c ∷ before) after conn k s =
      go (serve_conn host parse c s) (λ t. serve_conns-Raises before after conn k t)
    where
      go :
          (o : Swept F)
          → ((t : Server F) → Raises (serve_conns host parse (before ++ (conn ∷ after)) t))
          → Raises (and_then o (serve_conns host parse (before ++ (conn ∷ after))))
      go (none, t) ih = ih t
      go (some e, t) ih = tt

  IsCrashed-loop :
      (s : Server F) (b : Bool) (o : Served host parse)
      → b ≡ true
      → IsCrashed o
      → IsCrashed (if b then o else closed s)
  IsCrashed-loop s true o e h = h
  IsCrashed-loop s false o e h = cc

  -- One request without an event whose op is a list or an object ends the server with an exception,
  -- whatever its state, its sweep, the connections before and after it and the rounds that would follow.
  pub serve-collection :
      (now : ℕ) (before after : List (Option Conn)) (conn : Conn) (rest : List Round)
      (fields : Fields) (op : Json) (seen : List ℕ) (s : Server F)
      → s.running ≡ true
      → read [] conn.stream ≡ got seen
      → parse seen ≡ some (obj fields)
      → get_field "event" fields ≡ none
      → get_field "op" fields ≡ some op
      → IsCollection op
      → IsCrashed (
          serve host parse
            (record { now = now; accepted = before ++ (some conn ∷ after) } ∷ rest)
            s)
  unfolding serve serve_round
  serve-collection now before after conn rest fields op seen s on r p no_event has_op h =
      IsCrashed-loop s s.running (then_serve host parse first (serve host parse rest)) on
        (crash first (round (expire_sessions host now s)))
    where
      first : Swept F
      first = and_then (expire_sessions host now s) (λ t.
          serve_conns host parse (before ++ (some conn ∷ after)) (reconcile_endpoints host now t))

      raises : (t : Server F) → Raises (serve_conn host parse (some conn) t)
      raises t =
          unfold serve_conn on_read respond in
          rw (r, on_read, p, respond)
            (send-Raises (handle host conn.at conn.answers fields t)
              (handle-Raises conn.at conn.answers fields op t no_event has_op h) conn.sending)

      round :
          (o : Swept F)
          → Raises (
              and_then o (λ t.
                serve_conns host parse
                  (before ++ (some conn ∷ after))
                  (reconcile_endpoints host now t)))
      round (none, t) =
          serve_conns-Raises before after (some conn) raises (reconcile_endpoints host now t)
      round (some e, t) = tt

      crash : (o : Swept F) → Raises o → IsCrashed (then_serve host parse o (serve host parse rest))
      crash (none, t) q = elim q [ ]
      crash (some e, t) q = unfold then_serve in tt
