-- ===== src/Server/Serve/Reached.antt =====
-- What the rounds of `serve` can bring the server to: its steps as a relation, with a signal that may
-- come between any two of them.
use re_remote_dev.Json.{Fields, Json, arr, bool, null, num, obj, str}
use re_remote_dev.Oauth.{Answers}
use re_remote_dev.Prelude.{
  List, Option, String, [], false, if_both, none, refl, some, subst, sym, ℕ, ◌∷◌, ◌≡◌,
}
use re_remote_dev.Server.{Host, Outcome, Server, raised, reply}
use re_remote_dev.Server.Handle.{handle}
use re_remote_dev.Server.Serve.{
  Conn, Read, Response, Round, Sent, Served, abandoned, answered_with, closed, crashed, delivered,
  died, got, on_read, read, respond, send, send_failed, serve, serve_conn, serve_conns, serve_round,
  serving, then_serve,
}
use re_remote_dev.Server.Sound.{HasNamedUser, Sound}
use re_remote_dev.Server.Sound.Handle.{handle-Sound}
use re_remote_dev.Server.Sound.Sweep.{empty-IsSound, expire_list-Sound, reconcile_list-Sound}
use re_remote_dev.Server.Sweep.{Swept, and_then, expire_sessions, reconcile_endpoints}

-- A request that names a user names more than white space.
abbrev pub IsNamedRequest : Option Json → Type 0
IsNamedRequest (some (obj fields)) = HasNamedUser fields
IsNamedRequest _ = Unit

abbrev pub AllNamed : (List ℕ → Option Json) → Type 0
AllNamed parse = (seen : List ℕ) → IsNamedRequest (parse seen)

module _ {F : Type 0} (host : Host F) where
  pub data Step (s : Server F) : Server F → Type 0 where
    expire : (now : ℕ) → Step s (expire_sessions host now s).1
    reconcile : (now : ℕ) → Step s (reconcile_endpoints host now s)
    request :
        (now : ℕ) (answers : Answers) (fields : Fields)
        → HasNamedUser fields
        → Step s (handle host now answers fields s).1
    signal : Step s (record s { running = false })

  pub data Reach (s : Server F) : Server F → Type 0 where
    here : Reach s s
    next : {t u : Server F} → Reach s t → Step t u → Reach s u

  Reach-trans : {s t u : Server F} → Reach s t → Reach t u → Reach s u
  Reach-trans r here = r
  Reach-trans r (next q st) = next (Reach-trans r q) st

  Step-Sound : {s t : Server F} → Step s t → Sound host s → Sound host t
  unfolding expire_sessions reconcile_endpoints
  Step-Sound {s} (expire now) h = expire_list-Sound host now s.sessions s h
  Step-Sound {s} (reconcile now) h = reconcile_list-Sound host now s.endpoints s h
  Step-Sound {s} (request now answers fields named) h =
      handle-Sound host now answers fields s named h
  Step-Sound signal h = h

  Reach-Sound_from : {s t : Server F} → Reach s t → Sound host s → Sound host t
  Reach-Sound_from here h = h
  Reach-Sound_from (next r st) h = Step-Sound st (Reach-Sound_from r h)

  -- No lease is held and no tunnel is known: the tables of `OrchestratorServer(...)`.
  abbrev pub IsNew : Server F → Type 0
  IsNew s = (s.sessions ≡ []) × (s.endpoints ≡ [])

  -- Whatever a new server has gone through, sweeps, requests that name no blank user, and signals in any
  -- order, its lease tables are sound.
  pub Reach-Sound : (s t : Server F) → IsNew s → Reach s t → Sound host t
  Reach-Sound s t new r = Reach-Sound_from r (rw (new.0, new.1) (empty-IsSound host.sha256))

  module _ (parse : List ℕ → Option Json) where
    respond-Reach :
        (now : ℕ) (answers : Answers) (payload : Option Json) (s : Server F)
        → IsNamedRequest payload
        → Reach s (respond host parse now answers payload s).1
    unfolding respond
    respond-Reach now answers none s named = here
    respond-Reach now answers (some null) s named = here
    respond-Reach now answers (some (bool b)) s named = here
    respond-Reach now answers (some (num n)) s named = here
    respond-Reach now answers (some (str t)) s named = here
    respond-Reach now answers (some (arr xs)) s named = here
    respond-Reach now answers (some (obj fields)) s named =
        go (handle host now answers fields s) (next here (request now answers fields named))
      where
        go : (o : Outcome × Server F) → Reach s o.1 → Reach s (answered_with host parse o).1
        go (reply r, t) h = h
        go (raised e, t) h = h

    send-server :
        (sent : Sent) (o : (Option String × Option Response) × Server F)
        → (send host parse sent o).1 ≡ o.1
    unfolding send
    send-server delivered ((e, r), s) = refl
    send-server abandoned ((e, r), s) = refl
    send-server (send_failed x) ((none, some r), s) = refl
    send-server (send_failed x) ((none, none), s) = refl
    send-server (send_failed x) ((some e, r), s) = refl

    serve_conn-Reach :
        AllNamed parse
        → (conn : Option Conn) (s : Server F) → Reach s (serve_conn host parse conn s).1
    unfolding serve_conn
    serve_conn-Reach named none s = here
    serve_conn-Reach named (some conn) s = go (read [] conn.stream)
      where
        go : (r : Read) → Reach s (on_read host parse conn r s).1
        go (died e) = unfold on_read in here
        go (got seen) =
            unfold on_read in
            subst (Reach s)
              (sym
                (send-server conn.sending (respond host parse conn.at conn.answers (parse seen) s)))
              (respond-Reach conn.at conn.answers (parse seen) s (named seen))

    and_then-Reach :
        (s : Server F) (first : Swept F) (rest : Server F → Swept F)
        → Reach s first.1
        → ((t : Server F) → Reach t (rest t).1)
        → Reach s (and_then first rest).1
    and_then-Reach s (none, t) rest h k = Reach-trans h (k t)
    and_then-Reach s (some e, t) rest h k = h

    serve_conns-Reach :
        AllNamed parse
        → (conns : List (Option Conn)) (s : Server F) → Reach s (serve_conns host parse conns s).1
    unfolding serve_conns
    serve_conns-Reach named [] s = here
    serve_conns-Reach named (conn ∷ rest) s =
        and_then-Reach s (serve_conn host parse conn s) (serve_conns host parse rest)
          (serve_conn-Reach named conn s) (serve_conns-Reach named rest)

    serve_round-Reach :
        AllNamed parse → (round : Round) (s : Server F) → Reach s (serve_round host parse round s).1
    unfolding serve_round
    serve_round-Reach named round s =
        and_then-Reach s (expire_sessions host round.now s)
          (λ t. serve_conns host parse round.accepted (reconcile_endpoints host round.now t))
          (next here (expire round.now))
          (λ t.
            Reach-trans (next here (reconcile round.now))
              (serve_conns-Reach named round.accepted (reconcile_endpoints host round.now t)))

    abbrev pub server_of : Served host parse → Server F
    server_of (serving s) = s
    server_of (closed s) = s
    server_of (crashed e s) = s

    then_serve-Reach :
        (s : Server F) (first : Swept F) (rest : Server F → Served host parse)
        → Reach s first.1
        → ((t : Server F) → Reach t (server_of (rest t)))
        → Reach s (server_of (then_serve host parse first rest))
    unfolding then_serve
    then_serve-Reach s (none, t) rest h k = Reach-trans h (k t)
    then_serve-Reach s (some e, t) rest h k = h

    -- Whatever its rounds meet, `serve` only takes steps of the relation, so from a new server it has
    -- sound tables where it stands, where it is closed, and where an exception ended it.
    pub serve-Reach :
        (named : AllNamed parse) (rounds : List Round) (s : Server F)
        → Reach s (server_of (serve host parse rounds s))
    unfolding serve
    serve-Reach named [] s =
        if_both (λ (o : Served host parse). Reach s (server_of o)) s.running here here
    serve-Reach named (round ∷ rest) s =
        if_both (λ (o : Served host parse). Reach s (server_of o)) s.running
          (then_serve-Reach s (serve_round host parse round s) (serve host parse rest)
            (serve_round-Reach named round s) (serve-Reach named rest))
          here
