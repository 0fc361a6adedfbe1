-- ===== src/Tssh/Keeping.antt =====
-- A turn of the heartbeat against the orchestrator: when it ends well, the lease is there.
use re_remote_dev.Dict.{get}
use re_remote_dev.Json.{Fields, get_field}
use re_remote_dev.Model.{EndpointKey, endpoint_digest}
use re_remote_dev.Oauth.{Answers}
use re_remote_dev.Prelude.{
  Bool-cases, List, Option-cases, String, [], ap, eq_iff, if_both, inl, inr, none, refl, some,
  subst, true, ℕ, ◌==◌, ◌∙◌, ◌∷◌, ◌≡◌,
}
use re_remote_dev.Result.{Result, err, ok}
use re_remote_dev.Server.{Host, Outcome, Server, raised, reply}
use re_remote_dev.Server.Acquire.{acquire, acquire_candidate, acquire_session, reuse}
use re_remote_dev.Server.Handle.{
  Op, after_expiry, dispatch, handle, lease_acquire, lease_heartbeat, op_of, run_op,
}
use re_remote_dev.Server.Lease.{handle_lease, lease_parsed, run_lease}
use re_remote_dev.Server.Parse.{parse_candidate}
use re_remote_dev.Server.Refines.{acquire-held, heartbeat-held}
use re_remote_dev.Server.Release.{heartbeat, heartbeat_session}
use re_remote_dev.Server.Sweep.{Swept, expire_sessions, reconcile_endpoints}
use re_remote_dev.Server.Table.{held, take_lease}
use re_remote_dev.Tssh.Payloads.{
  IsFit, endpoint_key, no_event-acquire, no_event-session, op-acquire, op-heartbeat,
  parse_candidate-acquire, parse_endpoint-acquire, parse_endpoint-session, parse_session_id-acquire,
  parse_session_id-session,
}
use re_remote_dev.Tssh.Requests.{
  Caller, Link, Said, Wire, acquire_payload, after_beat, after_retry, ask_server, down, heard,
  heartbeat_turn, lost, said, served, session_payload, wants_acquire,
}

module _ {F : Type 0} (digest sid : String) where
  -- A reply that says `ok` leaves the lease held.
  abbrev IsFine : Outcome × Server F → Type 0
  IsFine (reply r, t) = (said r).fine ≡ true → held t sid ≡ some digest
  IsFine (raised e, t) = Unit

  held-IsFine : (o : Outcome × Server F) → held o.1 sid ≡ some digest → IsFine o
  held-IsFine (reply r, t) h = λ f. h
  held-IsFine (raised e, t) h = tt

module _ {F : Type 0} (host : Host F) where
  acquire-IsFine :
      (now : ℕ) (endpoint : EndpointKey) (digest sid user fingerprint : String) (payload : Fields)
      (s : Server F)
      → parse_candidate payload ≡ ok (user, fingerprint)
      → IsFine digest sid (acquire host now endpoint digest sid payload s)
  unfolding held take_lease
  acquire-IsFine now endpoint digest sid user fingerprint payload s p =
      elim (Option-cases (get sid s.sessions)) [
        | inl e ↦ held-IsFine digest sid (acquire host now endpoint digest sid payload s) (
            acquire-held host now endpoint digest sid payload s sid
            ∙ (rw (p, e, (eq_iff sid sid).1 refl) refl))
        | inr (x, e) ↦ elim (Bool-cases (x.endpoint_digest == digest)) [
          | inl same_place ↦
              held-IsFine digest sid (acquire host now endpoint digest sid payload s) (
                acquire-held host now endpoint digest sid payload s sid
                ∙ (rw (p, e) (rw e (ap some ((eq_iff x.endpoint_digest digest).0 same_place)))))
          | inr elsewhere ↦
              unfold acquire acquire_candidate acquire_session reuse said in
              rw (p, acquire_candidate, e, acquire_session, elsewhere) (λ f. cc)
        ]
      ]

  heartbeat-IsFine :
      (now : ℕ) (digest sid : String) (s : Server F)
      → IsFine digest sid (heartbeat now digest sid s)
  unfolding held
  heartbeat-IsFine now digest sid s = elim (Option-cases (get sid s.sessions)) [
    | inl e ↦ unfold heartbeat heartbeat_session said in rw (e, heartbeat_session) (λ f. cc)
    | inr (x, e) ↦ elim (Bool-cases (x.endpoint_digest == digest)) [
      | inl same_place ↦ held-IsFine digest sid (heartbeat now digest sid s) (
          heartbeat-held now digest sid s sid
          ∙ (rw e (ap some ((eq_iff x.endpoint_digest digest).0 same_place))))
      | inr elsewhere ↦
          unfold heartbeat heartbeat_session said in rw (e, heartbeat_session, elsewhere) (λ f. cc)
    ]
  ]

  -- A request without an event, once the sweeps are over.
  handle-IsFine :
      (now : ℕ) (answers : Answers) (digest sid : String) (op : Op) (payload : Fields)
      (s : Server F)
      → get_field "event" payload ≡ none
      → op_of (get_field "op" payload) ≡ op
      → ((u : Server F) → IsFine digest sid (run_op host now op payload u))
      → IsFine digest sid (handle host now answers payload s)
  unfolding handle
  handle-IsFine now answers digest sid op payload s no_event names h =
      go (expire_sessions host now s)
    where
      go : (o : Swept F) → IsFine digest sid (after_expiry host now answers payload o)
      go (none, t) =
          unfold after_expiry dispatch in rw (no_event, names) (h (reconcile_endpoints host now t))
      go (some e, t) = unfold after_expiry in tt

  module _ (answers : Answers) (c : Caller) (fit : IsFit c) where
    abbrev place : String
    place = endpoint_digest host.sha256 (endpoint_key c)

    handle-acquire :
        (now : ℕ) (s : Server F)
        → IsFine place c.session_id (handle host now answers (acquire_payload c) s)
    handle-acquire now s =
        handle-IsFine now answers place c.session_id lease_acquire (acquire_payload c) s
          (no_event-acquire c) (op-acquire c)
          (λ u.
            unfold run_op handle_lease lease_parsed run_lease in
            rw (parse_endpoint-acquire c fit, parse_session_id-acquire c fit, lease_parsed)
              (acquire-IsFine now (endpoint_key c) place c.session_id c.user "" (acquire_payload c)
                u (parse_candidate-acquire c fit)))

    handle-heartbeat :
        (now : ℕ) (s : Server F)
        → IsFine place c.session_id (handle host now answers (session_payload "heartbeat" c) s)
    handle-heartbeat now s =
        handle-IsFine now answers place c.session_id lease_heartbeat (session_payload "heartbeat" c)
          s (no_event-session "heartbeat" c) (op-heartbeat c)
          (λ u.
            unfold run_op handle_lease lease_parsed run_lease in
            rw
              (
                parse_endpoint-session "heartbeat" c fit,
                parse_session_id-session "heartbeat" c fit,
                lease_parsed,
              )
              (heartbeat-IsFine now place c.session_id u))

    abbrev IsKept : Result Said × Wire F → Type 0
    IsKept (ok r, (links, t)) = r.fine ≡ true → held t c.session_id ≡ some place
    IsKept (err e, w) = Unit

    heard-IsKept :
        (links : List Link) (o : Outcome × Server F)
        → IsFine place c.session_id o
        → IsKept (heard links o)
    heard-IsKept links (reply r, t) h = h
    heard-IsKept links (raised e, t) h = tt

    ask-IsKept :
        (payload : Fields)
        → ((now : ℕ) (s : Server F) → IsFine place c.session_id (handle host now answers payload s))
        → (w : Wire F) → IsKept (ask_server host answers payload w)
    unfolding ask_server
    ask-IsKept payload h ([], s) = tt
    ask-IsKept payload h (served now ∷ links, s) =
        heard-IsKept links (handle host now answers payload s) (h now s)
    ask-IsKept payload h (lost now ∷ links, s) = tt
    ask-IsKept payload h (down ∷ links, s) = tt

    acquire-IsKept : (w : Wire F) → IsKept (ask_server host answers (acquire_payload c) w)
    acquire-IsKept = ask-IsKept (acquire_payload c) handle-acquire

    after_retry-IsKept :
        (o : Result Said × Wire F) → IsKept o → IsKept (after_retry (ask_server host answers) c o)
    unfolding after_retry
    after_retry-IsKept (ok r, w) h = h
    after_retry-IsKept (err e, w) h = acquire-IsKept w

    after_beat-IsKept :
        (o : Result Said × Wire F) → IsKept o → IsKept (after_beat (ask_server host answers) c o)
    unfolding after_beat
    after_beat-IsKept (ok r, w) h =
        if_both IsKept (wants_acquire r)
          (after_retry-IsKept (ask_server host answers (acquire_payload c) w) (acquire-IsKept w)) h
    after_beat-IsKept (err e, w) h = acquire-IsKept w

    heartbeat_turn-IsKept : (w : Wire F) → IsKept (heartbeat_turn (ask_server host answers) c w)
    unfolding heartbeat_turn
    heartbeat_turn-IsKept w =
        after_beat-IsKept (ask_server host answers (session_payload "heartbeat" c) w)
          (ask-IsKept (session_payload "heartbeat" c) handle-heartbeat w)

    -- A turn of the heartbeat whose last answer says `ok` leaves the session's lease held at its endpoint,
    -- whatever the server had lost before, and whatever became of the requests on their way.
    pub heartbeat_turn-held :
        (w : Wire F) (r : Said) (links : List Link) (t : Server F)
        → heartbeat_turn (ask_server host answers) c w ≡ (ok r, (links, t))
        → r.fine ≡ true
        → held t c.session_id ≡ some (endpoint_digest host.sha256 (endpoint_key c))
    heartbeat_turn-held w r links t e fine = subst IsKept e (heartbeat_turn-IsKept w) fine
