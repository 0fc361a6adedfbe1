-- ===== src/Server/Sound/Handle.antt =====
-- Every request keeps the lease tables sound, whatever the forwarder answers and whatever is raised.
use re_remote_dev.Dict.{get}
use re_remote_dev.Json.{Fields, as_object, get_field, obj, short_text}
use re_remote_dev.Model.{TargetKey}
use re_remote_dev.Model.Status.{TargetStatus}
use re_remote_dev.Oauth.{Answers}
use re_remote_dev.Prelude.{Option, String, arith, none, on_some_both, refl, some, ℕ, ◌≡◌}
use re_remote_dev.Protocol.{Event, decode_event}
use re_remote_dev.Result.{Result, err, ok}
use re_remote_dev.Server.{Host, Outcome, PreviewContext, Reply, Server, Session}
use re_remote_dev.Server.Handle.{Op, after_expiry, dispatch, handle, op_of, run_op}
use re_remote_dev.Server.Lease.{op_acquire, op_heartbeat, op_release}
use re_remote_dev.Server.Lifecycle.{
  handle_event, on_codex_exit, on_codex_start, on_decoded, on_event, on_oauth_url, on_target,
}
use re_remote_dev.Server.Preview.{preview_of, preview_session, register_preview, store_preview}
use re_remote_dev.Server.Register.{
  register, register_known, target_of, unregister, unregister_known,
}
use re_remote_dev.Server.Sound.Defs.{HasNamedUser, Sound}
use re_remote_dev.Server.Sound.Join.{refresh-IsSound}
use re_remote_dev.Server.Sound.Lease.{handle_lease-Sound}
use re_remote_dev.Server.Sound.Sweep.{empty-IsSound, expire_list-Sound, reconcile_list-Sound}
use re_remote_dev.Server.Sweep.{
  Swept, expire_list, expire_sessions, force_cleanup, reconcile_endpoints, reconcile_list,
}

module _ {F : Type 0} (host : Host F) where
  -- A step that does not write the two lease tables.
  abbrev SameTables : Server F → Server F → Type 0
  SameTables s t = (t.endpoints ≡ s.endpoints) × (t.sessions ≡ s.sessions)

  kept : (s t : Server F) → SameTables s t → Sound host s → Sound host t
  kept s t (e, q) h = rw (e, q) h

  register-tables :
      (payload : Fields) (s : Server F) (target : Result TargetKey)
      → SameTables s (register_known host payload s target).1
  unfolding register_known
  register-tables payload s (err exc) = (refl, refl)
  register-tables payload s (ok target) = ground arith

  on_event-tables :
      (answers : Answers) (e : Event) (t : TargetStatus) (s : Server F)
      → SameTables s (on_event answers e t s)
  unfolding on_event on_codex_start on_oauth_url on_codex_exit
  on_event-tables answers e t s = ground arith

  on_target-tables :
      (answers : Answers) (e : Event) (s : Server F) (o : Option TargetStatus)
      → SameTables s (on_target answers e s o).1
  unfolding on_target
  on_target-tables answers e s none = (refl, refl)
  on_target-tables answers e s (some t) = on_event-tables answers e t s

  event-tables :
      (answers : Answers) (s : Server F) (e : Result Event)
      → SameTables s (on_decoded answers s e).1
  unfolding on_decoded
  event-tables answers s (err exc) = (refl, refl)
  event-tables answers s (ok e) = on_target-tables answers e s (get e.target s.targets)

  unregister-tables :
      (s : Server F) (target : Result TargetKey) → SameTables s (unregister_known host s target).1
  unfolding unregister_known
  unregister-tables s (err exc) = (refl, refl)
  unregister-tables s (ok target) = (refl, refl)

  preview_session-Sound :
      (sid : String) (preview : Fields) (s : Server F) (o : Option Session)
      → get sid s.sessions ≡ o
      → Sound host s
      → Sound host (preview_session sid preview s o).1
  unfolding preview_session
  preview_session-Sound sid preview s none e h = h
  preview_session-Sound sid preview s (some x) e h = go (preview_of sid preview)
    where
      go : (c : Result PreviewContext) → Sound host (store_preview sid x s c).1
      go (err exc) = h
      go (ok context) =
          refresh-IsSound host.sha256 sid x (record x { preview = some context }) s.endpoints
            s.sessions e refl refl h

  abbrev SoundAfter : Outcome × Server F → Type 0
  SoundAfter o = Sound host o.1

  register_preview-Sound :
      (payload : Fields) (s : Server F) → Sound host s → Sound host (register_preview payload s).1
  unfolding register_preview
  register_preview-Sound payload s h =
      on_some_both (λ (o : Reply × Server F). Sound host o.1)
        (short_text 128 (get_field "session_id" payload)) h
        (λ sid.
          on_some_both (λ (o : Reply × Server F). Sound host o.1)
            (as_object (get_field "preview" payload)) h
            (λ preview. preview_session-Sound sid preview s (get sid s.sessions) refl h))

  register-Sound :
      (payload : Fields) (s : Server F) → Sound host s → SoundAfter (register host payload s)
  unfolding register
  register-Sound payload s h =
      on_some_both SoundAfter (as_object (get_field "target" payload)) h (λ data_.
        kept s (register_known host payload s (target_of host.repr data_)).1
          (register-tables payload s (target_of host.repr data_)) h)

  unregister-Sound :
      (payload : Fields) (s : Server F) → Sound host s → SoundAfter (unregister host payload s)
  unfolding unregister
  unregister-Sound payload s h =
      on_some_both SoundAfter (as_object (get_field "target" payload)) h (λ data_.
        kept s (unregister_known host s (target_of host.repr data_)).1
          (unregister-tables s (target_of host.repr data_)) h)

  run_op-Sound :
      (now : ℕ) (op : Op) (payload : Fields) (s : Server F)
      → HasNamedUser payload
      → Sound host s
      → SoundAfter (run_op host now op payload s)
  unfolding run_op force_cleanup
  run_op-Sound now Op.health payload s a h = h
  run_op-Sound now Op.status payload s a h = h
  run_op-Sound now Op.shutdown payload s a h = h
  run_op-Sound now Op.cleanup payload s a h = empty-IsSound host.sha256
  run_op-Sound now Op.lease_acquire payload s a h =
      handle_lease-Sound host op_acquire now payload s a h
  run_op-Sound now Op.lease_release payload s a h =
      handle_lease-Sound host op_release now payload s tt h
  run_op-Sound now Op.lease_heartbeat payload s a h =
      handle_lease-Sound host op_heartbeat now payload s tt h
  run_op-Sound now Op.preview_register payload s a h = register_preview-Sound payload s h
  run_op-Sound now Op.register payload s a h = register-Sound payload s h
  run_op-Sound now Op.unregister payload s a h = unregister-Sound payload s h
  run_op-Sound now Op.unsupported payload s a h = h
  run_op-Sound now Op.unhashable payload s a h = h

  dispatch-Sound :
      (now : ℕ) (answers : Answers) (payload : Fields) (s : Server F)
      → HasNamedUser payload
      → Sound host s
      → SoundAfter (dispatch host now answers payload s)
  unfolding dispatch handle_event
  dispatch-Sound now answers payload s a h =
      on_some_both SoundAfter (get_field "event" payload)
        (run_op-Sound now (op_of (get_field "op" payload)) payload s a h)
        (λ event.
          kept s
            (on_decoded answers s (decode_event (host.dump_size payload) (some (obj payload)))).1
            (event-tables answers s (decode_event (host.dump_size payload) (some (obj payload)))) h)

  after_expiry-Sound :
      (now : ℕ) (answers : Answers) (payload : Fields) (p : Swept F)
      → HasNamedUser payload
      → Sound host p.1
      → SoundAfter (after_expiry host now answers payload p)
  unfolding after_expiry reconcile_endpoints
  after_expiry-Sound now answers payload (some e, s) a h = h
  after_expiry-Sound now answers payload (none, s) a h =
      dispatch-Sound now answers payload (reconcile_list host now s.endpoints s) a
        (reconcile_list-Sound host now s.endpoints s h)

  pub handle-Sound :
      (now : ℕ) (answers : Answers) (payload : Fields) (s : Server F)
      → HasNamedUser payload
      → Sound host s
      → Sound host (handle host now answers payload s).1
  unfolding handle expire_sessions
  handle-Sound now answers payload s a h =
      after_expiry-Sound now answers payload (expire_list host now s.sessions s) a
        (expire_list-Sound host now s.sessions s h)
