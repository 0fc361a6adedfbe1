-- ===== src/Managed/Supervised.antt =====
-- What the supervision of a managed session keeps from turn to turn.
use re_remote_dev.Managed.{
  ManagedSession, Run, StopAnswers, World, fails, raises, start, stop, stop_forward, stop_master,
  succeeds,
}
use re_remote_dev.Managed.Children.{
  Accounted, Held, clean_up-Held, own, start-Accounted, stop_forwards-Held,
}
use re_remote_dev.Managed.Serve.{
  Probe, Supervision, Turn, alive, back_off, beat, count_failures, forwarding_ok, go_on, gone,
  inconclusive, longest, loop, recover, restart_after, restarted, serve, settle, shortest,
  supervise, turn,
}
use re_remote_dev.Prelude.{
  Bool, List, Option, String, [], arith, false, if_both, inl, inr, leb, none, some, true, ◌<◌, ◌∷◌,
  ◌≡◌, ◌≤◌,
}
use re_remote_dev.Result.{Result, err, failed, invalid, ok}

-- The variables of the loop between two turns: the processes are the session's or none, and the pause
-- after the next failed recovery lies between 5 and 300 seconds.
pub record IsSupervised (v : Supervision) : Type 0 where
  pub held : Held v.session v.world
  pub bounded : (shortest ≤ v.backoff) × (v.backoff ≤ longest)

abbrev Kept : Result (Unit {0}) × Supervision → Type 0
Kept (r, v) = IsSupervised v

beat-IsSupervised :
    (t : Turn) (up : Bool) (v : Supervision) → IsSupervised v → IsSupervised (beat t up v)
unfolding beat
beat-IsSupervised t up v h =
    if_both IsSupervised (leb v.next_heartbeat t.now)
      (record { held = h.held; bounded = h.bounded }) h

count_failures-IsSupervised :
    (p : Probe) (up : Bool) (v : Supervision)
    → IsSupervised v
    → IsSupervised (count_failures p up v)
unfolding count_failures
count_failures-IsSupervised alive true v h = record { held = h.held; bounded = ground arith }
count_failures-IsSupervised inconclusive true v h = h
count_failures-IsSupervised gone true v h = record { held = h.held; bounded = h.bounded }
count_failures-IsSupervised alive false v h = record { held = h.held; bounded = h.bounded }
count_failures-IsSupervised inconclusive false v h = record { held = h.held; bounded = h.bounded }
count_failures-IsSupervised gone false v h = record { held = h.held; bounded = h.bounded }

restarted-IsSupervised :
    (v : Supervision) (r : Result ManagedSession × World)
    → IsSupervised v
    → Accounted r
    → Kept (restarted v r)
unfolding restarted back_off
restarted-IsSupervised v (ok session, w) h a = record { held = inl a; bounded = ground arith }
restarted-IsSupervised v (err (failed d), w) h a =
    let (low, high) = h.bounded in record { held = inr a; bounded = ground arith }
restarted-IsSupervised v (err (invalid d), w) h a = record { held = inr a; bounded = h.bounded }

restart_after-IsSupervised :
    (t : Turn) (identity : String) (v : Supervision) (r : Run) (w : World)
    → IsSupervised v
    → w.children ≡ []
    → Kept (restart_after t identity v (stop_master r w))
unfolding restart_after stop_master
restart_after-IsSupervised t identity v succeeds w h e =
    let w1 : World = record w { master = false } in
    restarted-IsSupervised v (start t.restart v.session.target identity w1) h
      (start-Accounted t.restart v.session.target identity w1 e)
restart_after-IsSupervised t identity v (fails d) w h e =
    restarted-IsSupervised v (start t.restart v.session.target identity w) h
      (start-Accounted t.restart v.session.target identity w e)
restart_after-IsSupervised t identity v (raises d) w h e =
    restarted-IsSupervised v (err (failed d), w) h e

recover-IsSupervised :
    (t : Turn) (v : Supervision) (identity : Option String)
    → IsSupervised v
    → Kept (recover t v identity)
unfolding recover
recover-IsSupervised t v none h = record { held = h.held; bounded = h.bounded }
recover-IsSupervised t v (some identity) h =
    restart_after-IsSupervised t identity v t.stop_master
      (stop_forward v.session.proxy_forward (stop_forward v.session.event_forward v.world)) h
      (stop_forwards-Held v.session v.world h.held)

settle-IsSupervised : (t : Turn) (v : Supervision) → IsSupervised v → Kept (settle t v)
unfolding settle
settle-IsSupervised t v h =
    if_both Kept (leb 3 v.failures) (recover-IsSupervised t v v.session.identity_file h)
      (record { held = h.held; bounded = h.bounded })

-- A turn keeps two facts: the processes are those of the session or none, and the pause after the next
-- failed recovery lies between 5 and 300 seconds.
pub turn-IsSupervised : (t : Turn) (v : Supervision) → IsSupervised v → IsSupervised (turn t v).1
unfolding turn
turn-IsSupervised t v h = settle-IsSupervised t _ (
    count_failures-IsSupervised t.probe (forwarding_ok t v.session) _
      (beat-IsSupervised t (forwarding_ok t v.session) v h))

go_on-IsSupervised :
    (p : Result (Unit {0}) × Supervision) (rest : Supervision → Result (Unit {0}) × Supervision)
    → IsSupervised p.1
    → ((v : Supervision) → IsSupervised v → IsSupervised (rest v).1)
    → IsSupervised (go_on p rest).1
go_on-IsSupervised (ok _, v) rest h k = k v h
go_on-IsSupervised (err exc, v) rest h k = h

loop-IsSupervised : (ts : List Turn) (v : Supervision) → IsSupervised v → IsSupervised (loop ts v).1
unfolding loop
loop-IsSupervised [] v h = h
loop-IsSupervised (t ∷ ts) v h =
    go_on-IsSupervised (turn t v) (loop ts) (turn-IsSupervised t v h) (loop-IsSupervised ts)

-- If the two forwarders of the session are all the processes that run at first, then none runs when
-- `serve` has ended: neither they nor those of a session that a recovery put in its place, whatever
-- the turns and the last stop met.
pub serve-children :
    (ts : List Turn) (a : StopAnswers) (session : ManagedSession) (w : World)
    → w.children ≡ own session
    → (serve ts a session w).children ≡ []
unfolding serve stop supervise
serve-children ts a session w h =
    let v = loop ts (supervise session w) in
    clean_up-Held v.1.session a.clear_nonce a.stop_master v.1.world
      (loop-IsSupervised ts (supervise session w)
        (record { held = inl h; bounded = ground arith })).held

-- With fewer than three failures so far and both forwarders running, a control probe that only timed
-- out leaves the session, its processes and the number of failures as they are.
pub turn_inconclusive :
    (t : Turn) (v : Supervision)
    → t.probe ≡ inconclusive
    → forwarding_ok t v.session ≡ true
    → v.failures < 3
    → let out = turn t v in
      (out.1.session ≡ v.session) × (out.1.world ≡ v.world) × (out.1.failures ≡ v.failures)
unfolding turn settle count_failures beat
turn_inconclusive t v p f n = ground arith
