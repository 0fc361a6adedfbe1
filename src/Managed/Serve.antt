-- ===== src/Managed/Serve.antt =====
-- `SessionManager.serve` of orchestrator/session.py, one turn of its loop at a time. Times are milliseconds.
use re_remote_dev.Managed.{
  ManagedSession, Run, StartAnswers, StopAnswers, World, start, stop, stop_forward, stop_master,
}
use re_remote_dev.Prelude.{
  Bool, List, Option, String, [], false, if◌then◌else◌, leb, min, none, some, true, ℕ, ◌&&◌, ◌*◌,
  ◌+◌, ◌∷◌,
}
use re_remote_dev.Result.{Result, err, failed, invalid, ok}

-- self.master.check: alive, gone, or no answer in time
pub data Probe : Type 0 where
  alive gone inconclusive : Probe

-- What one turn of the loop meets. `proxy_runs` and `event_runs` are `process.poll() is None`.
pub record Turn : Type 0 where
  pub now : ℕ
  pub probe : Probe
  pub proxy_runs : Bool
  pub event_runs : Bool
  pub stop_master : Run
  pub restart : StartAnswers

-- The variables of `serve`. `slept` is how long the last turn slept, `heartbeats` what the registrations
-- said of the forwards, newest first.
pub record Supervision : Type 0 where
  pub session : ManagedSession
  pub failures : ℕ
  pub backoff : ℕ
  pub next_heartbeat : ℕ
  pub slept : ℕ
  pub heartbeats : List Bool
  pub world : World

abbrev pub longest : ℕ
longest = 300000

abbrev pub shortest : ℕ
shortest = 5000

unfoldable pub runs : Option ℕ → Bool → Bool
runs none up = false
runs (some pid) up = up

unfoldable pub forwarding_ok : Turn → ManagedSession → Bool
unfolding runs
forwarding_ok t session =
    runs session.proxy_forward t.proxy_runs && runs session.event_forward t.event_runs

-- A registration every 20 seconds, whose failure is passed over.
unfoldable pub beat : Turn → Bool → Supervision → Supervision
beat t up v =
    if leb v.next_heartbeat t.now
    then record v { heartbeats = up ∷ v.heartbeats; next_heartbeat = t.now + 20000 }
    else v

-- The failures in a row after this turn's probes.
unfoldable pub count_failures : Probe → Bool → Supervision → Supervision
count_failures alive true v = record v { failures = 0; backoff = shortest }
count_failures inconclusive true v = v
count_failures gone true v = record v { failures = v.failures + 1 }
count_failures probe false v = record v { failures = v.failures + 1 }

-- time.sleep(min(backoff, 300.0)); backoff = min(backoff * 2.0, 300.0)
unfoldable pub back_off : World → Supervision → Supervision
back_off w v = record v {
  world = w;
  slept = min v.backoff longest;
  backoff = min (v.backoff * 2) longest;
}

-- An OSError, a RuntimeError or a SubprocessError is waited out, any other exception ends the loop.
unfoldable pub restarted :
    Supervision → Result ManagedSession × World → Result (Unit {0}) × Supervision
unfolding back_off
restarted v (ok session, w) =
    (ok tt, record v { session = session; failures = 0; backoff = shortest; slept = 0; world = w })
restarted v (err (failed detail), w) = (ok tt, back_off w v)
restarted v (err (invalid detail), w) = (err (invalid detail), record v { world = w })

unfoldable pub restart_after :
    Turn → String → Supervision → Result (Unit {0}) × World → Result (Unit {0}) × Supervision
unfolding restarted
restart_after t identity v (ok _, w) = restarted v (start t.restart v.session.target identity w)
restart_after t identity v (err exc, w) = restarted v (err exc, w)

unfoldable pub recover : Turn → Supervision → Option String → Result (Unit {0}) × Supervision
unfolding restart_after
recover t v none = (ok tt, record v { slept = min v.backoff longest })
recover t v (some identity) = restart_after t identity v (
    stop_master t.stop_master
      (stop_forward v.session.proxy_forward (stop_forward v.session.event_forward v.world)))

-- The last part of a turn: recovery after three failures in a row, else a pause of five seconds.
unfoldable pub settle : Turn → Supervision → Result (Unit {0}) × Supervision
unfolding recover
settle t v =
    if leb 3 v.failures
    then recover t v v.session.identity_file
    else (ok tt, record v { slept = 5000 })

unfoldable pub turn : Turn → Supervision → Result (Unit {0}) × Supervision
unfolding settle
turn t v =
    settle t
      (count_failures t.probe (forwarding_ok t v.session) (beat t (forwarding_ok t v.session) v))

abbrev pub go_on :
    Result (Unit {0}) × Supervision
    → (Supervision → Result (Unit {0}) × Supervision)
    → Result (Unit {0}) × Supervision
go_on (ok _, v) rest = rest v
go_on (err exc, v) rest = (err exc, v)

-- The loop until a signal, which comes after the given turns, or until an exception.
unfoldable pub loop : List Turn → Supervision → Result (Unit {0}) × Supervision
loop [] v = (ok tt, v)
loop (t ∷ ts) v = go_on (turn t v) (loop ts)

unfoldable pub supervise : ManagedSession → World → Supervision
supervise session w = record {
  session = session;
  failures = 0;
  backoff = shortest;
  next_heartbeat = 0;
  slept = 0;
  heartbeats = [];
  world = w;
}

-- serve(session): the loop, then `stop` in any case
unfoldable pub serve : List Turn → StopAnswers → ManagedSession → World → World
unfolding loop stop supervise
serve ts a session w = let v = (loop ts (supervise session w)).1 in (stop v.session a v.world).1
