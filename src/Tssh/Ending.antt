-- ===== src/Tssh/Ending.antt =====
-- However a tssh session ends, it lets go of everything that it holds.
use re_remote_dev.Json.{Fields}
use re_remote_dev.Prelude.{
  Bool, List, Option, String, [], ap, arith, false, if_both, if◌then◌else◌, inl, inr, none, not,
  on_some, refl, some, suc, true, zero, ℕ, ◌||◌, ◌∷◌, ◌≡◌, ◌⊎◌,
}
use re_remote_dev.Prelude.Text.{is_empty}
use re_remote_dev.Result.{Result, err, ok}
use re_remote_dev.Tssh.{
  Try, exits, no_launch, preview_forward, stays, stop_preview_forward, try_forward, without,
}
use re_remote_dev.Tssh.Main.{
  Args, Course, Left, Local, interactive, let_go, main, plain, preview_payload, run_ssh,
  with_bridge, with_forward, with_lease,
}
use re_remote_dev.Tssh.Requests.{Caller, Said, acquire_payload, session_payload}

-- The reverse leg's process is all that runs.
abbrev pub IsAlone : Option (ℕ × ℕ) → List ℕ → Type 0
IsAlone none children = children ≡ []
IsAlone (some (pid, port)) children = children ≡ pid ∷ []

abbrev IsOwn : Option (ℕ × ℕ) × List ℕ → Type 0
IsOwn (forward, children) = IsAlone forward children

try_forward-IsOwn : (n : ℕ) (tries : List Try) → IsOwn (try_forward n tries [])
unfolding try_forward
try_forward-IsOwn zero tries = refl
try_forward-IsOwn (suc n) [] = refl
try_forward-IsOwn (suc n) (no_launch ∷ tries) = refl
try_forward-IsOwn (suc n) (stays pid random ∷ tries) = refl
try_forward-IsOwn (suc n) (exits random ∷ tries) = try_forward-IsOwn n tries

preview_forward-IsOwn : (can : Bool) (tries : List Try) → IsOwn (preview_forward can tries [])
unfolding preview_forward
preview_forward-IsOwn true tries = try_forward-IsOwn 8 tries
preview_forward-IsOwn false tries = refl

stop_alone :
    (forward : Option (ℕ × ℕ)) (children : List ℕ)
    → IsAlone forward children
    → stop_preview_forward forward children ≡ []
unfolding stop_preview_forward without
stop_alone none children h = h
stop_alone (some (pid, port)) children h = rw h (ground arith)

module _ (quote : String → String) (c : Caller) (args : Args) (course : Course) where
  -- With a reverse leg its port was registered for the bridge, after the requests sent before.
  abbrev IsSent : Option (ℕ × ℕ) → Result (String × String × ℕ) → List Fields → List Fields → Type 0
  IsSent none bridge sent asked = asked ≡ sent
  IsSent (some (pid, port)) (err e) sent asked = ⊥
  IsSent (some (pid, port)) (ok (digest, nonce, local_port)) sent asked =
      asked ≡ preview_payload c digest nonce local_port port ∷ sent

  abbrev Owned : Result (String × String × ℕ) → List Fields → Left → Type 0
  Owned bridge sent (status, forward, w) =
      IsAlone forward w.children × IsSent forward bridge sent w.asked

  with_forward-Owned :
      (digest nonce : String) (port : ℕ) (made : Option (ℕ × ℕ) × List ℕ) (w : Local)
      → IsOwn made
      → Owned
          (ok (digest, nonce, port))
          w.asked
          (with_forward quote c args course digest nonce port made w)
  unfolding with_forward run_ssh
  with_forward-Owned digest nonce port (some (pid, remote), children) w h = (h, refl)
  with_forward-Owned digest nonce port (none, children) w h = (h, refl)

  with_bridge-Owned :
      (bridge : Result (String × String × ℕ)) (w : Local)
      → w.children ≡ []
      → Owned bridge w.asked (with_bridge quote c args course bridge w)
  unfolding with_bridge
  with_bridge-Owned (err e) w h = (h, refl)
  with_bridge-Owned (ok (digest, nonce, port)) w h =
      with_forward-Owned digest nonce port
        (if plain args.ssh_args
          then preview_forward can course.tries w.children
          else (none, w.children))
        w (if_both IsOwn (plain args.ssh_args) (rw h (preview_forward-IsOwn can course.tries)) h)
    where
      can : Bool
      can = on_some course.has_agent (λ file. not (is_empty file) || course.has_agent) c.identity

  interactive-Owned :
      (prepared : Result (Unit {0})) (w : Local)
      → w.children ≡ []
      → Owned course.bridge w.asked (interactive quote c args course prepared w)
  unfolding interactive
  interactive-Owned (err e) w h = (h, refl)
  interactive-Owned (ok u) w h =
      with_bridge-Owned course.bridge (record w { downloads_open = true; bridge_open = true }) h

  with_lease-Owned :
      (acquired : Result Said) (w : Local)
      → w.children ≡ []
      → Owned course.bridge w.asked (with_lease quote c args course acquired w)
  unfolding with_lease
  with_lease-Owned (err e) w h = (h, refl)
  with_lease-Owned (ok r) w h =
      let w1 : Local = record w { beating = true } in
      if_both (Owned course.bridge w.asked) (not r.fine) (h, refl)
        (if_both (Owned course.bridge w.asked) r.degraded (h, refl)
          (if_both (Owned course.bridge w.asked) c.persistent_run (h, refl)
            (interactive-Owned course.prepared w1 h)))

  -- What stands between the acquire and the release: nothing, or one registration of the bridge.
  abbrev pub Between : Result (String × String × ℕ) → List Fields → List Fields → Type 0
  Between (err e) sent asked = asked ≡ session_payload "release" c ∷ sent
  Between (ok (digest, nonce, local_port)) sent asked =
      (asked ≡ session_payload "release" c ∷ sent)
      ⊎ ((port : ℕ) × (asked
            ≡ session_payload "release" c ∷ preview_payload c digest nonce local_port port ∷ sent))

  IsSent-Between :
      (forward : Option (ℕ × ℕ)) (bridge : Result (String × String × ℕ)) (sent asked : List Fields)
      → IsSent forward bridge sent asked
      → Between bridge sent (session_payload "release" c ∷ asked)
  IsSent-Between none (err e) sent asked h = ap (λ l. session_payload "release" c ∷ l) h
  IsSent-Between none (ok (digest, nonce, port)) sent asked h =
      inl (ap (λ l. session_payload "release" c ∷ l) h)
  IsSent-Between (some (pid, port)) (err e) sent asked h = elim h [ ]
  IsSent-Between (some (pid, port)) (ok (digest, nonce, local_port)) sent asked h =
      inr (port, ap (λ l. session_payload "release" c ∷ l) h)

  -- Whatever the requests, the tries of the reverse leg, the bridge and ssh do: a session that starts
  -- with no process of its own ends with none, and what its main thread has asked is the acquire, then at
  -- most one registration of the bridge, which has started, and at last the release of its lease.
  pub main-lets_go :
      (w : Local)
      → w.children ≡ []
      → let t = (main quote c args course w).1 in
        (t.children ≡ []) × Between course.bridge (acquire_payload c ∷ w.asked) t.asked
  unfolding main let_go
  main-lets_go w h =
      go (with_lease quote c args course course.acquired w1) (with_lease-Owned course.acquired w1 h)
    where
      w1 : Local
      w1 = record w { asked = acquire_payload c ∷ w.asked }

      go :
          (left : Left)
          → Owned course.bridge w1.asked left
          → let t = (let_go quote c args course left).1 in
            (t.children ≡ []) × Between course.bridge w1.asked t.asked
      go (status, forward, v) (alone, asked) = (
        stop_alone forward v.children alone,
        IsSent-Between forward course.bridge w1.asked v.asked asked,
      )
