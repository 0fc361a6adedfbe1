-- ===== src/Proxy/Lifetime.antt =====
-- The ssh process of a temporary proxy.
use re_remote_dev.Prelude.{
  Bool, List, Option, String, [], any, arith, eqb, if_both, none, not, refl, some, true, ℕ, ◌==◌,
  ◌∷◌, ◌≡◌, ◌≤◌,
}
use re_remote_dev.Proxy.{
  Attempt, ReverseProxyTunnel, command, ended, launch, ssh_reverse_forward_args, start,
  start_available, start_valid, stop, validate,
}
use re_remote_dev.Result.{Result, err, failed, ok}

abbrev pub absent : ℕ → List ℕ → Bool
absent pid running = not (any (λ p. eqb p pid) running)

-- No process of the number that a Popen gives, if it gives one.
abbrev pub absent_if : Result ℕ → List ℕ → Bool
absent_if (ok pid) running = absent pid running
absent_if (err e) running = true

ended-absent :
    (pid : ℕ) (running : List ℕ) → absent pid running ≡ true → ended pid running ≡ running
unfolding ended
ended-absent pid [] h = refl
ended-absent pid (p ∷ ps) h = ground (arith, ended-absent pid ps)

-- A start leaves the processes as they were, or adds one that the tunnel knows.
abbrev Kept : List ℕ → Result (Unit {0}) × ReverseProxyTunnel × List ℕ → Type 0
Kept running (result, t, after) = stop t after ≡ running

module _ (t : ReverseProxyTunnel) (a : Attempt) (running : List ℕ)
    (fresh : absent_if a.pid running ≡ true) (new : t.process ≡ none) where
  unstarted : (result : Result (Unit {0})) → Kept running (result, t, running)
  unfolding stop
  unstarted result = rw new refl

  launch-Kept : Kept running (launch t a running)
  unfolding launch stop
  launch-Kept = go a.pid a.ends fresh
    where
      eqb_self : (n : ℕ) → eqb n n ≡ true
      eqb_self n = ground arith

      go :
          (pid : Result ℕ) (ends : Option String)
          → absent_if pid running ≡ true
          → Kept running (launch t (record a { pid = pid; ends = ends }) running)
      go (err e) ends f = unstarted (err e)
      go (ok pid) none f = unfold ended in rw (eqb_self pid) (ended-absent pid running f)
      go (ok pid) (some detail) f = ended-absent pid running f

  start_available-Kept :
      (args : Result (List String)) → Kept running (start_available t a running args)
  unfolding start_available
  start_available-Kept (err e) = unstarted (err e)
  start_available-Kept (ok args) = launch-Kept

  start_valid-Kept : (valid : Result (Unit {0})) → Kept running (start_valid t a running valid)
  unfolding start_valid
  start_valid-Kept (err e) = unstarted (err e)
  start_valid-Kept (ok u) = if_both (Kept running) (t.settings.mode == "off") (unstarted (ok tt)) (
      if_both (Kept running) (not a.available)
        (if_both (Kept running) (t.settings.mode == "required")
          (unstarted (err (failed "执行端临时 HTTP 代理不可用"))) (unstarted (ok tt)))
        (start_available-Kept (command t)))

-- After a start of a new tunnel, whatever it met and also where it raised, a stop leaves the ssh
-- processes that ran before, and no other.
pub start_stop-processes :
    (t : ReverseProxyTunnel) (a : Attempt) (running : List ℕ)
    → t.process ≡ none
    → absent_if a.pid running ≡ true
    → let after = start t a running in stop after.1 after.2 ≡ running
unfolding start
start_stop-processes t a running new fresh =
    start_valid-Kept t a running fresh new (validate t.settings)

-- A command line is built only for a remote port in the declared range, from 1024 to 65535.
pub command-ports :
    (t : ReverseProxyTunnel) (args : List String)
    → command t ≡ ok args
    → (t.settings.remote_port_min ≤ t.remote_port)
      × (t.remote_port ≤ t.settings.remote_port_max)
      × (1024 ≤ t.remote_port)
      × (t.remote_port ≤ 65535)
unfolding command ssh_reverse_forward_args validate
command-ports t args e = ground arith
