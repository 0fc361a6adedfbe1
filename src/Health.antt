-- ===== src/Health.antt =====
-- orchestrator/health.py: the retry delays and the classes of forwarding failures. Delays are in
-- milliseconds. `search` stands for `re.search(pattern, text) is not None` and `lower` for `str.lower`.
use re_remote_dev.Prelude.{
  Bool, List, String, [], arith, if◌then◌else◌, length, max, min, suc, zero, ℕ, ◌*◌, ◌-◌, ◌∷◌, ◌≤◌,
}

abbrev pub retry_delays : List ℕ
retry_delays = 5 ∷ 10 ∷ 20 ∷ 40 ∷ 80 ∷ 160 ∷ 300 ∷ []

nth_or : ℕ → ℕ → List ℕ → ℕ
nth_or default i [] = default
nth_or default zero (x ∷ xs) = x
nth_or default (suc i) (x ∷ xs) = nth_or default i xs

abbrev pub seconds : ℕ → ℕ
seconds n = n * 1000

-- RETRY_DELAYS[min(max(failures, 1) - 1, len(RETRY_DELAYS) - 1)]
unfoldable pub retry_delay : ℕ → ℕ
unfolding nth_or
retry_delay failures =
    seconds (nth_or 0 (min (max failures 1 - 1) (length retry_delays - 1)) retry_delays)

pub data FailureClass : Type 0 where
  ssh_auth_failed forwarding_denied remote_port_busy remote_unreachable : FailureClass
  local_proxy_unavailable forwarder_failed : FailureClass

abbrev pub auth_pattern : String
auth_pattern = "permission denied|publickey|authentication"

abbrev pub denied_pattern : String
denied_pattern = "administratively prohibited|forwarding.*denied|open failed"

abbrev pub busy_pattern : String
busy_pattern =
    "address already in use|cannot listen|port.*busy|remote port forwarding failed|remote 4227 .*占用|4227.*占用|占用.*4227"

abbrev pub unreachable_pattern : String
unreachable_pattern = "timed out|connection refused|network is unreachable|no route|unreachable"

abbrev pub proxy_pattern : String
proxy_pattern = "proxy.*(unavailable|refused)|4227"

module _ (search : String → String → Bool) (lower : String → String) where
  unfoldable pub classify_failure : String → FailureClass
  classify_failure message =
      let text = lower message in
      if search auth_pattern text
      then ssh_auth_failed
      else if search denied_pattern text
      then forwarding_denied
      else if search busy_pattern text
      then remote_port_busy
      else if search unreachable_pattern text
      then remote_unreachable
      else if search proxy_pattern text
      then local_proxy_unavailable
      else forwarder_failed

-- The delay does not shrink with the number of failures and stays between 5 and 300 seconds.
pub retry_delay-mono_bounds :
    (m n : ℕ)
    → m ≤ n
    → (seconds 5 ≤ retry_delay m) × (retry_delay m ≤ retry_delay n) × (retry_delay n ≤ seconds 300)
unfolding retry_delay
retry_delay-mono_bounds m n h = ground arith
