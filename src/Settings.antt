-- ===== src/Settings.antt =====
-- lease_config.py: the timing settings, in milliseconds. `parse` stands for `float` of a text, `none` where
-- it raises, and `section` for the lookup in the file's section, which raises where an interpolation is
-- malformed. Floats are exact up to `limit`, the largest of them, and infinite beyond.
use re_remote_dev.Prelude.{
  Bool, Option, String, false, if◌then◌else◌, leb, ltb, none, some, suc, true, ℕ, ◌*◌, ◌<◌, ◌≡◌,
}
use re_remote_dev.Prelude.Int.{pos, ℤ}
use re_remote_dev.Result.{Result, ok, ◌>>=◌}

pub data Float : Type 0 where
  finite : ℤ → Float
  infinity minus_infinity nan : Float

-- A positive float.
pub data Duration : Type 0 where
  ms : ℕ → Duration
  forever : Duration

pub record LeaseSettings : Type 0 where
  pub heartbeat_interval : Duration
  pub lease_ttl : Duration

-- LeaseSettings()
abbrev pub default_heartbeat : ℕ
default_heartbeat = 1000

abbrev pub default_ttl : ℕ
default_ttl = 3000

-- value if value > 0 else fallback
unfoldable pub positive : Option Float → ℕ → Duration
positive (some (finite (pos (suc n)))) fallback = ms (suc n)
positive (some infinity) fallback = forever
positive value fallback = ms fallback

-- os.environ.get(..., section.get(name, str(fallback))), which looks into the section in either case
unfoldable pub number :
    (String → Option Float) → Option String → Result (Option String) → ℕ → Result Duration
unfolding positive
number parse environ section fallback = section >>= λ from_file. ok (elim environ [
  | some raw ↦ positive (parse raw) fallback
  | none ↦ elim from_file [ some raw ↦ positive (parse raw) fallback | none ↦ ms fallback ]
])

-- duration * k
unfoldable pub times : ℕ → ℕ → Duration → Duration
times limit k (ms n) = if ltb limit (n * k) then forever else ms (n * k)
times limit k forever = forever

-- a <= b
unfoldable pub lasts_at_most : Duration → Duration → Bool
lasts_at_most a forever = true
lasts_at_most forever (ms m) = false
lasts_at_most (ms n) (ms m) = leb n m

-- load(), over the environment and the section
unfoldable pub load :
    ℕ
    → (String → Option Float)
    → (String → Option String)
    → (String → Result (Option String))
    → Result LeaseSettings
unfolding number times lasts_at_most
load limit parse environ section =
    number parse (environ "TSSH_HEARTBEAT_INTERVAL") (section "heartbeat_interval")
      default_heartbeat
    >>= λ heartbeat.
        number parse (environ "TSSH_LEASE_TTL") (section "lease_ttl") default_ttl >>= λ ttl.
        ok (record {
          heartbeat_interval = heartbeat;
          lease_ttl =
              if lasts_at_most ttl (times limit 2 heartbeat) then times limit 3 heartbeat else ttl;
        })

-- The heartbeat is positive, and the lease outlives two of them: a lease without an end does so if the
-- heartbeat has one.
abbrev pub Tolerates : Duration → Duration → Type 0
Tolerates (ms h) (ms t) = (0 < h) × (h * 2 < t)
Tolerates (ms h) forever = 0 < h
Tolerates forever ttl = ttl ≡ forever

abbrev IsPositive : Duration → Type 0
IsPositive (ms n) = 0 < n
IsPositive forever = Unit
