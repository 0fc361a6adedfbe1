-- ===== src/Tssh.antt =====
-- tssh.py: the destination, the ssh command line, the preview's
-- reverse leg and the requests of a session. The numbers of processes stand for their handles.
pub mod Requests
pub mod Payloads
pub mod Keeping
pub mod Main
pub mod Ending
use Prim.Native.Char.{code}
use re_remote_dev.Prelude.{
  Bool, List, Option, String, [], any, eqb, get_or, if◌then◌else◌, map, none, some, suc, zero, ℕ,
  ◌%◌, ◌++◌, ◌+◌, ◌||◌, ◌∷◌,
}
use re_remote_dev.Prelude.Text.{codes, decimal, is_empty, is_space}
use re_remote_dev.Result.{Result, err, invalid, ok}
use mathlib.Core.Option

-- value.split(c, 1), where the character is there
unfoldable pub cut : ℕ → String → Option (String × String)
cut at String.[] = none
cut at (String.◌∷◌ c s) =
    if eqb (code c) at
    then some (String.[], s)
    else Option.map (λ (p : String × String). (String.◌∷◌ c p.0, p.1)) (cut at s)

-- any(char.isspace() for char in s)
abbrev pub has_space : String → Bool
has_space s = any is_space (codes s)

unfoldable pub checked_destination : String × String → Result (String × String)
checked_destination (user, host) =
    if is_empty user || is_empty host || has_space user || has_space host
    then err (invalid "目标必须是 user@host 或 host")
    else ok (user, host)

-- _parse_destination(value), with os.environ.get("USER", "unknown")
unfoldable pub parse_destination : String → String → Result (String × String)
unfolding checked_destination cut
parse_destination login value = checked_destination (get_or (cut b'@' value) (login, value))

-- `-i identity`, if there is one
abbrev pub identity_args : Option String → List String
identity_args none = []
identity_args (some file) = if is_empty file then [] else "-i" ∷ file ∷ []

-- `-p port`, if it is not 22
unfoldable pub port_args : ℕ → List String
port_args port = if eqb port 22 then [] else "-p" ∷ decimal port ∷ []

-- _ssh_command(destination, identity, port, passthrough, remote_command)
unfoldable pub ssh_command : String → Option String → ℕ → List String → Option String → List String
unfolding port_args
ssh_command destination identity port passthrough none =
    "ssh" ∷ (identity_args identity ++ (port_args port ++ (destination ∷ passthrough)))
ssh_command destination identity port passthrough (some remote) =
    "ssh"
    ∷ (identity_args identity ++ (port_args port ++ ("-t" ∷ destination ∷ remote ∷ passthrough)))

-- One of the tries of the reverse leg: the random port, and what became of the ssh process.
pub data Try : Type 0 where
  no_launch : Try
  stays : ℕ → ℕ → Try
  exits : ℕ → Try

-- secrets.randbelow(20_000) + 40_000
abbrev pub remote_port_of : ℕ → ℕ
remote_port_of random = random % 20000 + 40000

-- The process and the remote port, and the processes that run. A process that has exited runs no longer.
unfoldable pub try_forward : ℕ → List Try → List ℕ → Option (ℕ × ℕ) × List ℕ
try_forward zero tries running = (none, running)
try_forward (suc n) [] running = (none, running)
try_forward (suc n) (no_launch ∷ tries) running = (none, running)
try_forward (suc n) (stays pid random ∷ tries) running =
    (some (pid, remote_port_of random), pid ∷ running)
try_forward (suc n) (exits random ∷ tries) running = try_forward n tries running

-- _preview_forward(...): eight tries, if there is an identity or an agent.
unfoldable pub preview_forward : Bool → List Try → List ℕ → Option (ℕ × ℕ) × List ℕ
unfolding try_forward
preview_forward can tries running = if can then try_forward 8 tries running else (none, running)

-- The processes but one.
unfoldable pub without : ℕ → List ℕ → List ℕ
without pid [] = []
without pid (p ∷ ps) = let rest = without pid ps in if eqb p pid then rest else p ∷ rest

-- _stop_preview_forward(forward): it has ended, or it is terminated and if need be killed.
unfoldable pub stop_preview_forward : Option (ℕ × ℕ) → List ℕ → List ℕ
unfolding without
stop_preview_forward none running = running
stop_preview_forward (some (pid, port)) running = without pid running
