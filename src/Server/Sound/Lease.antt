-- ===== src/Server/Sound/Lease.antt =====
-- A lease request keeps the tables sound: what it names is well formed once it is parsed.
use re_remote_dev.Dict.{get}
use re_remote_dev.Json.{Fields, Json, get_field, obj, short_text, str}
use re_remote_dev.Model.{EndpointKey, endpoint_digest, in_port_range, make_endpoint}
use re_remote_dev.Prelude.{
  Option, String, arith, false, if_both, leb, none, refl, some, true, ℕ, ◌==◌, ◌≡◌,
}
use re_remote_dev.Prelude.Int.{negsuc, pos, ℤ}
use re_remote_dev.Prelude.Text.{is_blank, is_empty, len}
use re_remote_dev.Result.{>>=-eq-ok, Result, err, ok}
use re_remote_dev.Server.{Host, Outcome, Server, Session}
use re_remote_dev.Server.Lease.{
  LeaseOp, handle_lease, lease_parsed, op_acquire, op_heartbeat, op_release, run_lease,
}
use re_remote_dev.Server.Parse.{
  endpoint_of, hostname_of, or_raise, parse_endpoint, parse_session_id, port_of,
}
use re_remote_dev.Server.Release.{heartbeat, heartbeat_session}
use re_remote_dev.Server.Sound.Acquire.{acquire-Sound}
use re_remote_dev.Server.Sound.Defs.{HasNamedUser, IsEndpoint, IsName, Sound}
use re_remote_dev.Server.Sound.Join.{refresh-IsSound}
use re_remote_dev.Server.Sound.Release.{release-Sound}

-- A text that `short_text` accepts is not empty and not too long.
short_text-eq-some :
    (n : ℕ) (v : Option Json) (s : String)
    → short_text n v ≡ some s
    → (is_empty s ≡ false) × (leb (len s) n ≡ true)
short_text-eq-some n (some (str t)) s h = ground arith
short_text-eq-some n v s h = absurd (ground arith)

make_endpoint-eq-ok :
    (hostname : String) (port : ℤ) (e : EndpointKey)
    → make_endpoint hostname port ≡ ok e
    → (e.hostname ≡ hostname) × (is_blank e.hostname ≡ false) × (in_port_range e.port ≡ true)
unfolding make_endpoint
make_endpoint-eq-ok hostname (pos n) e h = ground arith
make_endpoint-eq-ok hostname (negsuc n) e h = absurd (ground arith)

or_raise-eq-ok :
    {A : Type 0} (text : String) (o : Option A) (a : A) → or_raise text o ≡ ok a → o ≡ some a
unfolding or_raise
or_raise-eq-ok text none a h = cc
or_raise-eq-ok text (some b) a h = cc

endpoint_of-IsEndpoint : (v : Option Json) (e : EndpointKey) → endpoint_of v ≡ ok e → IsEndpoint e
unfolding endpoint_of
endpoint_of-IsEndpoint (some (obj value)) e h =
    let (hostname, h1, rest) =
      >>=-eq-ok (or_raise "endpoint.hostname 无效" (short_text 253 (hostname_of value))) _ e h in
    let (port, _, made) = >>=-eq-ok (port_of (get_field "port" value)) _ e rest in
    let (same_host, nonblank, in_range) = make_endpoint-eq-ok hostname port e made in
    let (nonempty, fits) =
      short_text-eq-some 253 (hostname_of value) hostname
        (or_raise-eq-ok "endpoint.hostname 无效" _ hostname h1) in
    (rw same_host nonempty, rw same_host fits, nonblank, in_range)
endpoint_of-IsEndpoint v e h = cc

parse_session_id-IsName :
    (payload : Fields) (sid : String) → parse_session_id payload ≡ ok sid → IsName sid
unfolding parse_session_id
parse_session_id-IsName payload sid h =
    short_text-eq-some 128 (get_field "session_id" payload) sid
      (or_raise-eq-ok "session_id 无效" (short_text 128 (get_field "session_id" payload)) sid h)

-- What an acquire asks of its request.
abbrev pub IsAdmissible : LeaseOp → Fields → Type 0
IsAdmissible op_acquire payload = HasNamedUser payload
IsAdmissible op_heartbeat payload = Unit
IsAdmissible op_release payload = Unit

module _ {F : Type 0} (host : Host F) where
  heartbeat_session-Sound :
      (now : ℕ) (digest sid : String) (s : Server F) (o : Option Session)
      → get sid s.sessions ≡ o
      → Sound host s
      → Sound host (heartbeat_session now digest sid s o).1
  unfolding heartbeat_session
  heartbeat_session-Sound now digest sid s none e h = h
  heartbeat_session-Sound now digest sid s (some x) e h =
      if_both (λ (o : Outcome × Server F). Sound host o.1) (x.endpoint_digest == digest)
        (refresh-IsSound host.sha256 sid x (record x { last_seen = now }) s.endpoints s.sessions e
          refl refl h)
        h

  run_lease-Sound :
      (op : LeaseOp) (now : ℕ) (endpoint : EndpointKey) (sid : String) (payload : Fields)
      (s : Server F)
      → IsEndpoint endpoint
      → IsName sid
      → IsAdmissible op payload
      → Sound host s
      → Sound host (run_lease host op now endpoint sid payload s).1
  unfolding run_lease heartbeat
  run_lease-Sound op_acquire now endpoint sid payload s v n a h =
      acquire-Sound host now endpoint sid payload s v n a h
  run_lease-Sound op_heartbeat now endpoint sid payload s v n a h =
      heartbeat_session-Sound now (endpoint_digest host.sha256 endpoint) sid s (get sid s.sessions)
        refl h
  run_lease-Sound op_release now endpoint sid payload s v n a h =
      release-Sound host now endpoint (endpoint_digest host.sha256 endpoint) sid s v h

  lease_parsed-Sound :
      (op : LeaseOp) (now : ℕ) (payload : Fields) (s : Server F) (e : Result EndpointKey)
      (i : Result String)
      → parse_endpoint payload ≡ e
      → parse_session_id payload ≡ i
      → IsAdmissible op payload
      → Sound host s
      → Sound host (lease_parsed host op now payload s e i).1
  unfolding lease_parsed parse_endpoint
  lease_parsed-Sound op now payload s (err exc) i q p a h = h
  lease_parsed-Sound op now payload s (ok endpoint) (err exc) q p a h = h
  lease_parsed-Sound op now payload s (ok endpoint) (ok sid) q p a h =
      run_lease-Sound op now endpoint sid payload s
        (endpoint_of-IsEndpoint (get_field "endpoint" payload) endpoint q)
        (parse_session_id-IsName payload sid p) a h

  -- Every lease request keeps the tables sound.
  pub handle_lease-Sound :
      (op : LeaseOp) (now : ℕ) (payload : Fields) (s : Server F)
      → IsAdmissible op payload
      → Sound host s
      → Sound host (handle_lease host op now payload s).1
  unfolding handle_lease
  handle_lease-Sound op now payload s a h =
      lease_parsed-Sound op now payload s (parse_endpoint payload) (parse_session_id payload) refl
        refl a h
