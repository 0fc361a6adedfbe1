-- ===== src/Server/Faults.antt =====
-- A request that the handlers of orchestrator/server.py answer with an error after they have changed the
-- tables.
use re_remote_dev.Dict.{Dict, get, get-put_self, put}
use re_remote_dev.Json.{Fields, get_field, truthy_or}
use re_remote_dev.Model.{EndpointKey, in_port_range, make_target}
use re_remote_dev.Prelude.{
  Bool, Option, String, ap, arith, eq_iff, false, none, on_some, refl, some, true, ℕ, ◌+◌, ◌∙◌, ◌≡◌,
}
use re_remote_dev.Prelude.Int.{pos}
use re_remote_dev.Prelude.Text.{is_blank}
use re_remote_dev.Result.{err, invalid}
use re_remote_dev.Server.{EndpointRecord, Host, Server, Session, protocol_invalid, reply}
use re_remote_dev.Server.Accounts.{leases, leases-join}
use re_remote_dev.Server.Acquire.{acquire_new, register_new, with_identity}
use re_remote_dev.Server.Joining.{fresh_record, join_record, new_session}
use re_remote_dev.Server.Parse.{identity_file_of}

make_target-blank :
    (hostname : String) (port : ℕ) (user : String)
    → is_blank hostname ≡ false
    → in_port_range port ≡ true
    → is_blank user ≡ true
    → make_target hostname (pos port) user "" ≡ err (invalid "user 不能为空")
unfolding make_target
make_target-blank hostname port user v p b = rw (v, p, b)

new_session-identity :
    (digest user fingerprint : String) (now : ℕ) (payload : Fields)
    → (new_session digest user fingerprint now payload).identity_file ≡ identity_file_of payload
unfolding new_session
new_session-identity digest user fingerprint now payload = refl

leases-new :
    (digest sid user fingerprint : String) (now : ℕ) (payload : Fields) (ss : Dict Session)
    → get sid ss ≡ none
    → leases digest (put sid (new_session digest user fingerprint now payload) ss)
      ≡ leases digest ss + 1
unfolding new_session
leases-new digest sid user fingerprint now payload ss f = ground (
  arith,
  leases-join sid (new_session digest user fingerprint now payload) ss digest f,
  eq_iff digest digest,
)

-- The count in the record of an endpoint, which may have none.
abbrev pub counted : Option EndpointRecord → ℕ
counted = on_some 0 (λ r. r.session_count)

join_record-counted :
    (endpoint : EndpointKey) (digest : String) (event : Bool) (user : String)
    (existing : Option EndpointRecord)
    → (join_record endpoint digest event user existing).session_count ≡ counted existing + 1
unfolding join_record fresh_record
join_record-counted endpoint digest event user none = refl
join_record-counted endpoint digest event user (some r) = refl

module _ {F : Type 0} (host : Host F) where
  register_new-blank_user :
      (now : ℕ) (endpoint : EndpointKey) (digest user : String) (event : Bool) (r : EndpointRecord)
      (s : Server F) (file : String) (o : Option String)
      → is_blank endpoint.hostname ≡ false
      → in_port_range endpoint.port ≡ true
      → is_blank user ≡ true
      → o ≡ some file
      → register_new host now endpoint digest user event r s o
        ≡ (reply (protocol_invalid "user 不能为空"), s)
  unfolding register_new with_identity
  register_new-blank_user now endpoint digest user event r s file o v p b i =
      rw (i, make_target-blank endpoint.hostname endpoint.port user v p b) refl

  -- A new session at a valid endpoint whose user is only white space and that has an identity file is
  -- answered with PROTOCOL_INVALID, and yet it stands in the session table, is one more of the sessions
  -- there at its endpoint, and is counted in the record of its endpoint.
  pub acquire_new-blank_user :
      (now : ℕ) (endpoint : EndpointKey) (digest sid user fingerprint file : String)
      (payload : Fields) (s : Server F)
      → is_blank endpoint.hostname ≡ false
      → in_port_range endpoint.port ≡ true
      → is_blank user ≡ true
      → identity_file_of payload ≡ some file
      → get sid s.sessions ≡ none
      → let out = acquire_new host now endpoint digest sid user fingerprint payload s in
        (out.0 ≡ reply (protocol_invalid "user 不能为空"))
        × (get sid out.1.sessions ≡ some (new_session digest user fingerprint now payload))
        × (leases digest out.1.sessions ≡ leases digest s.sessions + 1)
        × (counted (get digest out.1.endpoints) ≡ counted (get digest s.endpoints) + 1)
  unfolding acquire_new
  acquire_new-blank_user now endpoint digest sid user fingerprint file payload s v p b i f =
      rw
        (register_new-blank_user now endpoint digest user event _ _ file session.identity_file v p b
          (new_session-identity digest user fingerprint now payload ∙ i))
        (
          refl,
          get-put_self sid session s.sessions,
          leases-new digest sid user fingerprint now payload s.sessions f,
          ap counted (get-put_self digest joined s.endpoints)
              ∙ join_record-counted endpoint digest event user (get digest s.endpoints),
        )
    where
      event : Bool
      event = truthy_or true (get_field "event_forward" payload)

      session : Session
      session = new_session digest user fingerprint now payload

      joined : EndpointRecord
      joined = join_record endpoint digest event user (get digest s.endpoints)
