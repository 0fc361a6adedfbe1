-- ===== src/Server/Table.antt =====
-- The lease table as a client sees it: which endpoint a session identifier is held at, and operations on
-- that table alone.
use re_remote_dev.Dict.{get, get-put, get-remove, put, remove}
use re_remote_dev.Prelude.{
  Bool, Bool-cases, Option, String, arith, eq_iff, false, if◌then◌else◌, inl, inr, none, on_some,
  refl, some, subst, true, ℕ, ◌&&◌, ◌==◌, ◌∙◌, ◌≡◌, ◌⊎◌,
}
use re_remote_dev.Result.{Result, err, ok}
use re_remote_dev.Server.{Server, Session}
use re_remote_dev.Server.Lease.{LeaseOp, op_acquire, op_heartbeat, op_release}
use mathlib.Core.Option

-- A lease table: the endpoint digest that a session identifier is held at.
abbrev pub Table : Type 0
Table = String → Option String

unfoldable pub held : {F : Type 0} → Server F → Table
held s sid = Option.map (λ (x : Session). x.endpoint_digest) (get sid s.sessions)

-- The abstract operations. `valid` says whether the request names a user.
unfoldable pub take_lease : Bool → String → String → Table → Table
take_lease valid digest sid table =
    on_some (λ j. if valid && sid == j then some digest else table j) (λ d. table) (table sid)

unfoldable pub give_back : String → String → Table → Table
give_back digest sid table j =
    on_some (table j) (λ d. if d == digest && sid == j then none else table j) (table sid)

unfoldable pub table_step : LeaseOp → Bool → String → String → Table → Table
unfolding take_lease give_back
table_step op_acquire valid digest sid table = take_lease valid digest sid table
table_step op_heartbeat valid digest sid table = table
table_step op_release valid digest sid table = give_back digest sid table

abbrev pub is_ok {ℓ} : {A : Type ℓ} → Result A → Bool
is_ok (ok a) = true
is_ok (err e) = false

pub held-sessions :
    {F : Type 0} (s t : Server F) (j : String) → t.sessions ≡ s.sessions → held t j ≡ held s j
unfolding held
held-sessions s t j e = rw e refl

-- A write of a session at an endpoint.
pub held-put :
    {F : Type 0} (s t : Server F) (sid j : String) (x : Session)
    → t.sessions ≡ put sid x s.sessions
    → held t j ≡ (if sid == j then some x.endpoint_digest else held s j)
unfolding held
held-put s t sid j x e = rw (e, get-put sid j x s.sessions) (ground arith)

pub held-remove :
    {F : Type 0} (s t : Server F) (sid j : String)
    → t.sessions ≡ remove sid s.sessions
    → held t j ≡ (if sid == j then none else held s j)
unfolding held
held-remove s t sid j e = rw (e, get-remove sid j s.sessions) (ground arith)

-- A refreshed session is held where it was.
pub held-refresh :
    {F : Type 0} (s t : Server F) (sid j : String) (x : Session) (now : ℕ)
    → get sid s.sessions ≡ some x
    → t.sessions ≡ put sid (record x { last_seen = now }) s.sessions
    → held t j ≡ held s j
unfolding held
held-refresh s t sid j x now f e =
    held-put s t sid j (record x { last_seen = now }) e ∙ same_key (Bool-cases (sid == j))
  where
    same_key :
        ((sid == j) ≡ true) ⊎ ((sid == j) ≡ false)
        → (if sid == j then some x.endpoint_digest else held s j) ≡ held s j
    same_key (inl y) =
        rw y (subst (λ k. some x.endpoint_digest ≡ held s k) ((eq_iff sid j).0 y) (rw f refl))
    same_key (inr n) = rw n refl
