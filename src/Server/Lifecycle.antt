-- ===== src/Server/Lifecycle.antt =====
-- `handle_event` of orchestrator/server.py: what a remote Codex process reports about itself. `answers`
-- is what the operating system would answer to the start of an OAuth forward.
use re_remote_dev.Dict.{Dict, get, put}
use re_remote_dev.Json.{Fields, Json, obj, truthy}
use re_remote_dev.Model.Status.{
  ForwardState, ForwardStatus, MasterState, OauthState, TargetStatus, new_forward_status,
}
use re_remote_dev.Oauth.{Answers, OauthSession, done, start}
use re_remote_dev.Prelude.{
  Bool, List, Option, String, [], any, false, if◌then◌else◌, leb, none, not, some, true, ℕ, ◌&&◌,
  ◌+◌, ◌-◌, ◌==◌, ◌||◌, ◌∷◌,
}
use re_remote_dev.Prelude.Int.{pos}
use re_remote_dev.Prelude.Text.{is_empty}
use re_remote_dev.Protocol.{Event, codex_exit, codex_oauth_url, codex_start, decode_event}
use re_remote_dev.Result.{Result, err, ok}
use re_remote_dev.Server.{Reply, Server, event_done, message, protocol_invalid, unknown_target}
use re_remote_dev.Server.Release.{finish_oauth}
use re_remote_dev.Oauth

-- target in set, set.add(target), set.discard(target)
abbrev pub member : String → List String → Bool
member k xs = any (λ x. x == k) xs

unfoldable pub discard : String → List String → List String
discard k [] = []
discard k (x ∷ xs) = let rest = discard k xs in if x == k then rest else x ∷ rest

has_key : {V : Type 0} → String → Dict V → Bool
has_key k d = elim (get k d) [ none ↦ false | some v ↦ true ]

oauth_ready : OauthSession → ForwardStatus
oauth_ready session = record (new_forward_status "oauth") {
  state = ForwardState.ready;
  pid = elim session.forward [ none ↦ none | some pid ↦ some (pos pid) ];
  local_port = some (pos session.local_port);
  remote_port = some (pos session.remote_port);
}

oauth_failed : String → ForwardStatus
oauth_failed detail = record (new_forward_status "oauth") {
  state = ForwardState.failed;
  last_error = some detail;
}

-- The OAuth state and forward that a start leaves in the target's status.
after_oauth : OauthState → ForwardStatus → Oauth.Outcome OauthSession → OauthState × ForwardStatus
unfolding oauth_ready oauth_failed
after_oauth state forward (Oauth.done session) = (state, oauth_ready session)
after_oauth state forward (Oauth.refused code detail) = (OauthState.failed, oauth_failed detail)

codex_running : TargetStatus → OauthState × ForwardStatus → TargetStatus
codex_running t (state, forward) = record t {
  master = MasterState.codex_running;
  oauth = state;
  session_count = t.session_count + 1;
  oauth_forward = forward;
}

oauth_waiting : TargetStatus → TargetStatus
oauth_waiting t = record t { master = MasterState.oauth_pending; oauth = OauthState.pending }

codex_left : TargetStatus → TargetStatus
codex_left t = record t {
  master = if leb t.session_count 1 then MasterState.ready else t.master;
  oauth = OauthState.none_yet;
  session_count = t.session_count - 1;
  oauth_forward = if leb t.session_count 1 then new_forward_status "oauth" else t.oauth_forward;
}

-- bool(control_path)
abbrev truthy_path : Option String → Bool
truthy_path none = false
truthy_path (some p) = not (is_empty p)

module _ {F : Type 0} where
  unfoldable pub on_codex_start : Answers → String → TargetStatus → Server F → Server F
  unfolding after_oauth codex_running has_key
  on_codex_start answers digest t s =
      let s1 : Server F = record s { browser_opened = discard digest s.browser_opened } in
      if truthy_path t.control_path || has_key digest s1.identity_files
      then (let (outcome, oauth) =
            Oauth.start s1.oauth t.target (get digest s1.identity_files) answers in
          record s1 {
            oauth = oauth;
            targets =
                put digest
                  (codex_running t (after_oauth OauthState.pending t.oauth_forward outcome))
                  s1.targets;
          })
      else record s1 {
        targets = put digest (codex_running t (OauthState.failed, t.oauth_forward)) s1.targets;
      }

  unfoldable pub on_oauth_url : Json → String → TargetStatus → Server F → Server F
  unfolding oauth_waiting
  on_oauth_url url digest t s =
      let s1 : Server F =
        if truthy url && not (member digest s.browser_opened)
        then record s {
          launched_urls = url ∷ s.launched_urls;
          browser_opened = digest ∷ s.browser_opened;
        }
        else s in
      record s1 { targets = put digest (oauth_waiting t) s1.targets }

  unfoldable pub on_codex_exit : String → TargetStatus → Server F → Server F
  unfolding codex_left
  on_codex_exit digest t s =
      let s1 : Server F = record s { browser_opened = discard digest s.browser_opened } in
      let s2 : Server F = if leb t.session_count 2 then finish_oauth t.target s1 else s1 in
      record s2 { targets = put digest (codex_left t) s2.targets }

  unfoldable pub on_event : Answers → Event → TargetStatus → Server F → Server F
  on_event answers e t s = elim e.event [
    | codex_start ↦ on_codex_start answers e.target t s
    | codex_oauth_url ↦ on_oauth_url e.oauth_url e.target t s
    | codex_exit ↦ on_codex_exit e.target t s
    | _ ↦ s
  ]

  unfoldable pub on_target : Answers → Event → Server F → Option TargetStatus → Reply × Server F
  on_target answers e s none = (unknown_target, s)
  on_target answers e s (some t) = (event_done e.event, on_event answers e t s)

  unfoldable pub on_decoded : Answers → Server F → Result Event → Reply × Server F
  unfolding on_target
  on_decoded answers s (err exc) = (protocol_invalid (message exc), s)
  on_decoded answers s (ok e) = on_target answers e s (get e.target s.targets)

  -- handle_event(payload)
  unfoldable pub handle_event : (Fields → ℕ) → Answers → Fields → Server F → Reply × Server F
  unfolding on_decoded
  handle_event dump_size answers payload s =
      on_decoded answers s (decode_event (dump_size payload) (some (obj payload)))
