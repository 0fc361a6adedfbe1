-- ===== src/Protocol/RoundTrip.antt =====
-- Decoding what was encoded.
use re_remote_dev.Json.{Fields, Json, end, get_field, null, num, obj, short_text, str}
use re_remote_dev.Prelude.{
  Option, String, ap, arith, eq_iff, false, none, refl, some, true, ℕ, ◌+◌, ◌==◌, ◌∙◌, ◌≡◌, ◌≤◌,
}
use re_remote_dev.Prelude.Int.{negsuc, pos, ℤ}
use re_remote_dev.Protocol.{
  Event, EventKind, codex_exit, codex_oauth_url, codex_start, decode_event, decode_fields,
  encode_event, health, hello, int_value, is_pid, is_version_one, kind_name, kind_of, make_event,
  max_message_bytes, optional, or_null, required, to_dict, typed_event, versioned,
}
use re_remote_dev.Result.{>>=-eq-ok, ok}

-- The events that `Event.__post_init__` accepts.
pub record IsEvent (e : Event) : Type 0 where
  pub target : short_text 128 (some (str e.target)) ≡ some e.target
  pub nonce : short_text 256 (some (str e.nonce)) ≡ some e.nonce
  pub pid : is_pid e.pid ≡ true

-- An optional field is read back, and is no other field.
optional_own :
    (k : String) (v : Json) (fs : Fields)
    → or_null (get_field k fs) ≡ null
    → or_null (get_field k (optional k v fs)) ≡ v
unfolding get_field
optional_own k null fs h = h
optional_own k v fs h = ground (arith, eq_iff k k)

optional_other :
    (j k : String) (v : Json) (fs : Fields)
    → (k == j) ≡ false
    → or_null (get_field j (optional k v fs)) ≡ or_null (get_field j fs)
unfolding get_field
optional_other j k null fs h = refl
optional_other j k v fs h = ground arith

kind_of-kind_name : (k : EventKind) → kind_of (kind_name k) ≡ some k
kind_of-kind_name hello = refl
kind_of-kind_name codex_start = refl
kind_of-kind_name codex_exit = refl
kind_of-kind_name codex_oauth_url = refl
kind_of-kind_name health = refl

module _ (e : Event) where
  urls : Fields
  urls = optional "oauth_url" e.oauth_url end

  args : Fields
  unfolding urls
  args = optional "args_mode" e.args_mode urls

  codes_ : Fields
  unfolding args
  codes_ = optional "exit_code" e.exit_code args

  abbrev Absent : String → Fields → Type 0
  Absent k fs = or_null (get_field k fs) ≡ null

  reads :
      (or_null (get_field "pid" (to_dict e)) ≡ e.pid)
      × (or_null (get_field "exit_code" (to_dict e)) ≡ e.exit_code)
      × (or_null (get_field "args_mode" (to_dict e)) ≡ e.args_mode)
      × (or_null (get_field "oauth_url" (to_dict e)) ≡ e.oauth_url)
  unfolding to_dict get_field codes_
  reads = (
    optional_own "pid" e.pid codes_ (
        optional_other "pid" "exit_code" e.exit_code args refl
        ∙ (optional_other "pid" "args_mode" e.args_mode urls refl
            ∙ optional_other "pid" "oauth_url" e.oauth_url end refl)),
    optional_other "exit_code" "pid" e.pid codes_ refl
        ∙ optional_own "exit_code" e.exit_code args (
            optional_other "exit_code" "args_mode" e.args_mode urls refl
            ∙ optional_other "exit_code" "oauth_url" e.oauth_url end refl),
    optional_other "args_mode" "pid" e.pid codes_ refl
        ∙ (optional_other "args_mode" "exit_code" e.exit_code args refl
            ∙ optional_own "args_mode" e.args_mode urls
                (optional_other "args_mode" "oauth_url" e.oauth_url end refl)),
    optional_other "oauth_url" "pid" e.pid codes_ refl
        ∙ (optional_other "oauth_url" "exit_code" e.exit_code args refl
            ∙ (optional_other "oauth_url" "args_mode" e.args_mode urls refl
                ∙ optional_own "oauth_url" e.oauth_url end refl)),
  )

  make_event-to_dict :
      IsEvent e
      → make_event (pos 1) (kind_name e.event) (str e.target) (str e.nonce) (to_dict e) ≡ ok e
  unfolding make_event
  make_event-to_dict h = ground (
    arith,
    kind_of-kind_name e.event,
    h.target,
    h.nonce,
    h.pid,
    reads.0,
    reads.1,
    reads.2,
    reads.3,
  )

  heads :
      (required "v" (to_dict e) ≡ ok (num (pos 1)))
      × (required "event" (to_dict e) ≡ ok (str (kind_name e.event)))
      × (required "target" (to_dict e) ≡ ok (str e.target))
      × (required "nonce" (to_dict e) ≡ ok (str e.nonce))
  unfolding to_dict get_field
  heads = (refl, refl, refl, refl)

  decode_fields-to_dict : IsEvent e → decode_fields (to_dict e) ≡ ok e
  unfolding decode_fields
  decode_fields-to_dict h = rw (heads.0, heads.1, heads.2, heads.3) (make_event-to_dict h)

-- An event that satisfies the checks of `Event.__post_init__` and that `encode_event` lets through is
-- decoded to the same event, from a line of the size of what was sent.
pub decode-encode :
    (dump_size : Fields → ℕ) (e : Event) (sent : Fields)
    → IsEvent e
    → encode_event dump_size e ≡ ok sent
    → decode_event (dump_size sent + 1) (some (obj sent)) ≡ ok e
unfolding decode_event encode_event
decode-encode dump_size e sent h q = ground (arith, decode_fields-to_dict e h)

short_text-twice :
    (n : ℕ) (v : Json) (t : String)
    → short_text n (some v) ≡ some t
    → short_text n (some (str t)) ≡ some t
short_text-twice n (str s) t h = ground arith
short_text-twice n v t h = cc

-- The object that an event was read from: version 1, the name of its kind, its target and its nonce.
pub record IsLineOf (e : Event) (line : Fields) : Type 0 where
  pub version : (v : Json) × (get_field "v" line ≡ some v) × (int_value v ≡ some (pos 1))
  pub event : get_field "event" line ≡ some (str (kind_name e.event))
  pub target : get_field "target" line ≡ some (str e.target)
  pub nonce : get_field "nonce" line ≡ some (str e.nonce)
  pub pid : or_null (get_field "pid" line) ≡ e.pid

short_text-str : (n : ℕ) (v : Json) (t : String) → short_text n (some v) ≡ some t → v ≡ str t
short_text-str n (str s) t h = ground arith
short_text-str n v t h = cc

kind_of-named : (s : String) (k : EventKind) → kind_of s ≡ some k → s ≡ kind_name k
kind_of-named s k h = ground (
  arith,
  eq_iff s "HELLO",
  eq_iff s "CODEX_START",
  eq_iff s "CODEX_EXIT",
  eq_iff s "CODEX_OAUTH_URL",
  eq_iff s "HEALTH",
)

version_one : (v : ℤ) → is_version_one v ≡ true → v ≡ pos 1
version_one (pos n) h = ap pos (ground arith)
version_one (negsuc n) h = cc

-- What `make_event` has seen of its arguments when it returns.
record Made (version : ℤ) (event : String) (target nonce : Json) (rest : Fields) (e : Event)
    : Type 0 where
  valid : IsEvent e
  one : version ≡ pos 1
  named : event ≡ kind_name e.event
  target_text : target ≡ str e.target
  nonce_text : nonce ≡ str e.nonce
  pid_value : or_null (get_field "pid" rest) ≡ e.pid

make_event-Made :
    (version : ℤ) (event : String) (target nonce : Json) (rest : Fields) (e : Event)
    → make_event version event target nonce rest ≡ ok e
    → Made version event target nonce rest e
unfolding make_event
make_event-Made version event target nonce rest e h = record {
  valid = record {
    target = ground (arith, short_text-twice 128 target e.target);
    nonce = ground (arith, short_text-twice 256 nonce e.nonce);
    pid = ground arith;
  };
  one = version_one version (ground arith);
  named = kind_of-named event e.event (ground arith);
  target_text = short_text-str 128 target e.target (ground arith);
  nonce_text = short_text-str 256 nonce e.nonce (ground arith);
  pid_value = ground arith;
}

-- What `typed_event` has seen of the four required fields.
record Typed (version event target nonce : Json) (rest : Fields) (e : Event) : Type 0 where
  valid : IsEvent e
  one : int_value version ≡ some (pos 1)
  named : event ≡ str (kind_name e.event)
  target_text : target ≡ str e.target
  nonce_text : nonce ≡ str e.nonce
  pid_value : or_null (get_field "pid" rest) ≡ e.pid

versioned-Typed :
    (version : Json) (event : String) (target nonce : Json) (rest : Fields) (e : Event)
    (v : Option ℤ)
    → int_value version ≡ v
    → versioned v event target nonce rest ≡ ok e
    → Typed version (str event) target nonce rest e
unfolding versioned
versioned-Typed version event target nonce rest e none q h = cc
versioned-Typed version event target nonce rest e (some n) q h =
    let made = make_event-Made n event target nonce rest e h in
    record {
      valid = made.valid;
      one = q ∙ ap some made.one;
      named = ap str made.named;
      target_text = made.target_text;
      nonce_text = made.nonce_text;
      pid_value = made.pid_value;
    }

typed_event-Typed :
    (version event target nonce : Json) (rest : Fields) (e : Event)
    → typed_event version event target nonce rest ≡ ok e
    → Typed version event target nonce rest e
unfolding typed_event
typed_event-Typed version (str event) target nonce rest e h =
    versioned-Typed version event target nonce rest e (int_value version) refl h
typed_event-Typed version event target nonce rest e h = cc

required-there :
    (k : String) (line : Fields) (v : Json) → required k line ≡ ok v → get_field k line ≡ some v
required-there k line v h = ground arith

decode_fields-IsLineOf :
    (line : Fields) (e : Event) → decode_fields line ≡ ok e → IsEvent e × IsLineOf e line
unfolding decode_fields
decode_fields-IsLineOf line e h =
    let (version, q1, h1) = >>=-eq-ok (required "v" line) _ e h in
    let (event, q2, h2) = >>=-eq-ok (required "event" line) _ e h1 in
    let (target, q3, h3) = >>=-eq-ok (required "target" line) _ e h2 in
    let (nonce, q4, h4) = >>=-eq-ok (required "nonce" line) _ e h3 in
    let t = typed_event-Typed version event target nonce line e h4 in
    (
      t.valid,
      record {
        version = (version, required-there "v" line version q1, t.one);
        event = required-there "event" line event q2 ∙ ap some t.named;
        target = required-there "target" line target q3 ∙ ap some t.target_text;
        nonce = required-there "nonce" line nonce q4 ∙ ap some t.nonce_text;
        pid = t.pid_value;
      },
    )

decode_event_cases :
    (size : ℕ) (loaded : Option Json) (e : Event)
    → decode_event size loaded ≡ ok e
    → (size ≤ max_message_bytes)
      × ((data_ : Fields) × (loaded ≡ some (obj data_)) × (decode_fields data_ ≡ ok e))
unfolding decode_event
decode_event_cases size (some (obj data_)) e h = (ground arith, (data_, refl, ground arith))
decode_event_cases size loaded e h = absurd (ground arith)

-- An event that comes out of `decode_event` satisfies the checks of `Event.__post_init__` on its target,
-- its nonce and its pid, its line was not too long, and what was loaded from the line is an object with
-- the version 1 and the event's kind, target, nonce and pid.
pub decode_event-IsEvent :
    (size : ℕ) (loaded : Option Json) (e : Event)
    → decode_event size loaded ≡ ok e
    → IsEvent e
      × (size ≤ max_message_bytes)
      × ((line : Fields) × (loaded ≡ some (obj line)) × IsLineOf e line)
decode_event-IsEvent size loaded e h =
    let (fits, (line, is_object, q)) = decode_event_cases size loaded e h in
    let (valid, of_line) = decode_fields-IsLineOf line e q in
    (valid, fits, (line, is_object, of_line))
