-- ===== src/Protocol.antt =====
-- orchestrator/protocol.py: lifecycle events and their one-line JSON form. What `json.loads` makes of a
-- line is the value that the functions here read; `size` is the number of bytes of the line.
pub mod RoundTrip
use re_remote_dev.Json.{Fields, Json, bool, end, field, get_field, null, num, obj, short_text, str}
use re_remote_dev.Prelude.{
  Bool, Option, String, eqb, false, if◌then◌else◌, leb, ltb, none, not, some, true, ℕ, ◌*◌, ◌+◌,
  ◌==◌,
}
use re_remote_dev.Prelude.Int.{negsuc, pos, ℤ}
use re_remote_dev.Prelude.Text.{◌<>◌}
use re_remote_dev.Result.{Result, err, invalid, ok, ◌>>=◌}

pub data EventKind : Type 0 where
  hello codex_start codex_exit codex_oauth_url health : EventKind

abbrev pub kind_name : EventKind → String
kind_name hello = "HELLO"
kind_name codex_start = "CODEX_START"
kind_name codex_exit = "CODEX_EXIT"
kind_name codex_oauth_url = "CODEX_OAUTH_URL"
kind_name health = "HEALTH"

-- event in _ALLOWED_EVENTS
abbrev pub kind_of : String → Option EventKind
kind_of s =
    if s == "HELLO"
    then some hello
    else if s == "CODEX_START"
    then some codex_start
    else if s == "CODEX_EXIT"
    then some codex_exit
    else if s == "CODEX_OAUTH_URL"
    then some codex_oauth_url
    else if s == "HEALTH"
    then some health
    else none

-- The optional fields hold `null` where Python has None.
pub record Event : Type 0 where
  pub event : EventKind
  pub target : String
  pub nonce : String
  pub pid : Json
  pub exit_code : Json
  pub args_mode : Json
  pub oauth_url : Json

abbrev pub max_message_bytes : ℕ
max_message_bytes = 8 * 1024

abbrev pub or_null : Option Json → Json
or_null none = null
or_null (some v) = v

-- isinstance(v, int), with its value: a Boolean is an int too
abbrev pub int_value : Json → Option ℤ
int_value (num n) = some n
int_value (bool b) = some (if b then pos 1 else pos 0)
int_value _ = none

abbrev pub is_version_one : ℤ → Bool
is_version_one (pos n) = eqb n 1
is_version_one (negsuc n) = false

-- pid is not None and (not an int or pid < 1), negated
abbrev pub is_pid : Json → Bool
is_pid null = true
is_pid (bool b) = b
is_pid (num (pos n)) = leb 1 n
is_pid _ = false

-- `Event.__post_init__`, over the values that `decode_event` takes from the object
unfoldable pub make_event : ℤ → String → Json → Json → Fields → Result Event
make_event version event target nonce rest =
    if not (is_version_one version) then err (invalid "不支持的协议版本") else elim (kind_of event) [
      | none ↦ err (invalid "不支持的事件")
      | some kind ↦ elim (short_text 128 (some target)) [
        | none ↦ err (invalid "target 无效")
        | some t ↦ elim (short_text 256 (some nonce)) [
          | none ↦ err (invalid "nonce 无效")
          | some n ↦
              if is_pid (or_null (get_field "pid" rest))
              then ok (record {
                event = kind;
                target = t;
                nonce = n;
                pid = or_null (get_field "pid" rest);
                exit_code = or_null (get_field "exit_code" rest);
                args_mode = or_null (get_field "args_mode" rest);
                oauth_url = or_null (get_field "oauth_url" rest);
              })
              else err (invalid "pid 无效")
        ]
      ]
    ]

-- data[key]
abbrev pub required : String → Fields → Result Json
required key data_ = elim (get_field key data_) [
  | none ↦ err (invalid ("缺少协议字段: " <> key))
  | some v ↦ ok v
]

unfoldable pub versioned : Option ℤ → String → Json → Json → Fields → Result Event
unfolding make_event
versioned none event target nonce data_ = err (invalid "协议字段类型无效")
versioned (some v) event target nonce data_ = make_event v event target nonce data_

-- isinstance(version, int) and isinstance(event, str), and the event
unfoldable pub typed_event : Json → Json → Json → Json → Fields → Result Event
unfolding versioned
typed_event version (str event) target nonce data_ =
    versioned (int_value version) event target nonce data_
typed_event version event target nonce data_ = err (invalid "协议字段类型无效")

-- The part of `decode_event` after `json.loads`, for an object.
unfoldable pub decode_fields : Fields → Result Event
unfolding typed_event
decode_fields data_ = do
  version ← required "v" data_
  event ← required "event" data_
  target ← required "target" data_
  nonce ← required "nonce" data_
  typed_event version event target nonce data_

-- decode_event(payload); `loaded` is what `json.loads` returns, `none` where it raises.
unfoldable pub decode_event : ℕ → Option Json → Result Event
unfolding decode_fields
decode_event size loaded =
    if ltb max_message_bytes size then err (invalid "协议消息超过 8 KiB 限制") else elim loaded [
      | none ↦ err (invalid "协议消息不是有效 JSON")
      | some (obj data_) ↦ decode_fields data_
      | some _ ↦ err (invalid "协议消息必须是 JSON object")
    ]

-- `if value is not None: data[key] = value`
abbrev pub optional : String → Json → Fields → Fields
optional key null rest = rest
optional key value rest = field key value rest

-- Event.to_dict
unfoldable pub to_dict : Event → Fields
to_dict e = field "v" (num (pos 1)) (
    field "event" (str (kind_name e.event)) (
      field "target" (str e.target) (
        field "nonce" (str e.nonce) (
          optional "pid" e.pid (
            optional "exit_code" e.exit_code
              (optional "args_mode" e.args_mode (optional "oauth_url" e.oauth_url end)))))))

-- encode_event: the object whose text is sent, unless the line with its newline is too long
unfoldable pub encode_event : (Fields → ℕ) → Event → Result Fields
encode_event dump_size e =
    if ltb max_message_bytes (dump_size (to_dict e) + 1)
    then err (invalid "协议消息超过 8 KiB 限制")
    else ok (to_dict e)
