-- ===== src/Helper.antt =====
-- scripts/remote_preview_helper.py: rget and rdo on the remote side, up to what is printed. Bytes are
-- numbers; `parse` stands for `json.loads(raw.decode())`, where `none` is a UnicodeError or a
-- JSONDecodeError.
pub mod Chunks
use re_remote_dev.Json.{Fields, Json, arr, get_field, obj, str, truthy_or}
use re_remote_dev.Prelude.{
  Bool, List, Option, String, [], all, any, eqb, false, if◌then◌else◌, leb, length, map, none, not,
  on_some, some, suc, true, zero, ℕ, ◌&&◌, ◌++◌, ◌==◌, ◌||◌, ◌∷◌,
}
use re_remote_dev.Prelude.Int.{pos, ℤ}
use re_remote_dev.Prelude.Text.{codes, int_of_text, is_empty}
use re_remote_dev.Result.{Result, err, invalid, ok}
use mathlib.Core.Option

pub record SessionContext : Type 0 where
  pub endpoint : String
  pub session : String
  pub nonce : String
  pub port : ℕ

-- A variable of the environment that is there and not empty.
filled : Option String → Option String
filled none = none
filled (some s) = if is_empty s then none else some s

with_port : String → String → String → Option ℤ → Option SessionContext
with_port endpoint session nonce (some (pos port)) =
    if leb 1 port && leb port 65535
    then some (record { endpoint = endpoint; session = session; nonce = nonce; port = port })
    else none
with_port endpoint session nonce _ = none

-- _context(), over the four variables
unfoldable pub session_context :
    Option String → Option String → Option String → Option String → Option SessionContext
unfolding filled with_port
session_context endpoint session nonce port =
    on_some none
      (λ endpoint'.
        on_some none
          (λ session'.
            on_some none
              (λ nonce'.
                on_some none (λ port'. with_port endpoint' session' nonce' (int_of_text port'))
                  (filled port))
              (filled nonce))
          (filled session))
      (filled endpoint)

-- "\x00" in value
abbrev pub has_nul : List ℕ → Bool
has_nul = any (λ c. eqb c 0)

abbrev pub starts_with : ℕ → List ℕ → Bool
starts_with c [] = false
starts_with c (d ∷ ds) = eqb d c

-- _canonical_path(value), with `posixpath.normpath`, `posixpath.join` and `os.getcwd()`
unfoldable pub canonical_path :
    (String → String) → (String → String → String) → String → String → Result String
canonical_path normpath join cwd value =
    if is_empty value || has_nul (codes value) || starts_with b'~' (codes value)
    then err (invalid "路径不能为空、不能含 NUL，也不支持未展开的 ~")
    else if starts_with b'/' (codes cwd)
    then ok (normpath (if starts_with b'/' (codes value) then value else join cwd value))
    else err (invalid "当前远程目录不是绝对路径")

-- What `recv` gives: bytes, or an error of the socket.
pub data Got : Type 0 where
  chunk : List ℕ → Got
  fault : Got

-- What is printed for a message.
pub data Print : Type 0 where
  submitted : Option Json → Print
  progressed finished : Fields → Print

-- last_value, announced and what was printed, newest first
pub record Progress : Type 0 where
  pub last : Option Fields
  pub announced : Bool
  pub printed : List Print

pub data Message : Type 0 where
  going : Progress → Message
  complete : Fields → Progress → Message
  refused : Message
  unreadable : Message

-- How far the reading came: the buffer holds the start of a line, or the reading is over.
pub data Reading : Type 0 where
  waiting : Progress → List ℕ → Reading
  over : Message → Reading

-- value.get("event") == name
abbrev pub is_event : String → Fields → Bool
is_event name fields = elim (get_field "event" fields) [ some (str s) ↦ s == name | _ ↦ false ]

unfoldable pub announce : Fields → Progress → Progress
announce fields p = if p.announced then record p { last = some fields } else record {
  last = some fields;
  announced = true;
  printed = submitted (get_field "request_id" fields) ∷ p.printed;
}

-- One message of the bridge.
unfoldable pub message : Progress → Option Json → Message
unfolding announce
message p none = unreadable
message p (some (obj fields)) =
    let q = announce fields p in
    if truthy_or false (get_field "ok" fields)
    then (if is_event "progress" fields
        then going (record q { printed = progressed fields ∷ q.printed })
        else if is_event "complete" fields
        then complete fields (record q { printed = finished fields ∷ q.printed })
        else going q)
    else refused
message p (some _) = refused

-- buffer.partition(b"\n"), where there is a newline
unfoldable pub partition_line : List ℕ → Option (List ℕ × List ℕ)
partition_line [] = none
partition_line (c ∷ cs) =
    if eqb c 10
    then some ([], cs)
    else Option.map (λ (p : List ℕ × List ℕ). (c ∷ p.0, p.1)) (partition_line cs)

module _ (parse : List ℕ → Option Json) where
  abbrev pub then_read : Message → (Progress → Reading) → Reading
  then_read (going p) go = go p
  then_read m go = over m

  -- `while b"\n" in buffer`; each turn shortens the buffer, so that its length is fuel enough.
  unfoldable pub drain : ℕ → Progress → List ℕ → Reading
  unfolding message partition_line
  drain zero p buffer = waiting p buffer
  drain (suc fuel) p buffer = elim (partition_line buffer) [
    | none ↦ waiting p buffer
    | some (raw, rest) ↦ then_read (message p (parse raw)) (λ q. drain fuel q rest)
  ]

  -- `while True`, up to the end of the stream, a last message or an error.
  unfoldable pub receive : Reading → List Got → Message
  unfolding drain
  receive (over m) stream = m
  receive (waiting p buffer) [] = going p
  receive (waiting p buffer) (fault ∷ rest) = unreadable
  receive (waiting p buffer) (chunk [] ∷ rest) = going p
  receive (waiting p buffer) (chunk (c ∷ cs) ∷ rest) =
      let all = buffer ++ (c ∷ cs) in receive (drain (length all) p all) rest

-- What the program ends with: an exit code, or a TypeError for a state that cannot be in a set.
pub data End : Type 0 where
  exit : ℕ → End
  type_error : End

abbrev pub is_unfinished : String → Bool
is_unfinished s = s == "QUEUED" || s == "RUNNING"

-- The end for the last message that counts.
unfoldable pub by_state : Fields → Option Json → End
by_state value (some (str s)) =
    if is_unfinished s && not (is_event "complete" value)
    then exit 1
    else if s == "FAILED"
    then exit 1
    else exit 0
by_state value (some (arr items)) = type_error
by_state value (some (obj fields)) = type_error
by_state value _ = exit 0

unfoldable pub end_of : Message → End
unfolding by_state
end_of refused = exit 1
end_of unreadable = exit 1
end_of (complete value p) = by_state value (get_field "state" value)
end_of (going p) = on_some (exit 1) (λ value. by_state value (get_field "state" value)) p.last

abbrev pub at_start : Progress
at_start = record { last = none; announced = false; printed = [] }

-- main(argv), after the connection was tried: `none` is a connection that could not be made
unfoldable pub fetch : (List ℕ → Option Json) → Option (List Got) → End
unfolding end_of receive
fetch parse none = exit 1
fetch parse (some stream) = end_of (receive parse (waiting at_start []) stream)

-- main(argv)
unfoldable pub run :
    (String → Result String)
    → (List ℕ → Option Json)
    → (ℕ → String → Option (List Got))
    → Option SessionContext
    → List String
    → End
unfolding fetch
run canonical parse connect ctx [] = exit 2
run canonical parse connect ctx (arg ∷ rest) =
    if arg == "--help" || arg == "-h" then exit 0 else elim rest [
      | [] ↦
          on_some (exit 1)
            (λ (c : SessionContext). elim (canonical arg) [
              | err e ↦ exit 2
              | ok path ↦ fetch parse (connect c.port path)
            ])
            ctx
      | other ∷ others ↦ exit 2
    ]
