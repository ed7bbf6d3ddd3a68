-- ===== src/Sessions/Defs.antt =====
-- The decoder and the encoder. What `JSON.parse`, `Date.parse` and the clock give are arguments, and a
-- property of another type than its declared one counts as missing. The encoder throws at a line
-- `null`, which is none here.
use code_quest.Common.{
  ℕ, Bool, true, false, not, ◌&&◌, List, [], ◌∷◌, ◌++◌, Option, none, some, Str, if◌then◌else◌,
  str_eq, ◌==◌, nat_beq, ltb, or_default, is_some,
}
use code_quest.Common.Text.{lit, trim}
use code_quest.Common.Keys.{member}
use code_quest.Common.Json.{
  Json, Fields, null, bool, nat, num, str, arr, obj, cons, end, field, prop,
}

abbrev pub is_empty : Str → Bool
is_empty [] = true
is_empty (_ ∷ _) = false

pub data Direction : Type 0 where
  into out err : Direction

pub record RawEvent : Type 0 where
  pub session_id : Str
  pub direction : Direction
  pub raw : Str
  pub timestamp : ℕ

pub record SessionRecord : Type 0 where
  pub id : Str
  pub channel_id : Str
  pub provider : Str
  pub command : Str
  pub args : Str
  pub cwd : Str
  pub project_root : Str
  pub mode : Str
  pub role : Str
  pub created_at : Str

abbrev with_defaults : Str → Str → Str → SessionRecord
with_defaults id cwd created_at = record {
  id = id;
  channel_id = id;
  provider = lit "claude";
  command = lit "claude";
  args = lit "[]";
  cwd = cwd;
  project_root = cwd;
  mode = lit "interactive";
  role = lit "chat";
  created_at = created_at;
}

unfoldable pub make_default_session_record : (now : Str) → Str → SessionRecord
make_default_session_record now id = with_defaults id [] now

abbrev pub truthy : Json → Bool
truthy null = false
truthy (bool b) = b
truthy (nat n) = not (nat_beq n 0)
truthy (num _) = true
truthy (str s) = not (is_empty s)
truthy (arr _) = true
truthy (obj _) = true

abbrev pub string_of : Option Json → Option Str
string_of (some (str s)) = some s
string_of _ = none

abbrev pub fields_of : Option Json → Fields
fields_of (some (obj fs)) = fs
fields_of _ = end

abbrev pub is_sidechain : Option Json → Bool
is_sidechain none = false
is_sidechain (some v) = truthy v

abbrev pub entry_of : Option Json → Option Fields
entry_of (some (obj fs)) =
    if is_some (string_of (prop (lit "type") fs))
    then if is_sidechain (prop (lit "isSidechain") fs) then none else some fs
    else none
entry_of _ = none

module _ (parse : Str → Option Json) where
  unfoldable pub parse_line : (line : Str) → Option Fields
  parse_line line = if is_empty (trim line) then none else entry_of (parse line)

abbrev pub text_at : Str → Fields → Option Str
text_at key fs = string_of (prop key fs)

abbrev pub build_from : Option Str → Option Str → Option Str → Option SessionRecord
build_from (some id) (some cwd) (some timestamp) = some (with_defaults id cwd timestamp)
build_from _ _ _ = none

-- `buildSessionRecord`, where `hasSessionFields`
unfoldable pub build_session_record : Fields → Option SessionRecord
build_session_record fs =
    build_from (text_at (lit "sessionId") fs) (text_at (lit "cwd") fs)
      (text_at (lit "timestamp") fs)

module _ (date : Str → Option ℕ) where
  abbrev pub parse_timestamp : Option Str → Option ℕ
  parse_timestamp none = none
  parse_timestamp (some s) = date s

  unfoldable pub resolve_timestamp : Fields → (fallback : ℕ) → ℕ
  resolve_timestamp fs fallback = elim (parse_timestamp (text_at (lit "timestamp") fs)) [
    | some t ↦ t
    | none ↦
        or_default
          (parse_timestamp (text_at (lit "timestamp") (fields_of (prop (lit "snapshot") fs))))
          fallback
  ]

  -- `lastTimestamp || Date.now()`
  abbrev pub or_now : ℕ → ℕ → ℕ
  or_now last now = if nat_beq last 0 then now else last

  unfoldable pub read_entry :
      (fallback_session_id : Str)
      → (now : ℕ) → (last_timestamp : ℕ) → (line : Str) → Fields
      → RawEvent
  unfolding resolve_timestamp
  read_entry fallback_session_id now last_timestamp line fs = record {
    session_id = or_default (text_at (lit "sessionId") fs) fallback_session_id;
    direction = out;
    raw = line;
    timestamp = resolve_timestamp fs (or_now last_timestamp now);
  }

abbrev pub next_last : ℕ → ℕ → ℕ
next_last last timestamp = if ltb 0 timestamp then timestamp else last

pub record SessionData : Type 0 where
  pub events : List RawEvent
  pub record_found : Option SessionRecord

abbrev pub first_of {ℓ} : {A : Type ℓ} → Option A → Option A → Option A
first_of (some a) o = some a
first_of none o = o

abbrev pub cons_event : RawEvent → Option SessionRecord → SessionData → SessionData
cons_event e found d = record {
  events = e ∷ d.events;
  record_found = first_of found d.record_found;
}

module _ (parse : Str → Option Json) (date : Str → Option ℕ) (now : ℕ) where
  -- a turn of the loop of `decodeSession`; `rest` is what follows, from the last timestamp on
  abbrev pub decode_one :
      (session_id : Str)
      → (last_timestamp : ℕ) → (line : Str) → Option Fields
      → (rest : ℕ → SessionData) → SessionData
  decode_one session_id last line none rest = rest last
  decode_one session_id last line (some fs) rest =
      let e = read_entry date session_id now last line fs in
      cons_event e (build_session_record fs) (rest (next_last last e.timestamp))

  unfoldable pub decode_lines : (session_id : Str) → (last_timestamp : ℕ) → List Str → SessionData
  unfolding parse_line
  decode_lines session_id last [] = record { events = []; record_found = none }
  decode_lines session_id last (line ∷ lines) =
      decode_one session_id last line (parse_line parse line) (λ l. decode_lines session_id l lines)

  unfoldable pub decode_session :
      (today : Str) → List Str → (session_id : Str) → List RawEvent × SessionRecord
  unfolding decode_lines make_default_session_record
  decode_session today lines session_id =
      let d = decode_lines session_id 0 lines in
      (d.events, or_default d.record_found (make_default_session_record today session_id))

abbrev pub skip_types : List Str
skip_types = lit "stream_event" ∷ lit "control_request" ∷ lit "control_response" ∷ []

abbrev pub first_block : Option Json → Fields
first_block (some (arr (cons (obj fs) _))) = fs
first_block _ = end

unfoldable pub is_user_tool_result : Fields → Bool
is_user_tool_result entry = string_is (
    text_at (lit "type")
      (first_block (prop (lit "content") (fields_of (prop (lit "message") entry)))))
  where
    string_is : Option Str → Bool
    string_is none = false
    string_is (some s) = s == lit "tool_result"

abbrev pub set_field : Str → Json → Fields → Fields
set_field k v end = field k v end
set_field k v (field j w fs) =
    let rest = set_field k v fs in if j == k then field j v fs else field j w rest

pub record ContextOf : Type 0 where
  pub session_id : Str
  pub cwd : Str

abbrev pub is_out : Direction → Bool
is_out out = true
is_out _ = false

abbrev pub is_err : Direction → Bool
is_err err = true
is_err _ = false

abbrev pub with_cwd : Str → Fields → Fields
with_cwd cwd fs = if is_empty cwd then fs else set_field (lit "cwd") (str cwd) fs

module _ (parse : Str → Option Json) (stringify : Json → Str) where
  abbrev pub encoded : RawEvent → Option ContextOf → Fields → Str
  encoded event none fs = event.raw
  encoded event (some c) fs =
      stringify (obj (with_cwd c.cwd (set_field (lit "sessionId") (str c.session_id) fs)))

  unfoldable pub encode_entry : RawEvent → Option ContextOf → Option Str → Fields → Option Str
  unfolding is_user_tool_result
  encode_entry event context none fs = none
  encode_entry event context (some type) fs =
      if member type skip_types
      then none
      else if is_out event.direction && type == lit "user" && not (is_user_tool_result fs)
      then none
      else some (encoded event context fs)

  unfoldable pub encode_parsed : RawEvent → Option ContextOf → Option Json → Option Str
  unfolding encode_entry
  encode_parsed event context (some (obj fs)) =
      encode_entry event context (string_of (prop (lit "type") fs)) fs
  encode_parsed event context _ = none

  unfoldable pub encode_event : RawEvent → Option ContextOf → Option Str
  unfolding encode_parsed
  encode_event event context =
      if is_err event.direction then none else encode_parsed event context (parse event.raw)

  -- `line ? [...] : []`
  abbrev pub line_of : Option Str → List Str
  line_of none = []
  line_of (some line) = if is_empty line then [] else line ∷ []

  -- the lines of a written file, without the line break behind each
  unfoldable pub encode_events : ContextOf → List RawEvent → List Str
  unfolding encode_event
  encode_events context [] = []
  encode_events context (e ∷ es) =
      line_of (encode_event e (some context)) ++ encode_events context es

  unfoldable pub encode : (session_id : Str) → List RawEvent → SessionRecord → List Str
  unfolding encode_events
  encode session_id events r =
      encode_events (record { session_id = session_id; cwd = r.cwd }) events
