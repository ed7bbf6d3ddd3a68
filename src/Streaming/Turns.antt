-- ===== src/Streaming/Turns.antt =====
-- The state, its turns and their blocks. The ids that `randomUUID` gives are numbers, counted up; an
-- absent flag is false.
use code_quest.Common.{
  ℕ, ◌+◌, Bool, true, false, List, [], ◌∷◌, ◌++◌, map, Option, none, some, Str, if◌then◌else◌,
  nat_beq, any, str_eq, ◌==◌,
}
use code_quest.Common.Json.{Json}

pub data BlockType : Type 0 where
  thinking text tool_use : BlockType

pub record Block : Type 0 where
  pub id : ℕ
  pub type : BlockType
  pub content : Str
  pub tool_id : Option Str
  pub input : Option Json
  pub partial_input : Option Str
  pub is_streaming : Bool
  pub estimated_tokens : Option ℕ
  pub citations : List ℕ
  pub model : Option Str
  pub parent_tool_use_id : Option Str

pub record Usage : Type 0 where
  pub input_tokens : ℕ
  pub output_tokens : ℕ
  pub cache_creation_input_tokens : Option ℕ
  pub cache_read_input_tokens : Option ℕ

pub record Turn : Type 0 where
  pub id : ℕ
  pub blocks : List Block
  pub is_streaming : Bool
  pub content : Str
  pub model : Option Str
  pub message_id : Option Str
  pub stop_reason : Option Str
  pub usage : Option Usage
  pub parent_tool_use_id : Option Str

-- `other` is a message of another type, of which this code reads nothing.
pub data Message : Type 0 where
  assistant_turn : Turn → Message
  compact_boundary : (content : Str) → Message
  other : ℕ → Message

pub record ChannelState : Type 0 where
  pub messages : List Message
  pub streaming_tool_use_id : Option Str
  pub next_id : ℕ

abbrev pub is_type : BlockType → Block → Bool
is_type thinking b = elim b.type [ thinking ↦ true | text ↦ false | tool_use ↦ false ]
is_type text b = elim b.type [ thinking ↦ false | text ↦ true | tool_use ↦ false ]
is_type tool_use b = elim b.type [ thinking ↦ false | text ↦ false | tool_use ↦ true ]

abbrev pub is_empty : Str → Bool
is_empty [] = true
is_empty (_ ∷ _) = false

abbrev pub streaming_turn : Message → Option Turn
streaming_turn (assistant_turn t) = if t.is_streaming then some t else none
streaming_turn _ = none

-- the last one
unfoldable pub find_streaming_turn : List Message → Option Turn
find_streaming_turn [] = none
find_streaming_turn (m ∷ ms) = elim (find_streaming_turn ms) [
  | some t ↦ some t
  | none ↦ streaming_turn m
]

abbrev pub update_message : ℕ → (Turn → Turn) → Message → Message
update_message turn_id updater (assistant_turn t) =
    assistant_turn (if nat_beq t.id turn_id then updater t else t)
update_message turn_id updater (compact_boundary content) = compact_boundary content
update_message turn_id updater (other n) = other n

unfoldable pub update_messages : ℕ → (Turn → Turn) → List Message → List Message
update_messages turn_id updater ms = map (update_message turn_id updater) ms

unfoldable pub update_turn : ChannelState → ℕ → (Turn → Turn) → ChannelState
unfolding update_messages
update_turn s turn_id updater = record s { messages = update_messages turn_id updater s.messages }

-- `findLastBlock(...) !== undefined`
abbrev pub has_block : BlockType → List Block → Bool
has_block type blocks = any (is_type type) blocks

unfoldable pub update_last_in : BlockType → (Block → Block) → List Block → List Block
update_last_in type updater [] = []
update_last_in type updater (b ∷ bs) =
    let rest = update_last_in type updater bs in
    if has_block type bs then b ∷ rest else if is_type type b then updater b ∷ bs else b ∷ bs

unfoldable pub update_last_block : Turn → BlockType → (Block → Block) → Turn
unfolding update_last_in
update_last_block t type updater = record t { blocks = update_last_in type updater t.blocks }

abbrev pub has_tool_id : Str → Block → Bool
has_tool_id tool_id b = elim b.tool_id [ none ↦ false | some i ↦ i == tool_id ]

unfoldable pub update_block_by_tool_id : Turn → Str → (Block → Block) → Turn
update_block_by_tool_id t tool_id updater = record t {
  blocks = map (λ b. if has_tool_id tool_id b then updater b else b) t.blocks;
}

abbrev pub new_turn : ℕ → Turn
new_turn id = record {
  id = id;
  blocks = [];
  is_streaming = true;
  content = [];
  model = none;
  message_id = none;
  stop_reason = none;
  usage = none;
  parent_tool_use_id = none;
}

abbrev pub append_turn : ChannelState → Turn → ChannelState
append_turn s t = record s {
  messages = s.messages ++ assistant_turn t ∷ [];
  next_id = s.next_id + 1;
}

unfoldable pub ensure_streaming_turn : ChannelState → ChannelState × Turn
unfolding find_streaming_turn
ensure_streaming_turn s = elim (find_streaming_turn s.messages) [
  | some t ↦ (s, t)
  | none ↦ (append_turn s (new_turn s.next_id), new_turn s.next_id)
]

abbrev pub new_block : ℕ → BlockType → (content : Str) → Block
new_block id type content = record {
  id = id;
  type = type;
  content = content;
  tool_id = none;
  input = none;
  partial_input = none;
  is_streaming = false;
  estimated_tokens = none;
  citations = [];
  model = none;
  parent_tool_use_id = none;
}

-- A block that got the next id is appended to a turn.
abbrev pub push_block : Block → Turn → Turn
push_block b t = record t { blocks = t.blocks ++ b ∷ [] }

abbrev pub count_id : ChannelState → ChannelState
count_id s = record s { next_id = s.next_id + 1 }
