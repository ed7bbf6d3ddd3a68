-- ===== src/Streaming/Chunks.antt =====
-- The handlers of the events of a stream.
use code_quest.Common.{
  ℕ, ◌+◌, Bool, true, false, ◌&&◌, List, [], ◌∷◌, ◌++◌, map, Option, none, some, Str, if◌then◌else◌,
  or_default, any, nat_beq,
}
use code_quest.Common.Text.{lit}
use code_quest.Common.Json.{obj, end}
use code_quest.Streaming.Turns.{
  BlockType, thinking, text, tool_use, Block, Usage, Turn, Message, assistant_turn,
  compact_boundary, other, ChannelState, is_type, is_empty, find_streaming_turn, update_turn,
  has_block, update_last_block, update_block_by_tool_id, new_turn, append_turn,
  ensure_streaming_turn, new_block, push_block, count_id,
}

abbrev pub add_content : Str → Block → Block
add_content content b = record b { content = b.content ++ content }

-- what a chunk of text makes of a turn; `id` is for a new block
unfoldable pub text_into : (id : ℕ) → (content : Str) → (has_text : Bool) → Turn → Turn
unfolding update_last_block
text_into id content true t = record (update_last_block t text (add_content content)) {
  content = t.content ++ content;
}
text_into id content false t = record (push_block (new_block id text content) t) {
  content = t.content ++ content;
}

unfoldable pub on_text_chunk : ChannelState → (content : Str) → ChannelState
unfolding ensure_streaming_turn update_turn text_into
on_text_chunk state content =
    let (s, turn) = ensure_streaming_turn state in
    update_turn (count_id s) turn.id (text_into s.next_id content (has_block text turn.blocks))

abbrev pub more_tokens : Option ℕ → Option ℕ → Option ℕ
more_tokens none old = old
more_tokens (some n) old = some (or_default old 0 + n)

unfoldable pub thinking_into :
    (id : ℕ) → (content : Str) → (estimated_tokens : Option ℕ) → (has_thinking : Bool) → Turn → Turn
unfolding update_last_block
thinking_into id content estimated_tokens true t = update_last_block t thinking (λ b. record b {
  content = b.content ++ content;
  estimated_tokens = more_tokens estimated_tokens b.estimated_tokens;
})
thinking_into id content estimated_tokens false t =
    push_block
      (record (new_block id thinking content) {
        is_streaming = true;
        estimated_tokens = estimated_tokens;
      })
      t

unfoldable pub on_thinking_chunk :
    ChannelState → (content : Str) → (estimated_tokens : Option ℕ) → ChannelState
unfolding ensure_streaming_turn update_turn thinking_into
on_thinking_chunk state content estimated_tokens =
    let (s, turn) = ensure_streaming_turn state in
    update_turn (count_id s) turn.id
      (thinking_into s.next_id content estimated_tokens (has_block thinking turn.blocks))

abbrev pub add_partial : Str → Block → Block
add_partial content b = record b { partial_input = some (or_default b.partial_input [] ++ content) }

abbrev pub input_json_into : ChannelState → Str → Str → Option Turn → ChannelState
unfolding update_turn update_block_by_tool_id
input_json_into s target content none = s
input_json_into s target content (some turn) =
    update_turn s turn.id (λ t. update_block_by_tool_id t target (add_partial content))

unfoldable pub on_input_json_chunk : ChannelState → (content : Str) → ChannelState
unfolding input_json_into find_streaming_turn
on_input_json_chunk s content = elim s.streaming_tool_use_id [
  | none ↦ s
  | some target ↦
      if is_empty target
      then s
      else input_json_into s target content (find_streaming_turn s.messages)
]

-- the last turn with a block of text, streaming or not
unfoldable pub find_cited : List Message → Option Turn
find_cited [] = none
find_cited (assistant_turn t ∷ ms) = elim (find_cited ms) [
  | some u ↦ some u
  | none ↦ if has_block text t.blocks then some t else none
]
find_cited (compact_boundary _ ∷ ms) = find_cited ms
find_cited (other _ ∷ ms) = find_cited ms

abbrev pub cite : ChannelState → List ℕ → Option Turn → ChannelState
unfolding update_turn update_last_block
cite s citations none = s
cite s citations (some turn) =
    update_turn s turn.id
      (λ t. update_last_block t text (λ b. record b { citations = b.citations ++ citations }))

unfoldable pub on_citations_chunk : ChannelState → (citations : Option (List ℕ)) → ChannelState
unfolding cite find_cited
on_citations_chunk s none = s
on_citations_chunk s (some []) = s
on_citations_chunk s (some (c ∷ cs)) = cite s (c ∷ cs) (find_cited s.messages)

pub data Chunk : Type 0 where
  text_chunk : (content : Str) → Chunk
  thinking_chunk : (content : Str) → (estimated_tokens : Option ℕ) → Chunk
  input_json_chunk : (content : Str) → Chunk
  citations_chunk : (citations : Option (List ℕ)) → Chunk
  other_chunk : Chunk

unfoldable pub on_stream_chunk : ChannelState → Chunk → ChannelState
unfolding on_text_chunk on_thinking_chunk on_input_json_chunk on_citations_chunk
on_stream_chunk s (text_chunk content) = on_text_chunk s content
on_stream_chunk s (thinking_chunk content tokens) = on_thinking_chunk s content tokens
on_stream_chunk s (input_json_chunk content) = on_input_json_chunk s content
on_stream_chunk s (citations_chunk citations) = on_citations_chunk s citations
on_stream_chunk s other_chunk = s

-- an update of the turn that is streaming, if there is one
abbrev pub update_streaming : ChannelState → (Turn → Turn) → Option Turn → ChannelState
unfolding update_turn
update_streaming s updater none = s
update_streaming s updater (some turn) = update_turn s turn.id updater

unfoldable pub on_stream_end : ChannelState → ChannelState
unfolding update_streaming find_streaming_turn
on_stream_end s =
    update_streaming s (λ t. record t { is_streaming = false }) (find_streaming_turn s.messages)

abbrev pub positive : Option ℕ → Option ℕ
positive none = none
positive (some n) = if nat_beq n 0 then none else some n

unfoldable pub on_message_start :
    ChannelState → (model : Option Str) → (message_id : Option Str) → Usage → ChannelState
on_message_start s model message_id usage = append_turn s (record (new_turn s.next_id) {
  model = model;
  message_id = message_id;
  usage = some (record {
    input_tokens = usage.input_tokens;
    output_tokens = 0;
    cache_creation_input_tokens = positive usage.cache_creation_input_tokens;
    cache_read_input_tokens = positive usage.cache_read_input_tokens;
  });
})

abbrev pub no_usage : Usage
no_usage = record {
  input_tokens = 0;
  output_tokens = 0;
  cache_creation_input_tokens = none;
  cache_read_input_tokens = none;
}

unfoldable pub on_message_delta :
    ChannelState → (stop_reason : Option Str) → (output_tokens : ℕ) → ChannelState
unfolding update_streaming find_streaming_turn
on_message_delta s stop_reason output_tokens =
    update_streaming s
      (λ t. record t {
        stop_reason = stop_reason;
        usage = some (record (or_default t.usage no_usage) { output_tokens = output_tokens });
      })
      (find_streaming_turn s.messages)

-- `contentBlock`, where the event has it: its id and its name
pub record ContentStart : Type 0 where
  pub id : Option Str
  pub name : Option Str

pub data BlockStart : Type 0 where
  tool_use_start : Option ContentStart → BlockStart
  thinking_start : BlockStart
  other_start : BlockStart

abbrev pub start_block : ChannelState → Turn → BlockType → ChannelState
unfolding update_turn
start_block s turn type =
    update_turn (count_id s) turn.id (push_block (new_block s.next_id type []))

abbrev pub start_tool : ChannelState → Turn → ContentStart → Option Str → ChannelState
unfolding update_turn
start_tool s turn c parent = elim c.id [
  | none ↦ s
  | some tool_id ↦
      if is_empty tool_id
      then s
      else record (update_turn (count_id s) turn.id (
          push_block (record (new_block s.next_id tool_use (or_default c.name (lit "Unknown"))) {
            tool_id = some tool_id;
            input = some (obj end);
            parent_tool_use_id = parent;
          }))) { streaming_tool_use_id = some tool_id }
]

unfoldable pub start_in : ChannelState → Turn → BlockStart → (parent : Option Str) → ChannelState
unfolding start_block start_tool
start_in s turn (tool_use_start (some c)) parent = start_tool s turn c parent
start_in s turn (tool_use_start none) parent = start_block s turn text
start_in s turn thinking_start parent = start_block s turn thinking
start_in s turn other_start parent = start_block s turn text

unfoldable pub on_block_start : ChannelState → BlockStart → (parent : Option Str) → ChannelState
unfolding ensure_streaming_turn start_in
on_block_start state start parent =
    let (s, turn) = ensure_streaming_turn state in start_in s turn start parent

abbrev pub is_thinking_now : Block → Bool
is_thinking_now b = is_type thinking b && b.is_streaming

abbrev pub stop_thinking : Turn → Turn
stop_thinking t = record t {
  blocks = map (λ b. if is_thinking_now b then record b { is_streaming = false } else b) t.blocks;
}

abbrev pub stop_in : ChannelState → Option Turn → ChannelState
unfolding update_turn
stop_in s none = s
stop_in s (some turn) =
    if any is_thinking_now turn.blocks then update_turn s turn.id stop_thinking else s

unfoldable pub on_block_stop : ChannelState → ChannelState
unfolding stop_in find_streaming_turn
on_block_stop s = record (stop_in s (find_streaming_turn s.messages)) {
  streaming_tool_use_id = none;
}

-- the part of `addMessage` that a compaction has: its message is no history
unfoldable pub on_compaction : ChannelState → (content : Str) → ChannelState
on_compaction s content = record s {
  messages = s.messages ++ compact_boundary content ∷ [];
  next_id = s.next_id + 1;
}
