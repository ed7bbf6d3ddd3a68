-- ===== src/Streaming/Assistant.antt =====
-- The message that repeats a turn as a whole, after its stream or without one.
use code_quest.Common.{
  ℕ, ◌+◌, Bool, true, false, ◌&&◌, List, [], ◌∷◌, ◌++◌, Option, none, some, Str, if◌then◌else◌,
  or_default, any, is_some, length, str_eq,
}
use code_quest.Common.Text.{lit}
use code_quest.Common.Json.{Json}
use code_quest.Common.Keys.{member, add}
use code_quest.Streaming.Turns.{
  thinking, text, tool_use, Block, Turn, Message, assistant_turn, compact_boundary, other,
  ChannelState, is_type, is_empty, has_tool_id, find_streaming_turn, update_turn, has_block,
  new_turn, new_block,
}

pub data ContentBlock : Type 0 where
  text_content : (text : Str) → ContentBlock
  thinking_content : (thinking : Str) → ContentBlock
  tool_content :
      (tool_id : Str)
      → (tool_name : Option Str) → (input : Json) → (model : Option Str) → ContentBlock
  other_content : ContentBlock

-- the model where it is given
abbrev pub given : Option Str → Option Str
given none = none
given (some m) = if is_empty m then none else some m

abbrev pub tool_block : ℕ → Str → Option Str → Json → Option Str → Option Str → Block
tool_block id tool_id tool_name input model parent =
    record (new_block id tool_use (or_default tool_name (lit "Unknown"))) {
      tool_id = some tool_id;
      input = some input;
      model = given model;
      parent_tool_use_id = parent;
    }

unfoldable pub content_block_to_block :
    (id : ℕ) → ContentBlock → (parent : Option Str) → Option Block
content_block_to_block id (text_content s) parent = some (new_block id text s)
content_block_to_block id (thinking_content s) parent = some (new_block id thinking s)
content_block_to_block id (tool_content tool_id name input model) parent =
    some (tool_block id tool_id name input model parent)
content_block_to_block id other_content parent = none

abbrev pub is_tool : Str → Block → Bool
is_tool tool_id b = is_type tool_use b && has_tool_id tool_id b

-- the last turn that has a block of a tool
unfoldable pub find_tool_turn : Str → List Message → Option Turn
find_tool_turn tool_id [] = none
find_tool_turn tool_id (assistant_turn t ∷ ms) = elim (find_tool_turn tool_id ms) [
  | some u ↦ some u
  | none ↦ if any (is_tool tool_id) t.blocks then some t else none
]
find_tool_turn tool_id (compact_boundary _ ∷ ms) = find_tool_turn tool_id ms
find_tool_turn tool_id (other _ ∷ ms) = find_tool_turn tool_id ms

abbrev pub patch : Json → Option Str → Block → Block
patch input model b = record b {
  input = some input;
  partial_input = none;
  model = if is_some (given model) then model else b.model;
}

-- the first block of a tool
unfoldable pub patch_first : Str → Json → Option Str → List Block → List Block
patch_first tool_id input model [] = []
patch_first tool_id input model (b ∷ bs) =
    let rest = patch_first tool_id input model bs in
    if is_tool tool_id b then patch input model b ∷ bs else b ∷ rest

unfoldable pub patch_in : ChannelState → Str → Json → Option Str → Option Turn → ChannelState
unfolding update_turn patch_first
patch_in s tool_id input model none = s
patch_in s tool_id input model (some turn) =
    update_turn s turn.id (λ t. record t { blocks = patch_first tool_id input model t.blocks })

abbrev pub patched_with : Str → Option Turn → List Str → List Str
patched_with tool_id none ids = ids
patched_with tool_id (some _) ids = add tool_id ids

-- The loop, with the ids of the tools that were found.
unfoldable pub patch_each : ChannelState → List ContentBlock → List Str → ChannelState × List Str
unfolding patch_in find_tool_turn
patch_each s [] ids = (s, ids)
patch_each s (tool_content tool_id name input model ∷ content) ids =
    let found = find_tool_turn tool_id s.messages in
    patch_each (patch_in s tool_id input model found) content (patched_with tool_id found ids)
patch_each s (text_content _ ∷ content) ids = patch_each s content ids
patch_each s (thinking_content _ ∷ content) ids = patch_each s content ids
patch_each s (other_content ∷ content) ids = patch_each s content ids

unfoldable pub patch_tool_use_across_turns :
    ChannelState → List ContentBlock → ChannelState × List Str
unfolding patch_each
patch_tool_use_across_turns s content = patch_each s content []

-- the blocks that a turn that was streamed does not have yet
unfoldable pub live_blocks :
    (id : ℕ)
    → (has_text has_thinking : Bool) → List Str
    → Option Str
    → List ContentBlock
    → List Block
live_blocks id has_text has_thinking ids parent [] = []
live_blocks id has_text has_thinking ids parent (text_content s ∷ content) =
    let pushed = live_blocks (id + 1) has_text has_thinking ids parent content in
    let rest = live_blocks id has_text has_thinking ids parent content in
    if has_text then rest else new_block id text s ∷ pushed
live_blocks id has_text has_thinking ids parent (thinking_content s ∷ content) =
    let pushed = live_blocks (id + 1) has_text has_thinking ids parent content in
    let rest = live_blocks id has_text has_thinking ids parent content in
    if has_thinking then rest else new_block id thinking s ∷ pushed
live_blocks id has_text has_thinking ids parent (tool_content tool_id name input model ∷ content) =
    let pushed = live_blocks (id + 1) has_text has_thinking ids parent content in
    let rest = live_blocks id has_text has_thinking ids parent content in
    if member tool_id ids then rest else tool_block id tool_id name input model parent ∷ pushed
live_blocks id has_text has_thinking ids parent (other_content ∷ content) =
    live_blocks id has_text has_thinking ids parent content

-- `join('\n')` of the texts of the blocks
abbrev pub joined : Bool → List Block → Str
joined first [] = []
joined first (b ∷ bs) =
    let later = joined false bs in
    let rest = joined first bs in
    if is_type text b then (if first then b.content else 10 ∷ b.content) ++ later else rest

abbrev pub append_blocks : List Block → Turn → Turn
append_blocks [] t = t
append_blocks (b ∷ bs) t = record t {
  blocks = t.blocks ++ b ∷ bs;
  content = joined true (t.blocks ++ b ∷ bs);
}

unfoldable pub add_live : ℕ → List ContentBlock → List Str → Option Str → Turn → Turn
unfolding live_blocks
add_live id content ids parent t =
    append_blocks
      (live_blocks id (has_block text t.blocks) (has_block thinking t.blocks) ids parent content) t

unfoldable pub live_path :
    ChannelState → Turn → List ContentBlock → List Str → Option Str → ChannelState
unfolding update_turn add_live
live_path s turn content ids parent =
    update_turn (record s { next_id = s.next_id + length content }) turn.id
      (add_live s.next_id content ids parent)

-- `remaining`: all but the tools that were found
unfoldable pub remaining : List Str → List ContentBlock → List ContentBlock
remaining ids [] = []
remaining ids (tool_content tool_id name input model ∷ content) =
    let rest = remaining ids content in
    if member tool_id ids then rest else tool_content tool_id name input model ∷ rest
remaining ids (text_content s ∷ content) = text_content s ∷ remaining ids content
remaining ids (thinking_content s ∷ content) = thinking_content s ∷ remaining ids content
remaining ids (other_content ∷ content) = other_content ∷ remaining ids content

abbrev pub cons_some : Option Block → List Block → List Block
cons_some none bs = bs
cons_some (some b) bs = b ∷ bs

unfoldable pub blocks_of : (id : ℕ) → Option Str → List ContentBlock → List Block
unfolding content_block_to_block
blocks_of id parent [] = []
blocks_of id parent (c ∷ content) =
    cons_some (content_block_to_block id c parent) (blocks_of (id + 1) parent content)

abbrev pub is_none_left : List ContentBlock → Bool
is_none_left [] = true
is_none_left (_ ∷ _) = false

abbrev pub is_some_id : List Str → Bool
is_some_id [] = false
is_some_id (_ ∷ _) = true

unfoldable pub replay_path : ChannelState → List ContentBlock → List Str → Option Str → ChannelState
unfolding remaining blocks_of
replay_path s content ids parent =
    let left = remaining ids content in
    let blocks = blocks_of (s.next_id + 1) parent left in
    if is_none_left left && is_some_id ids then s else record s {
      messages =
          s.messages
          ++ assistant_turn (record (new_turn s.next_id) {
            blocks = blocks;
            is_streaming = false;
            content = joined true blocks;
            parent_tool_use_id = parent;
          })
            ∷ [];
      next_id = s.next_id + 1 + length left;
    }

-- the turn that streams, unless the message is one of a tool's own agent
unfoldable pub live_turn : Option Str → List Message → Option Turn
unfolding find_streaming_turn
live_turn none ms = find_streaming_turn ms
live_turn (some parent) ms = if is_empty parent then find_streaming_turn ms else none

unfoldable pub take_in :
    ChannelState → List ContentBlock → List Str → Option Str → Option Turn → ChannelState
unfolding live_path replay_path
take_in s content ids parent (some turn) = live_path s turn content ids parent
take_in s content ids parent none = replay_path s content ids parent

unfoldable pub on_message_assistant_handler :
    ChannelState → List ContentBlock → (parent_tool_use_id : Option Str) → ChannelState
unfolding patch_tool_use_across_turns take_in live_turn
on_message_assistant_handler state content parent =
    let (s, ids) = patch_tool_use_across_turns state content in
    take_in s content ids parent (live_turn parent s.messages)
