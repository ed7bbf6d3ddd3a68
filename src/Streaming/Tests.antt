-- ===== src/Streaming/Tests.antt =====
-- Streams at concrete inputs.
use code_quest.Common.{◌≡◌, refl, false, List, [], ◌∷◌, map, none, some, arith, str_eq}
use code_quest.Common.Text.{lit}
use code_quest.Common.Json.{obj, end}
use code_quest.Streaming.Turns.{
  Turn, assistant_turn, ChannelState, text, thinking, tool_use, new_turn, new_block,
  find_streaming_turn,
}
use code_quest.Streaming.Chunks.{
  tool_use_start, thinking_start, on_message_start, on_stream_end, no_usage,
}
use code_quest.Streaming.Assistant.{
  ContentBlock, text_content, thinking_content, tool_content, on_message_assistant_handler,
}
use code_quest.Streaming.Stream.{
  Event, text_comes, thinking_comes, input_comes, block_starts, block_stops, handle_all, texts_in,
  thoughts_in, IsStreamed, handle_all-streams,
}
use code_quest.Streaming.Outline.{outline}
use code_quest.Streaming.Patching.{outline-on_message_assistant}

abbrev earlier : ChannelState
earlier = record {
  messages = assistant_turn (record (new_turn 0) { is_streaming = false }) ∷ [];
  streaming_tool_use_id = none;
  next_id = 1;
}

abbrev events : List Event
events =
    block_starts thinking_start none
    ∷ thinking_comes (lit "hm") (some 3)
    ∷ block_stops
    ∷ text_comes (lit "a")
    ∷ block_starts (tool_use_start (some (record { id = some (lit "t"); name = none }))) none
    ∷ input_comes (lit "{")
    ∷ block_stops
    ∷ text_comes (lit "b")
    ∷ []

handle_all-streams_example :
    IsStreamed earlier.messages
      (texts_in events)
      (thoughts_in events)
      (on_stream_end (handle_all (on_message_start earlier none none no_usage) events))
handle_all-streams_example = handle_all-streams earlier none none no_usage events (omega arith, tt)

abbrev streamed : Turn
streamed = record (new_turn 4) {
  content = lit "a";
  blocks =
      new_block 5 thinking (lit "hm")
      ∷ new_block 6 text (lit "a")
      ∷ record (new_block 7 tool_use (lit "Read")) { tool_id = some (lit "t") }
      ∷ [];
}

abbrev live : ChannelState
live = record { messages = assistant_turn streamed ∷ []; streaming_tool_use_id = none; next_id = 8 }

abbrev repeated : List ContentBlock
repeated =
    thinking_content (lit "hm")
    ∷ text_content (lit "a")
    ∷ tool_content (lit "t") (some (lit "Read")) (obj end) none
    ∷ []

outline-on_message_assistant_example :
    map outline (on_message_assistant_handler live repeated none).messages
    ≡ map outline live.messages
unfolding find_streaming_turn
outline-on_message_assistant_example =
    outline-on_message_assistant live streamed repeated refl ((λ _. (refl, refl)), tt) (refl, tt)
