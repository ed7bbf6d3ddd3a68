-- ===== src/Streaming/Stream.antt =====
-- The stream of one message, from its start to its end.
use code_quest.Common.{
  ℕ, ◌≡◌, refl, ap, ◌∙◌, true, false, List, [], ◌∷◌, ◌++◌, append-nil, append_assoc, Option, none,
  some, Str, All, Option-cases, Bool-cases, inl, inr, or_default,
}
use code_quest.Common.Text.{lit}
use code_quest.Common.Json.{obj, end}
use code_quest.Streaming.Turns.{
  thinking, text, tool_use, Block, Usage, Turn, Message, assistant_turn, ChannelState, is_empty,
  update_messages, update_turn, new_block, push_block,
}
use code_quest.Streaming.Chunks.{
  text_chunk, thinking_chunk, input_json_chunk, on_stream_chunk, ContentStart, BlockStart,
  tool_use_start, thinking_start, other_start, start_block, start_tool, start_in, on_block_start,
  on_block_stop, on_message_start, on_message_delta, on_stream_end,
}
use code_quest.Streaming.Accumulation.{text_of, IsBefore, update_messages-last}
use code_quest.Streaming.Growth.{
  Streams, Streams-text, Streams-thinking, Streams-input, Streams-stop, Streams-delta, Streams-same,
  Streams-update, push-IsExtension, Streams-ensured, Streams-found,
}

-- The events of a message while it is streamed, citations apart.
pub data Event : Type 0 where
  text_comes : (content : Str) → Event
  thinking_comes : (content : Str) → (estimated_tokens : Option ℕ) → Event
  input_comes : (content : Str) → Event
  block_starts : BlockStart → (parent : Option Str) → Event
  block_stops : Event
  message_delta : (stop_reason : Option Str) → (output_tokens : ℕ) → Event

unfoldable pub handle : ChannelState → Event → ChannelState
unfolding on_stream_chunk on_block_start on_block_stop on_message_delta
handle s (text_comes content) = on_stream_chunk s (text_chunk content)
handle s (thinking_comes content tokens) = on_stream_chunk s (thinking_chunk content tokens)
handle s (input_comes content) = on_stream_chunk s (input_json_chunk content)
handle s (block_starts start parent) = on_block_start s start parent
handle s block_stops = on_block_stop s
handle s (message_delta stop_reason output_tokens) = on_message_delta s stop_reason output_tokens

unfoldable pub handle_all : ChannelState → List Event → ChannelState
unfolding handle
handle_all s [] = s
handle_all s (e ∷ es) = handle_all (handle s e) es

-- the text that an event brings, and the thinking
abbrev pub text_in : Event → Str
text_in (text_comes content) = content
text_in _ = []

abbrev pub thinking_in : Event → Str
thinking_in (thinking_comes content _) = content
thinking_in _ = []

abbrev pub texts_in : List Event → Str
texts_in [] = []
texts_in (e ∷ es) = text_in e ++ texts_in es

abbrev pub thoughts_in : List Event → Str
thoughts_in [] = []
thoughts_in (e ∷ es) = thinking_in e ++ thoughts_in es

Streams-push :
    (before : List Message) (x y : Str) (s q : ChannelState) (h : Streams before x y s) (b : Block)
    → q.messages ≡ update_messages h.turn.id (push_block b) s.messages
    → is_empty (text_of text (b ∷ [])) ≡ true
    → is_empty (text_of thinking (b ∷ [])) ≡ true
    → Streams before (x ++ []) (y ++ []) q
Streams-push before x y s q h b e k l =
    Streams-update before x y [] [] s q h (push_block b) e (push-IsExtension b h.turn k l)

Streams-start_tool :
    (before : List Message) (x y : Str) (s : ChannelState) (c : ContentStart) (p : Option Str)
    (h : Streams before x y s)
    → Streams before (x ++ []) (y ++ []) (start_tool s h.turn c p)
unfolding update_turn
Streams-start_tool before x y s c p h = elim (Option-cases c.id) [
  | inl k ↦ Streams-same before x y s (start_tool s h.turn c p) (rw k refl) h
  | inr (tool_id, k) ↦ elim (Bool-cases (is_empty tool_id)) [
    | inl e ↦ Streams-same before x y s (start_tool s h.turn c p) (rw (k, e) refl) h
    | inr e ↦
        let b : Block = record (new_block s.next_id tool_use (or_default c.name (lit "Unknown"))) {
          tool_id = some tool_id;
          input = some (obj end);
          parent_tool_use_id = p;
        } in
        Streams-push before x y s (start_tool s h.turn c p) h b (rw (k, e) refl) refl refl
  ]
]

Streams-start_in :
    (before : List Message) (x y : Str) (s : ChannelState) (start : BlockStart) (p : Option Str)
    (h : Streams before x y s)
    → Streams before (x ++ []) (y ++ []) (start_in s h.turn start p)
unfolding start_in update_turn
Streams-start_in before x y s (tool_use_start (some c)) p h = Streams-start_tool before x y s c p h
Streams-start_in before x y s (tool_use_start none) p h =
    Streams-push before x y s (start_block s h.turn text) h (new_block s.next_id text []) refl refl
      refl
Streams-start_in before x y s thinking_start p h =
    Streams-push before x y s (start_block s h.turn thinking) h (new_block s.next_id thinking [])
      refl refl refl
Streams-start_in before x y s other_start p h =
    Streams-push before x y s (start_block s h.turn text) h (new_block s.next_id text []) refl refl
      refl

Streams-handle :
    (before : List Message) (x y : Str) (s : ChannelState) (e : Event)
    → Streams before x y s
    → Streams before (x ++ text_in e) (y ++ thinking_in e) (handle s e)
unfolding handle on_stream_chunk on_block_start
Streams-handle before x y s (text_comes c) h = Streams-text before x y c s h
Streams-handle before x y s (thinking_comes c n) h = Streams-thinking before x y c n s h
Streams-handle before x y s (input_comes c) h = Streams-input before x y c s h
Streams-handle before x y s (block_starts start p) h =
    rw (Streams-ensured before x y s h) (Streams-start_in before x y s start p h)
Streams-handle before x y s block_stops h = Streams-stop before x y s h
Streams-handle before x y s (message_delta r n) h = Streams-delta before x y r n s h

Streams-handle_all :
    (before : List Message) (x y : Str) (s : ChannelState) (es : List Event)
    → Streams before x y s
    → Streams before (x ++ texts_in es) (y ++ thoughts_in es) (handle_all s es)
unfolding handle_all
Streams-handle_all before x y s [] h = rw (append-nil x, append-nil y) h
Streams-handle_all before x y s (e ∷ es) h =
    let rest =
      Streams-handle_all before (x ++ text_in e) (y ++ thinking_in e) (handle s e) es
        (Streams-handle before x y s e h) in
    rw
      (
        ← append_assoc x (text_in e) (texts_in es),
        ← append_assoc y (thinking_in e) (thoughts_in es),
      )
      rest

Streams-on_message_start :
    (s : ChannelState) (model id : Option Str) (usage : Usage)
    → All (IsBefore s.next_id) s.messages
    → Streams s.messages [] [] (on_message_start s model id usage)
unfolding on_message_start
Streams-on_message_start s model id usage h = record {
  turn = _;
  messages_are = refl;
  is_on = refl;
  content_is = refl;
  text_is = refl;
  thinking_is = refl;
  older = h;
}

-- what a client has at the end of a stream: the earlier messages, and one turn that has ended, with
-- these texts and thoughts
pub record IsStreamed (before : List Message) (texts thoughts : Str) (s : ChannelState)
    : Type 0 where
  pub turn : Turn
  pub messages_are : s.messages ≡ (before ++ assistant_turn turn ∷ [])
  pub is_off : turn.is_streaming ≡ false
  pub content_is : turn.content ≡ texts
  pub text_is : text_of text turn.blocks ≡ texts
  pub thinking_is : text_of thinking turn.blocks ≡ thoughts

Streams-on_stream_end :
    (before : List Message) (x y : Str) (q : ChannelState)
    → Streams before x y q
    → IsStreamed before x y (on_stream_end q)
unfolding on_stream_end update_turn
Streams-on_stream_end before x y q h =
    let ended : Turn → Turn = λ t. record t { is_streaming = false } in
    let found : (on_stream_end q).messages ≡ update_messages h.turn.id ended q.messages =
      rw (Streams-found before x y q h) refl in
    record {
      turn = ended h.turn;
      messages_are =
          found
          ∙ ap (update_messages h.turn.id ended) h.messages_are
          ∙ update_messages-last before h.turn ended h.older;
      is_off = refl;
      content_is = h.content_is;
      text_is = h.text_is;
      thinking_is = h.thinking_is;
    }

-- A message that is streamed, with its blocks in any order and number, its thoughts, its tools and
-- their inputs between its texts, ends as one turn behind the messages that were there, which stay
-- as they were. Its content, and the contents of its blocks of text in order, are all the texts
-- that came, and the contents of its blocks of thinking all the thoughts. The ids of the earlier
-- turns are to be older than the next one.
pub handle_all-streams :
    (s : ChannelState) (model id : Option Str) (usage : Usage) (es : List Event)
    → All (IsBefore s.next_id) s.messages
    → IsStreamed s.messages
        (texts_in es)
        (thoughts_in es)
        (on_stream_end (handle_all (on_message_start s model id usage) es))
handle_all-streams s model id usage es older =
    Streams-on_stream_end s.messages (texts_in es) (thoughts_in es)
      (handle_all (on_message_start s model id usage) es)
      (Streams-handle_all s.messages [] [] (on_message_start s model id usage) es
        (Streams-on_message_start s model id usage older))
