-- ===== src/Streaming/Growth.antt =====
-- A turn while it is streamed, event by event.
use code_quest.Common.{
  ℕ, ◌≡◌, refl, ap, subst, sym, ◌∙◌, Bool, true, false, List, [], ◌∷◌, ◌++◌, map, append-nil,
  Option, some, Str, if◌then◌else◌, str_eq, arith, All, any, Option-cases, Bool-cases, inl, inr,
  or_default,
}
use code_quest.Streaming.Turns.{
  thinking, text, Block, Turn, Message, assistant_turn, ChannelState, is_empty, find_streaming_turn,
  update_messages, update_turn, has_block, update_last_block, has_tool_id, update_block_by_tool_id,
  ensure_streaming_turn, new_block, push_block,
}
use code_quest.Streaming.Chunks.{
  text_into, on_text_chunk, add_content, more_tokens, thinking_into, on_thinking_chunk, add_partial,
  on_input_json_chunk, on_message_delta, no_usage, is_thinking_now, stop_thinking, on_block_stop,
}
use code_quest.Streaming.Accumulation.{
  text_of, text_of-append, IsAddition, text_of-update_last, text_of-update_other, IsKeeping,
  text_of-map, IsBefore, find_streaming_turn-last, update_messages-last,
}

-- The last message is a turn that streams, with these texts and thoughts.
pub record Streams (before : List Message) (texts thoughts : Str) (s : ChannelState) : Type 0 where
  pub turn : Turn
  pub messages_are : s.messages ≡ (before ++ assistant_turn turn ∷ [])
  pub is_on : turn.is_streaming ≡ true
  pub content_is : turn.content ≡ texts
  pub text_is : text_of text turn.blocks ≡ texts
  pub thinking_is : text_of thinking turn.blocks ≡ thoughts
  pub older : All (IsBefore turn.id) before

pub Streams-found :
    (before : List Message) (x y : Str) (s : ChannelState) (h : Streams before x y s)
    → find_streaming_turn s.messages ≡ some h.turn
Streams-found before x y s h =
    ap find_streaming_turn h.messages_are ∙ find_streaming_turn-last before h.turn h.is_on

pub Streams-ensured :
    (before : List Message) (x y : Str) (s : ChannelState) (h : Streams before x y s)
    → ensure_streaming_turn s ≡ (s, h.turn)
unfolding ensure_streaming_turn
Streams-ensured before x y s h = ground (arith, Streams-found before x y s h)

-- what an update of the turn keeps and adds
pub record IsExtension (c d : Str) (t u : Turn) : Type 0 where
  pub id_is : u.id ≡ t.id
  pub stays_on : u.is_streaming ≡ t.is_streaming
  pub content_adds : u.content ≡ (t.content ++ c)
  pub text_adds : text_of text u.blocks ≡ (text_of text t.blocks ++ c)
  pub thinking_adds : text_of thinking u.blocks ≡ (text_of thinking t.blocks ++ d)

pub Streams-update :
    (before : List Message) (x y c d : Str) (s q : ChannelState) (h : Streams before x y s)
    (f : Turn → Turn)
    → q.messages ≡ update_messages h.turn.id f s.messages
    → IsExtension c d h.turn (f h.turn)
    → Streams before (x ++ c) (y ++ d) q
Streams-update before x y c d s q h f e k = record {
  turn = f h.turn;
  messages_are =
      e
      ∙ ap (update_messages h.turn.id f) h.messages_are
      ∙ update_messages-last before h.turn f h.older;
  is_on = k.stays_on ∙ h.is_on;
  content_is = k.content_adds ∙ ap (λ z. z ++ c) h.content_is;
  text_is = k.text_adds ∙ ap (λ z. z ++ c) h.text_is;
  thinking_is = k.thinking_adds ∙ ap (λ z. z ++ d) h.thinking_is;
  older = subst (λ i. All (IsBefore i) before) (sym k.id_is) h.older;
}

add_content-IsAddition : (c : Str) → IsAddition c (add_content c)
add_content-IsAddition c = record { adds = λ b. refl; keeps_type = λ b. refl }

text_into-IsExtension :
    (id : ℕ) (c : Str) (has : Bool) (t : Turn)
    → has_block text t.blocks ≡ has
    → IsExtension c [] t (text_into id c has t)
unfolding text_into update_last_block
text_into-IsExtension id c true t h = record {
  id_is = refl;
  stays_on = refl;
  content_adds = refl;
  text_adds = text_of-update_last text c (add_content c) t.blocks (add_content-IsAddition c) h;
  thinking_adds =
      text_of-update_other text thinking c (add_content c) t.blocks (add_content-IsAddition c)
        (λ b k. ground (arith, k))
      ∙ sym (append-nil (text_of thinking t.blocks));
}
text_into-IsExtension id c false t h = record {
  id_is = refl;
  stays_on = refl;
  content_adds = refl;
  text_adds =
      text_of-append text t.blocks (new_block id text c ∷ [])
      ∙ ap (λ z. text_of text t.blocks ++ z) (append-nil c);
  thinking_adds = text_of-append thinking t.blocks (new_block id text c ∷ []);
}

pub Streams-text :
    (before : List Message) (x y c : Str) (s : ChannelState)
    → Streams before x y s
    → Streams before (x ++ c) (y ++ []) (on_text_chunk s c)
unfolding on_text_chunk update_turn
Streams-text before x y c s h =
    Streams-update before x y c [] s (on_text_chunk s c) h
      (text_into s.next_id c (has_block text h.turn.blocks))
      (rw (Streams-ensured before x y s h) refl)
      (text_into-IsExtension s.next_id c (has_block text h.turn.blocks) h.turn refl)

thinking_into-IsExtension :
    (id : ℕ) (c : Str) (n : Option ℕ) (has : Bool) (t : Turn)
    → has_block thinking t.blocks ≡ has
    → IsExtension [] c t (thinking_into id c n has t)
unfolding thinking_into update_last_block
thinking_into-IsExtension id c n true t h =
    let f : Block → Block = λ b. record b {
      content = b.content ++ c;
      estimated_tokens = more_tokens n b.estimated_tokens;
    } in
    let adds_c : IsAddition c f = record { adds = λ b. refl; keeps_type = λ b. refl } in
    record {
      id_is = refl;
      stays_on = refl;
      content_adds = sym (append-nil t.content);
      text_adds =
          text_of-update_other thinking text c f t.blocks adds_c (λ b k. ground (arith, k))
          ∙ sym (append-nil (text_of text t.blocks));
      thinking_adds = text_of-update_last thinking c f t.blocks adds_c h;
    }
thinking_into-IsExtension id c n false t h =
    let b : Block = record (new_block id thinking c) {
      is_streaming = true;
      estimated_tokens = n;
    } in
    record {
      id_is = refl;
      stays_on = refl;
      content_adds = sym (append-nil t.content);
      text_adds = text_of-append text t.blocks (b ∷ []);
      thinking_adds =
          text_of-append thinking t.blocks (b ∷ [])
          ∙ ap (λ z. text_of thinking t.blocks ++ z) (append-nil c);
    }

pub Streams-thinking :
    (before : List Message) (x y c : Str) (n : Option ℕ) (s : ChannelState)
    → Streams before x y s
    → Streams before (x ++ []) (y ++ c) (on_thinking_chunk s c n)
unfolding on_thinking_chunk update_turn
Streams-thinking before x y c n s h =
    Streams-update before x y [] c s (on_thinking_chunk s c n) h
      (thinking_into s.next_id c n (has_block thinking h.turn.blocks))
      (rw (Streams-ensured before x y s h) refl)
      (thinking_into-IsExtension s.next_id c n (has_block thinking h.turn.blocks) h.turn refl)

-- an update of the blocks one by one that says nothing new
map-IsExtension :
    (f : Block → Block) (t : Turn)
    → IsKeeping f
    → IsExtension [] [] t (record t { blocks = map f t.blocks })
map-IsExtension f t k = record {
  id_is = refl;
  stays_on = refl;
  content_adds = sym (append-nil t.content);
  text_adds = text_of-map text f t.blocks k ∙ sym (append-nil (text_of text t.blocks));
  thinking_adds = text_of-map thinking f t.blocks k ∙ sym (append-nil (text_of thinking t.blocks));
}

-- a block that says nothing
pub push-IsExtension :
    (b : Block) (t : Turn)
    → is_empty (text_of text (b ∷ [])) ≡ true
    → is_empty (text_of thinking (b ∷ [])) ≡ true
    → IsExtension [] [] t (push_block b t)
push-IsExtension b t h k = record {
  id_is = refl;
  stays_on = refl;
  content_adds = sym (append-nil t.content);
  text_adds =
      text_of-append text t.blocks (b ∷ [])
      ∙ ap (λ z. text_of text t.blocks ++ z) (none_left (text_of text (b ∷ [])) h);
  thinking_adds =
      text_of-append thinking t.blocks (b ∷ [])
      ∙ ap (λ z. text_of thinking t.blocks ++ z) (none_left (text_of thinking (b ∷ [])) k);
}
  where
    none_left : (z : Str) → is_empty z ≡ true → z ≡ []
    none_left [] e = refl
    none_left (c ∷ z) e = ground (arith, e)

pub Streams-same :
    (before : List Message) (x y : Str) (s q : ChannelState)
    → q.messages ≡ s.messages
    → Streams before x y s
    → Streams before (x ++ []) (y ++ []) q
Streams-same before x y s q e h = record {
  turn = h.turn;
  messages_are = e ∙ h.messages_are;
  is_on = h.is_on;
  content_is = h.content_is ∙ sym (append-nil x);
  text_is = h.text_is ∙ sym (append-nil x);
  thinking_is = h.thinking_is ∙ sym (append-nil y);
  older = h.older;
}

add_partial-IsKeeping :
    (target c : Str) → IsKeeping (λ b. if has_tool_id target b then add_partial c b else b)
add_partial-IsKeeping target c = record {
  keeps_content = λ b. ground arith;
  keeps_type = λ b. ground arith;
}

pub Streams-input :
    (before : List Message) (x y c : Str) (s : ChannelState)
    → Streams before x y s
    → Streams before (x ++ []) (y ++ []) (on_input_json_chunk s c)
unfolding on_input_json_chunk update_turn update_block_by_tool_id
Streams-input before x y c s h = elim (Option-cases s.streaming_tool_use_id) [
  | inl k ↦ Streams-same before x y s (on_input_json_chunk s c) (rw k refl) h
  | inr (target, k) ↦ elim (Bool-cases (is_empty target)) [
    | inl e ↦ Streams-same before x y s (on_input_json_chunk s c) (rw (k, e) refl) h
    | inr e ↦
        let f : Block → Block = λ b. if has_tool_id target b then add_partial c b else b in
        Streams-update before x y [] [] s (on_input_json_chunk s c) h
          (λ t. record t { blocks = map f t.blocks }) (rw (k, e, Streams-found before x y s h) refl)
          (map-IsExtension f h.turn (add_partial-IsKeeping target c))
  ]
]

stop_thinking-IsKeeping :
    IsKeeping (λ b. if is_thinking_now b then record b { is_streaming = false } else b)
stop_thinking-IsKeeping = record {
  keeps_content = λ b. ground arith;
  keeps_type = λ b. ground arith;
}

pub Streams-stop :
    (before : List Message) (x y : Str) (s : ChannelState)
    → Streams before x y s
    → Streams before (x ++ []) (y ++ []) (on_block_stop s)
unfolding on_block_stop update_turn
Streams-stop before x y s h = elim (Bool-cases (any is_thinking_now h.turn.blocks)) [
  | inl e ↦
      Streams-update before x y [] [] s (on_block_stop s) h stop_thinking
        (rw (Streams-found before x y s h, e) refl)
        (map-IsExtension _ h.turn stop_thinking-IsKeeping)
  | inr e ↦
      Streams-same before x y s (on_block_stop s) (rw (Streams-found before x y s h, e) refl) h
]

pub Streams-delta :
    (before : List Message) (x y : Str) (r : Option Str) (n : ℕ) (s : ChannelState)
    → Streams before x y s
    → Streams before (x ++ []) (y ++ []) (on_message_delta s r n)
unfolding on_message_delta update_turn
Streams-delta before x y r n s h =
    let f : Turn → Turn = λ t. record t {
      stop_reason = r;
      usage = some (record (or_default t.usage no_usage) { output_tokens = n });
    } in
    Streams-update before x y [] [] s (on_message_delta s r n) h f
      (rw (Streams-found before x y s h) refl)
      (record {
        id_is = refl;
        stays_on = refl;
        content_adds = sym (append-nil h.turn.content);
        text_adds = sym (append-nil (text_of text h.turn.blocks));
        thinking_adds = sym (append-nil (text_of thinking h.turn.blocks));
      })
