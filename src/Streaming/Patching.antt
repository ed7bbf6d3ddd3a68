-- ===== src/Streaming/Patching.antt =====
-- What the message that repeats a streamed turn changes in it.
use code_quest.Common.{
  ℕ, ◌≡◌, refl, ap, ◌∙◌, true, List, [], ◌∷◌, map, Option, none, some, Str, nat_beq, str_eq,
  str_beq_iff, arith, All, any, is_some, Option-cases, Bool-cases, inl, inr,
}
use code_quest.Common.Json.{Json}
use code_quest.Common.Keys.{member, member-add}
use code_quest.Streaming.Turns.{
  Turn, Message, assistant_turn, compact_boundary, other, ChannelState, find_streaming_turn,
  update_messages, update_turn,
}
use code_quest.Streaming.Assistant.{
  ContentBlock, text_content, thinking_content, tool_content, other_content, find_tool_turn,
  patch_in, patched_with, patch_each, patch_tool_use_across_turns, live_blocks, add_live, live_path,
  live_turn, take_in, on_message_assistant_handler,
}
use code_quest.Streaming.Outline.{
  outline, IsComplete, has_tool_in, AreKnown, patching, patching-IsSilent, outline-update,
  tool-update, complete-update, id_of, found-update,
}

-- What stays while the inputs of tools are filled in.
record IsLike (n : ℕ) (ms ns : List Message) : Type 0 where
  outlined : map outline ns ≡ map outline ms
  found : id_of (find_streaming_turn ns) ≡ id_of (find_streaming_turn ms)
  tooled : (j : Str) → any (has_tool_in j) ns ≡ any (has_tool_in j) ms
  complete : All (IsComplete n) ns

patch_in-IsLike :
    (n : ℕ) (s : ChannelState) (i : Str) (x : Json) (m : Option Str) (o : Option Turn)
    → All (IsComplete n) s.messages
    → IsLike n s.messages (patch_in s i x m o).messages
unfolding update_turn patching patch_in
patch_in-IsLike n s i x m none h = record {
  outlined = refl;
  found = refl;
  tooled = λ j. refl;
  complete = h;
}
patch_in-IsLike n s i x m (some t) h =
    let f = patching i x m in
    let k = patching-IsSilent i x m in
    record {
      outlined = outline-update t.id f s.messages k;
      found = found-update t.id f s.messages k;
      tooled = λ j. tool-update t.id f j s.messages k;
      complete = complete-update t.id n f s.messages k h;
    }

AreKnown-like :
    (ms ns : List Message) (content : List ContentBlock)
    → ((j : Str) → any (has_tool_in j) ns ≡ any (has_tool_in j) ms)
    → AreKnown ms content
    → AreKnown ns content
AreKnown-like ms ns [] e h = tt
AreKnown-like ms ns (text_content _ ∷ content) e h = AreKnown-like ms ns content e h
AreKnown-like ms ns (thinking_content _ ∷ content) e h = AreKnown-like ms ns content e h
AreKnown-like ms ns (other_content ∷ content) e h = AreKnown-like ms ns content e h
AreKnown-like ms ns (tool_content i _ _ _ ∷ content) e (p, h) =
    (e i ∙ p, AreKnown-like ms ns content e h)

-- Each tool of a content is among these ids.
AreListed : List Str → List ContentBlock → Type 0
AreListed ids [] = Unit
AreListed ids (tool_content i _ _ _ ∷ content) = (member i ids ≡ true) × AreListed ids content
AreListed ids (_ ∷ content) = AreListed ids content

tool_turn-found :
    (i : Str) (ms : List Message) → is_some (find_tool_turn i ms) ≡ any (has_tool_in i) ms
unfolding find_tool_turn
tool_turn-found i [] = refl
tool_turn-found i (assistant_turn t ∷ ms) = elim (Option-cases (find_tool_turn i ms)) [
  | inl e ↦ ground (arith, e, tool_turn-found i ms)
  | inr (u, e) ↦ ground (arith, e, tool_turn-found i ms)
]
tool_turn-found i (compact_boundary c ∷ ms) = tool_turn-found i ms
tool_turn-found i (other n ∷ ms) = tool_turn-found i ms

patched_with-grows :
    (i j : Str) (o : Option Turn) (ids : List Str)
    → member j ids ≡ true
    → member j (patched_with i o ids) ≡ true
patched_with-grows i j none ids h = h
patched_with-grows i j (some t) ids h = ground (arith, h, member-add i j ids)

patched_with-has :
    (i : Str) (o : Option Turn) (ids : List Str)
    → is_some o ≡ true
    → member i (patched_with i o ids) ≡ true
patched_with-has i none ids h = ground (arith, h)
patched_with-has i (some t) ids h = ground (arith, member-add i i ids, str_beq_iff i i)

patch_each-grows :
    (s : ChannelState) (content : List ContentBlock) (ids : List Str) (j : Str)
    → member j ids ≡ true
    → member j (patch_each s content ids).1 ≡ true
unfolding patch_each
patch_each-grows s [] ids j h = h
patch_each-grows s (text_content _ ∷ content) ids j h = patch_each-grows s content ids j h
patch_each-grows s (thinking_content _ ∷ content) ids j h = patch_each-grows s content ids j h
patch_each-grows s (other_content ∷ content) ids j h = patch_each-grows s content ids j h
patch_each-grows s (tool_content i y x m ∷ content) ids j h =
    let o = find_tool_turn i s.messages in
    patch_each-grows (patch_in s i x m o) content (patched_with i o ids) j
      (patched_with-grows i j o ids h)

patch_each-IsLike :
    (n : ℕ) (s : ChannelState) (content : List ContentBlock) (ids : List Str)
    → All (IsComplete n) s.messages
    → AreKnown s.messages content
    → IsLike n s.messages (patch_each s content ids).0.messages
      × AreListed (patch_each s content ids).1 content
unfolding patch_each AreListed
patch_each-IsLike n s [] ids h k =
    (record { outlined = refl; found = refl; tooled = λ j. refl; complete = h }, tt)
patch_each-IsLike n s (text_content _ ∷ content) ids h k = patch_each-IsLike n s content ids h k
patch_each-IsLike n s (thinking_content _ ∷ content) ids h k = patch_each-IsLike n s content ids h k
patch_each-IsLike n s (other_content ∷ content) ids h k = patch_each-IsLike n s content ids h k
patch_each-IsLike n s (tool_content i y x m ∷ content) ids h (p, k) =
    let o = find_tool_turn i s.messages in
    let q = patch_in s i x m o in
    let one = patch_in-IsLike n s i x m o h in
    let more = patched_with i o ids in
    let (rest, listed) =
      patch_each-IsLike n q content more one.complete
        (AreKnown-like s.messages q.messages content one.tooled k) in
    (
      record {
        outlined = rest.outlined ∙ one.outlined;
        found = rest.found ∙ one.found;
        tooled = λ j. rest.tooled j ∙ one.tooled j;
        complete = rest.complete;
      },
      (
        patch_each-grows q content more i
            (patched_with-has i o ids (tool_turn-found i s.messages ∙ p)),
        listed,
      ),
    )

live_blocks-none :
    (id : ℕ) (ids : List Str) (parent : Option Str) (content : List ContentBlock)
    → AreListed ids content
    → live_blocks id true true ids parent content ≡ []
unfolding live_blocks AreListed
live_blocks-none id ids parent [] h = refl
live_blocks-none id ids parent (text_content _ ∷ content) h =
    live_blocks-none id ids parent content h
live_blocks-none id ids parent (thinking_content _ ∷ content) h =
    live_blocks-none id ids parent content h
live_blocks-none id ids parent (other_content ∷ content) h =
    live_blocks-none id ids parent content h
live_blocks-none id ids parent (tool_content i _ _ _ ∷ content) (p, h) =
    rw p (live_blocks-none id ids parent content h)

update-add_live :
    (id n : ℕ) (content : List ContentBlock) (ids : List Str) (parent : Option Str)
    (ms : List Message)
    → AreListed ids content
    → All (IsComplete n) ms
    → update_messages n (add_live id content ids parent) ms ≡ ms
unfolding update_messages add_live
update-add_live id n content ids parent [] l h = refl
update-add_live id n content ids parent (assistant_turn t ∷ ms) l (p, h) =
    elim (Bool-cases (nat_beq t.id n)) [
      | inl e ↦
          let (has_text, has_thinking) = p e in
          rw (e, has_text, has_thinking, live_blocks-none id ids parent content l)
            (ap (λ rest. assistant_turn t ∷ rest) (update-add_live id n content ids parent ms l h))
      | inr e ↦
          rw e
            (ap (λ rest. assistant_turn t ∷ rest) (update-add_live id n content ids parent ms l h))
    ]
update-add_live id n content ids parent (compact_boundary c ∷ ms) l (_, h) =
    ap (λ rest. compact_boundary c ∷ rest) (update-add_live id n content ids parent ms l h)
update-add_live id n content ids parent (other m ∷ ms) l (_, h) =
    ap (λ rest. other m ∷ rest) (update-add_live id n content ids parent ms l h)

messages-take_in :
    (n : ℕ) (s : ChannelState) (content : List ContentBlock) (ids : List Str) (o : Option Turn)
    → id_of o ≡ some n
    → AreListed ids content
    → All (IsComplete n) s.messages
    → (take_in s content ids none o).messages ≡ s.messages
unfolding take_in live_path update_turn id_of
messages-take_in n s content ids none e l h = absurd (ground (arith, e))
messages-take_in n s content ids (some t) e l h =
    let same : t.id ≡ n = ground (arith, e) in
    rw same (update-add_live s.next_id n content ids none s.messages l h)

-- When the message comes that repeats a turn which is being streamed, which has a text and a thought,
-- and whose tools are all known, it adds nothing: of every message the content stays, and its blocks
-- with their contents in their order, so that no text, no thought and no tool is shown twice.
pub outline-on_message_assistant :
    (s : ChannelState) (turn : Turn) (content : List ContentBlock)
    → find_streaming_turn s.messages ≡ some turn
    → All (IsComplete turn.id) s.messages
    → AreKnown s.messages content
    → map outline (on_message_assistant_handler s content none).messages ≡ map outline s.messages
unfolding on_message_assistant_handler patch_tool_use_across_turns live_turn id_of
outline-on_message_assistant s turn content e h k =
    let (like, listed) = patch_each-IsLike turn.id s content [] h k in
    let (q, ids) = patch_each s content [] in
    ap (map outline) (
      messages-take_in turn.id q content ids (find_streaming_turn q.messages)
        (like.found ∙ ap id_of e) listed like.complete)
    ∙ like.outlined
