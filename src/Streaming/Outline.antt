-- ===== src/Streaming/Outline.antt =====
-- What is seen of a turn, and updates that leave it as it is.
use code_quest.Common.{
  ℕ, ◌≡◌, refl, ap, Bool, true, false, List, [], ◌∷◌, map, Option, none, some, Str, nat_beq, str_eq,
  arith, All, any, Bool-cases, inl, inr,
}
use code_quest.Common.Json.{Json}
use code_quest.Streaming.Turns.{
  BlockType, thinking, text, tool_use, Block, Turn, Message, assistant_turn, compact_boundary,
  other, is_type, find_streaming_turn, update_messages, has_block,
}
use code_quest.Streaming.Assistant.{ContentBlock, tool_content, is_tool, patch, patch_first}

-- what is seen of a message besides the inputs of its tools
abbrev pub outline_blocks : List Block → List (ℕ × Str)
outline_blocks [] = []
outline_blocks (b ∷ bs) = (b.id, b.content) ∷ outline_blocks bs

abbrev pub outline : Message → Option (Str × List (ℕ × Str))
outline (assistant_turn t) = some (t.content, outline_blocks t.blocks)
outline (compact_boundary _) = none
outline (other _) = none

-- a turn of this id has a text and a thought
abbrev pub IsComplete : ℕ → Message → Type 0
IsComplete id (assistant_turn t) =
    nat_beq t.id id ≡ true → (has_block text t.blocks ≡ true) × (has_block thinking t.blocks ≡ true)
IsComplete id (compact_boundary _) = Unit
IsComplete id (other _) = Unit

abbrev pub has_tool_in : Str → Message → Bool
has_tool_in tool_id (assistant_turn t) = any (is_tool tool_id) t.blocks
has_tool_in tool_id _ = false

-- Each tool of a content has a block in some turn.
abbrev pub AreKnown : List Message → List ContentBlock → Type 0
AreKnown ms [] = Unit
AreKnown ms (tool_content tool_id _ _ _ ∷ content) =
    (any (has_tool_in tool_id) ms ≡ true) × AreKnown ms content
AreKnown ms (_ ∷ content) = AreKnown ms content

-- an update of a turn that leaves what is seen, and which tools there are
pub record IsSilent (f : Turn → Turn) : Type 0 where
  pub keeps_id : (t : Turn) → (f t).id ≡ t.id
  pub keeps_streaming : (t : Turn) → (f t).is_streaming ≡ t.is_streaming
  pub keeps_outline : (t : Turn) → outline (assistant_turn (f t)) ≡ outline (assistant_turn t)
  pub keeps_type : (ty : BlockType) (t : Turn) → has_block ty (f t).blocks ≡ has_block ty t.blocks
  pub keeps_tool :
      (tool_id : Str) (t : Turn)
      → any (is_tool tool_id) (f t).blocks ≡ any (is_tool tool_id) t.blocks

outline-patch_first :
    (i : Str) (x : Json) (m : Option Str) (bs : List Block)
    → outline_blocks (patch_first i x m bs) ≡ outline_blocks bs
unfolding patch_first
outline-patch_first i x m [] = refl
outline-patch_first i x m (b ∷ bs) = ground (arith, outline-patch_first i x m bs)

is_type-patch :
    (ty : BlockType) (x : Json) (m : Option Str) (b : Block)
    → is_type ty (patch x m b) ≡ is_type ty b
is_type-patch thinking x m b = refl
is_type-patch text x m b = refl
is_type-patch tool_use x m b = refl

type-patch_first :
    (ty : BlockType) (i : Str) (x : Json) (m : Option Str) (bs : List Block)
    → has_block ty (patch_first i x m bs) ≡ has_block ty bs
unfolding patch_first
type-patch_first ty i x m [] = refl
type-patch_first ty i x m (b ∷ bs) =
    ground (arith, type-patch_first ty i x m bs, is_type-patch ty x m b)

tool-patch_first :
    (j i : Str) (x : Json) (m : Option Str) (bs : List Block)
    → any (is_tool j) (patch_first i x m bs) ≡ any (is_tool j) bs
unfolding patch_first
tool-patch_first j i x m [] = refl
tool-patch_first j i x m (b ∷ bs) = ground (arith, tool-patch_first j i x m bs)

unfoldable pub patching : Str → Json → Option Str → Turn → Turn
patching i x m t = record t { blocks = patch_first i x m t.blocks }

pub patching-IsSilent : (i : Str) (x : Json) (m : Option Str) → IsSilent (patching i x m)
unfolding patching
patching-IsSilent i x m = record {
  keeps_id = λ t. refl;
  keeps_streaming = λ t. refl;
  keeps_outline = λ t. ap (λ o. some (t.content, o)) (outline-patch_first i x m t.blocks);
  keeps_type = λ ty t. type-patch_first ty i x m t.blocks;
  keeps_tool = λ j t. tool-patch_first j i x m t.blocks;
}

pub outline-update :
    (id : ℕ) (f : Turn → Turn) (ms : List Message)
    → IsSilent f
    → map outline (update_messages id f ms) ≡ map outline ms
unfolding update_messages
outline-update id f [] k = refl
outline-update id f (assistant_turn t ∷ ms) k = elim (Bool-cases (nat_beq t.id id)) [
  | inl e ↦ rw (e, k.keeps_outline t, outline-update id f ms k) refl
  | inr e ↦ rw (e, outline-update id f ms k) refl
]
outline-update id f (compact_boundary c ∷ ms) k = rw (outline-update id f ms k) refl
outline-update id f (other n ∷ ms) k = rw (outline-update id f ms k) refl

pub tool-update :
    (id : ℕ) (f : Turn → Turn) (j : Str) (ms : List Message)
    → IsSilent f
    → any (has_tool_in j) (update_messages id f ms) ≡ any (has_tool_in j) ms
unfolding update_messages
tool-update id f j [] k = refl
tool-update id f j (assistant_turn t ∷ ms) k =
    ground (arith, k.keeps_tool j t, tool-update id f j ms k)
tool-update id f j (compact_boundary c ∷ ms) k = tool-update id f j ms k
tool-update id f j (other n ∷ ms) k = tool-update id f j ms k

pub complete-update :
    (id n : ℕ) (f : Turn → Turn) (ms : List Message)
    → IsSilent f
    → All (IsComplete n) ms
    → All (IsComplete n) (update_messages id f ms)
unfolding update_messages
complete-update id n f [] k h = tt
complete-update id n f (assistant_turn t ∷ ms) k (p, h) = (
  λ e. ground (arith, e, p, k.keeps_id t, k.keeps_type text t, k.keeps_type thinking t),
  complete-update id n f ms k h,
)
complete-update id n f (compact_boundary c ∷ ms) k (_, h) = (tt, complete-update id n f ms k h)
complete-update id n f (other m ∷ ms) k (_, h) = (tt, complete-update id n f ms k h)

unfoldable pub id_of : Option Turn → Option ℕ
id_of none = none
id_of (some t) = some t.id

later-id :
    (o p y z : Option Turn)
    → id_of o ≡ id_of p
    → id_of y ≡ id_of z
    → id_of (elim o as (λ _. Option Turn) [ none ↦ y | some t ↦ some t ])
      ≡ id_of (elim p as (λ _. Option Turn) [ none ↦ z | some t ↦ some t ])
unfolding id_of
later-id none none y z h k = k
later-id none (some u) y z h k = absurd (ground (arith, h))
later-id (some t) none y z h k = absurd (ground (arith, h))
later-id (some t) (some u) y z h k = h

pub found-update :
    (id : ℕ) (f : Turn → Turn) (ms : List Message)
    → IsSilent f
    → id_of (find_streaming_turn (update_messages id f ms)) ≡ id_of (find_streaming_turn ms)
unfolding update_messages find_streaming_turn id_of
found-update id f [] k = refl
found-update id f (assistant_turn t ∷ ms) k =
    later-id (find_streaming_turn (update_messages id f ms)) (find_streaming_turn ms) _ _
      (found-update id f ms k) (ground (arith, k.keeps_id t, k.keeps_streaming t))
found-update id f (compact_boundary c ∷ ms) k =
    later-id (find_streaming_turn (update_messages id f ms)) (find_streaming_turn ms) none none
      (found-update id f ms k) refl
found-update id f (other n ∷ ms) k =
    later-id (find_streaming_turn (update_messages id f ms)) (find_streaming_turn ms) none none
      (found-update id f ms k) refl
