-- ===== src/Streaming/Accumulation.antt =====
-- What a turn holds while it is streamed.
use code_quest.Common.{
  ℕ, ◌<◌, ◌≡◌, refl, ap, sym, ◌∙◌, true, false, List, [], ◌∷◌, ◌++◌, map, append-nil, append_assoc,
  some, Str, if◌then◌else◌, str_eq, arith, All, Bool-cases, inl, inr,
}
use code_quest.Streaming.Turns.{
  BlockType, thinking, text, tool_use, Block, Turn, Message, assistant_turn, compact_boundary,
  other, is_type, find_streaming_turn, update_messages, has_block, update_last_in,
}

-- the contents of the blocks of a type, one after the other
abbrev pub text_of : BlockType → List Block → Str
text_of type [] = []
text_of type (b ∷ bs) = (if is_type type b then b.content else []) ++ text_of type bs

pub text_of-append :
    (ty : BlockType) (bs cs : List Block) → text_of ty (bs ++ cs) ≡ (text_of ty bs ++ text_of ty cs)
text_of-append ty [] cs = refl
text_of-append ty (b ∷ bs) cs =
    ap (λ rest. (if is_type ty b then b.content else []) ++ rest) (text_of-append ty bs cs)
    ∙ sym (append_assoc (if is_type ty b then b.content else []) (text_of ty bs) (text_of ty cs))

-- an update of blocks that adds to their content and leaves their type
pub record IsAddition (content : Str) (f : Block → Block) : Type 0 where
  pub adds : (b : Block) → (f b).content ≡ (b.content ++ content)
  pub keeps_type : (b : Block) → (f b).type ≡ b.type

pub is_type-keeps : (ty : BlockType) (b c : Block) → c.type ≡ b.type → is_type ty c ≡ is_type ty b
is_type-keeps thinking b c h = ground (arith, h)
is_type-keeps text b c h = ground (arith, h)
is_type-keeps tool_use b c h = ground (arith, h)

pub text_of-none : (ty : BlockType) (bs : List Block) → has_block ty bs ≡ false → text_of ty bs ≡ []
text_of-none ty [] h = refl
text_of-none ty (b ∷ bs) h = ground (arith, h, text_of-none ty bs)

pub text_of-update_last :
    (ty : BlockType) (content : Str) (f : Block → Block) (bs : List Block)
    → IsAddition content f
    → has_block ty bs ≡ true
    → text_of ty (update_last_in ty f bs) ≡ (text_of ty bs ++ content)
unfolding update_last_in
text_of-update_last ty content f [] a h = ground (arith, h)
text_of-update_last ty content f (b ∷ bs) a h = elim (Bool-cases (has_block ty bs)) [
  | inl later ↦ rw later (
      ap (λ rest. (if is_type ty b then b.content else []) ++ rest)
        (text_of-update_last ty content f bs a later)
      ∙ sym (append_assoc (if is_type ty b then b.content else []) (text_of ty bs) content))
  | inr last ↦
      let here : is_type ty b ≡ true = ground (arith, h, last) in
      rw (last, here, is_type-keeps ty b (f b) (a.keeps_type b), text_of-none ty bs last, a.adds b)
        (rw (here, append-nil (b.content ++ content), append-nil b.content) refl)
]

pub text_of-update_other :
    (ty ty2 : BlockType) (content : Str) (f : Block → Block) (bs : List Block)
    → IsAddition content f
    → ((b : Block) → is_type ty b ≡ true → is_type ty2 b ≡ false)
    → text_of ty2 (update_last_in ty f bs) ≡ text_of ty2 bs
unfolding update_last_in
text_of-update_other ty ty2 content f [] a apart = refl
text_of-update_other ty ty2 content f (b ∷ bs) a apart = elim (Bool-cases (has_block ty bs)) [
  | inl later ↦ rw later (
      ap (λ rest. (if is_type ty2 b then b.content else []) ++ rest)
        (text_of-update_other ty ty2 content f bs a apart))
  | inr last ↦ elim (Bool-cases (is_type ty b)) [
    | inl here ↦ rw (last, here, is_type-keeps ty2 b (f b) (a.keeps_type b), apart b here) refl
    | inr not_here ↦ rw (last, not_here) refl
  ]
]

-- an update of blocks that leaves content and type
pub record IsKeeping (f : Block → Block) : Type 0 where
  pub keeps_content : (b : Block) → (f b).content ≡ b.content
  pub keeps_type : (b : Block) → (f b).type ≡ b.type

pub text_of-map :
    (ty : BlockType) (f : Block → Block) (bs : List Block)
    → IsKeeping f
    → text_of ty (map f bs) ≡ text_of ty bs
text_of-map ty f [] k = refl
text_of-map ty f (b ∷ bs) k =
    rw (is_type-keeps ty b (f b) (k.keeps_type b), k.keeps_content b, text_of-map ty f bs k) refl

-- a message whose turn has an earlier id
abbrev pub IsBefore : ℕ → Message → Type 0
IsBefore id (assistant_turn t) = t.id < id
IsBefore id (compact_boundary _) = Unit
IsBefore id (other _) = Unit

pub find_streaming_turn-last :
    (before : List Message) (t : Turn)
    → t.is_streaming ≡ true
    → find_streaming_turn (before ++ assistant_turn t ∷ []) ≡ some t
unfolding find_streaming_turn
find_streaming_turn-last [] t h = rw h refl
find_streaming_turn-last (m ∷ before) t h = rw (find_streaming_turn-last before t h) refl

pub update_messages-last :
    (before : List Message) (t : Turn) (f : Turn → Turn)
    → All (IsBefore t.id) before
    → update_messages t.id f (before ++ assistant_turn t ∷ [])
      ≡ (before ++ assistant_turn (f t) ∷ [])
unfolding update_messages
update_messages-last [] t f h = ground arith
update_messages-last (assistant_turn u ∷ before) t f (p, h) =
    ground (arith, p, update_messages-last before t f h)
update_messages-last (compact_boundary c ∷ before) t f (_, h) =
    ap (λ rest. compact_boundary c ∷ rest) (update_messages-last before t f h)
update_messages-last (other n ∷ before) t f (_, h) =
    ap (λ rest. other n ∷ rest) (update_messages-last before t f h)
