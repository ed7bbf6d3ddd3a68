-- ===== src/Timeline/Defs.antt =====
-- The messages, the runs and the chips.
use code_quest.Common.{
  ℕ, zero, suc, ◌+◌, Bool, true, false, ◌||◌, List, [], ◌∷◌, ◌++◌, Option, none, some, Str,
  if◌then◌else◌, str_eq, ◌==◌, nat_beq, any, find, or_default, length,
}
use code_quest.Common.Text.{lit}
use code_quest.Common.Json.{Json, Fields, str, prop}
use code_quest.Common.Map.{Map, get, set}

pub data BlockType : Type 0 where
  thinking text tool : BlockType

pub record Block : Type 0 where
  pub type : BlockType
  pub content : Str
  pub input : Option Fields

-- The types of messages that this code tells apart; `result` is the `is_error` of a result.
pub data Message : Type 0 where
  tool_use : (content : Str) → (input : Option Fields) → (result : Option (Option Bool)) → Message
  assistant_turn : List Block → Message
  action_result : ℕ → Message
  pending_action : ℕ → Message
  other : ℕ → Message

pub data TimelineRun : Type 0 where
  grouped : List Message → TimelineRun
  solo : Message → TimelineRun

abbrev pub is_text : Block → Bool
is_text b = elim b.type [ thinking ↦ false | text ↦ true | tool ↦ false ]

abbrev pub is_tool : Block → Bool
is_tool b = elim b.type [ thinking ↦ false | text ↦ false | tool ↦ true ]

unfoldable pub is_tool_use_message : Message → Bool
is_tool_use_message (tool_use _ _ _) = true
is_tool_use_message (assistant_turn blocks) =
    if any is_text blocks then false else any is_tool blocks
is_tool_use_message _ = false

pub record ToolUse : Type 0 where
  pub content : Str
  pub input : Option Fields
  pub result : Option (Option Bool)

abbrev of_block : Option Block → Option ToolUse
of_block none = none
of_block (some b) = some (record { content = b.content; input = b.input; result = none })

unfoldable pub get_tool_use_meta : Message → Option ToolUse
get_tool_use_meta (tool_use content input result) =
    some (record { content = content; input = input; result = result })
get_tool_use_meta (assistant_turn blocks) = of_block (find is_tool blocks)
get_tool_use_meta _ = none

unfoldable pub is_permission_message : Message → Bool
is_permission_message (action_result _) = true
is_permission_message (pending_action _) = true
is_permission_message _ = false

unfoldable pub flush_pending : List Message → List TimelineRun
flush_pending [] = []
flush_pending (m ∷ []) = solo m ∷ []
flush_pending (m ∷ n ∷ rest) = grouped (m ∷ n ∷ rest) ∷ []

abbrev pub folds : Message → Bool
unfolding is_tool_use_message is_permission_message
folds m = is_tool_use_message m || is_permission_message m

-- the loop, with the messages that are pending
unfoldable pub split_from : List Message → List Message → List TimelineRun
unfolding flush_pending folds
split_from pending [] = flush_pending pending
split_from pending (m ∷ messages) =
    let longer = split_from (pending ++ m ∷ []) messages in
    let fresh = split_from [] messages in
    if folds m then longer else flush_pending pending ++ solo m ∷ fresh

unfoldable pub split_timeline_runs : List Message → List TimelineRun
unfolding split_from
split_timeline_runs messages = split_from [] messages

pub record GroupChip : Type 0 where
  pub label : Str
  pub count : Option ℕ
  pub is_error : Bool

-- what follows the last colon
abbrev pub after_colon : Str → Str → Str
after_colon piece [] = piece
after_colon piece (c ∷ s) = after_colon (if nat_beq c b':' then [] else piece ++ c ∷ []) s

unfoldable pub skill_chip_label : Str → Str
skill_chip_label name = b'/' ∷ after_colon [] name

abbrev string_or : Str → Option Json → Str
string_or fallback (some (str s)) = s
string_or fallback _ = fallback

unfoldable pub str_from_input : Option Fields → Str → Str → Str
str_from_input none key fallback = fallback
str_from_input (some fields) key fallback = string_or fallback (prop key fields)

abbrev pub failed : Option (Option Bool) → Bool
failed (some (some true)) = true
failed _ = false

-- `generic` refers to the chips of the list by their places.
pub record Chips : Type 0 where
  pub chips : List GroupChip
  pub generic : Map Str ℕ

unfoldable pub bump : ℕ → Bool → List GroupChip → List GroupChip
bump n is_error [] = []
bump zero is_error (c ∷ cs) =
    record c { count = some (or_default c.count 1 + 1); is_error = is_error || c.is_error } ∷ cs
bump (suc n) is_error (c ∷ cs) = c ∷ bump n is_error cs

abbrev pub push : GroupChip → Chips → Chips
push c s = record s { chips = s.chips ++ c ∷ [] }

unfoldable pub add_generic : Str → Bool → Chips → Chips
unfolding bump
add_generic name is_error s = elim (get name s.generic) [
  | some n ↦ record s { chips = bump n is_error s.chips }
  | none ↦ record {
    chips = s.chips ++ (record { label = name; count = some 1; is_error = is_error }) ∷ [];
    generic = set name (length s.chips) s.generic;
  }
]

abbrev pub is_empty : Str → Bool
is_empty [] = true
is_empty (_ ∷ _) = false

unfoldable pub add_tool : ToolUse → Chips → Chips
unfolding add_generic skill_chip_label str_from_input
add_tool t s =
    if is_empty t.content
    then s
    else if t.content == lit "Skill"
    then push
        (record {
          label = skill_chip_label (str_from_input t.input (lit "skill") (lit "skill"));
          count = none;
          is_error = failed t.result;
        })
        s
    else if t.content == lit "Task" || t.content == lit "Agent"
    then push
        (record {
          label = str_from_input t.input (lit "description") (lit "Agent");
          count = none;
          is_error = failed t.result;
        })
        s
    else add_generic t.content (failed t.result) s

unfoldable pub add_if_tool : Option ToolUse → Chips → Chips
unfolding add_tool
add_if_tool none s = s
add_if_tool (some t) s = add_tool t s

unfoldable pub add_chips : List Message → Chips → Chips
unfolding add_if_tool get_tool_use_meta
add_chips [] s = s
add_chips (m ∷ messages) s = add_chips messages (add_if_tool (get_tool_use_meta m) s)

unfoldable pub build_group_chips : List Message → List GroupChip
unfolding add_chips
build_group_chips messages = (add_chips messages (record { chips = []; generic = [] })).chips
