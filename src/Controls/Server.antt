-- ===== src/Controls/Server.antt =====
-- The handlers of the server. A payload is what its schema makes of it, `none` where it is refused.
use code_quest.Common.{List, [], ◌∷◌, ◌++◌, Option, none, some, Str}
use code_quest.Common.Text.{lit}
use code_quest.Common.Json.{Json}
use code_quest.Hub.Channel.Defs as Channel
use code_quest.Hub.Channel.Defs.{Channel}

pub record Permission : Type 0 where
  pub request_id : Str
  pub tool_name : Str
  pub tool_use_id : Str

pub record Forward : Type 0 where
  pub request_id : Str
  pub subtype : Str
  pub tool_name : Option Str
  pub tool_use_id : Option Str
  pub input : Option Json
  pub suggestions : Option Json
  pub callback_id : Option Str

pub record OpenDiff : Type 0 where
  pub request_id : Str
  pub original_path : Str
  pub new_path : Str

pub record DiffReviewEvent : Type 0 where
  pub request_id : Str
  pub tool_id : Str
  pub file_path : Str
  pub old_content : Str
  pub new_content : Str

pub data Effect : Type 0 where
  -- events to the sockets of a channel
  cancel_request : (channel_id : Str) → (target_request_id : Str) → Effect
  raw_event : (channel_id : Str) → (raw_type : Str) → Forward → Effect
  diff_review : (channel_id : Str) → DiffReviewEvent → Effect
  -- a denial to the process
  denied : (request_id : Str) → (message : Str) → Effect
  warned : Effect

unfoldable pub on_cancel : Channel → (request_id : Option Str) → Channel × List Effect
on_cancel ch none = (ch, warned ∷ [])
on_cancel ch (some request_id) =
    (Channel.remove_control_request ch request_id, cancel_request ch.channel_id request_id ∷ [])

unfoldable pub on_permission : Channel → Option Permission → Channel × List Effect
on_permission ch none = (ch, warned ∷ [])
on_permission ch (some p) = (
  Channel.track_control_request ch p.request_id (record {
    subtype = lit "can_use_tool";
    tool_name = some p.tool_name;
    tool_use_id = some p.tool_use_id;
  }),
  [],
)

unfoldable pub on_elicitation : Channel → (request_id : Option Str) → Channel × List Effect
on_elicitation ch none = (ch, warned ∷ [])
on_elicitation ch (some request_id) = (
  Channel.track_control_request ch request_id
      (record { subtype = lit "elicitation"; tool_name = none; tool_use_id = none }),
  [],
)

unfoldable pub on_forward_to_client : Channel → Option Forward → Channel × List Effect
on_forward_to_client ch none = (ch, warned ∷ [])
on_forward_to_client ch (some p) = (
  Channel.track_control_request ch p.request_id
      (record { subtype = p.subtype; tool_name = p.tool_name; tool_use_id = p.tool_use_id }),
  raw_event ch.channel_id (lit "control_request/" ++ p.subtype) p ∷ [],
)

-- `||` on strings
abbrev pub or_text : Str → Str → Str
or_text [] t = t
or_text (c ∷ s) t = c ∷ s

abbrev pub open_read : Channel → OpenDiff → Option Str → Option Str → Channel × List Effect
open_read ch p (some old) (some new) = (
  Channel.track_control_request ch p.request_id
      (record { subtype = lit "open_diff"; tool_name = none; tool_use_id = none }),
  diff_review ch.channel_id (record {
    request_id = p.request_id;
    tool_id = p.request_id;
    file_path = or_text p.original_path p.new_path;
    old_content = old;
    new_content = new;
  })
      ∷ [],
)
open_read ch p none new = (ch, warned ∷ denied p.request_id (lit "Failed to read files") ∷ [])
open_read ch p (some old) none =
    (ch, warned ∷ denied p.request_id (lit "Failed to read files") ∷ [])

-- `read` is `diffFileService.read`, which may fail.
unfoldable pub on_open_diff :
    (read : Str → Option Str) → Channel → Option OpenDiff → Channel × List Effect
on_open_diff read ch none = (ch, warned ∷ [])
on_open_diff read ch (some p) = open_read ch p (read p.original_path) (read p.new_path)
