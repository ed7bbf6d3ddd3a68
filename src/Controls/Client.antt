-- ===== src/Controls/Client.antt =====
-- The questions that a browser shows, and what it answers. The references that the actions read hold
-- the state of the last rendering, which has taken place before the user acts.
use code_quest.Common.{
  Bool, true, false, not, List, [], ◌∷◌, ◌++◌, Option, none, some, Str, if◌then◌else◌, str_eq, ◌==◌,
  or_default, filter, find, head?,
}
use code_quest.Common.Text.{lit}
use code_quest.Common.Json.{Json, null, bool, nat, num, str, arr, obj}
use code_quest.Controls.Server.{DiffReviewEvent}

pub record PendingControl : Type 0 where
  pub request_id : Str
  pub subtype : Str
  pub tool_name : Option Str
  pub tool_use_id : Option Str
  pub callback_id : Option Str

pub record Elicitation : Type 0 where
  pub request_id : Str
  pub prompt : Str
  pub input_type : Str
  pub options : Option Json
  pub url : Option Str

pub record DiffReview : Type 0 where
  pub tool_id : Str
  pub old_content : Str
  pub new_content : Str
  pub file_path : Str

pub record ControlState : Type 0 where
  pub controls : List PendingControl
  pub elicitation : Option Elicitation
  pub diff_review : Option DiffReview

-- `ControlPermissionResponse`: to a hook, to go on or not, and to a tool
pub data Response : Type 0 where
  hook_response : (continue : Bool) → Response
  allow : (updated_permissions : Bool) → Response
  deny : (interrupt : Bool) → Response

pub data Effect : Type 0 where
  -- `chat:respond` from `respondToControl`
  responds : (request_id : Str) → Response → Effect
  -- the other responses: an accepted or a rejected diff, and an elicitation's answer or none
  responds_diff : (request_id : Str) → (accepted : Bool) → Effect
  responds_elicitation : (request_id : Str) → (answer : Option Str) → Effect
  -- the response to a message of MCP, with the id of that message, and the stop of a task
  responds_mcp : (request_id : Str) → (id : Json) → Effect
  stops_task : (task_id : Str) → Effect
  -- a message in the channel's list
  shows : (content : Str) → Effect
  pending_action : (request_id : Str) → (content : Str) → Effect

abbrev pub no_state : ControlState
no_state = record { controls = []; elicitation = none; diff_review = none }

unfoldable pub on_control_permission :
    ControlState → (request_id tool_name tool_use_id : Str) → ControlState × List Effect
on_control_permission s request_id tool_name tool_use_id = (
  record s {
    controls =
        s.controls
        ++ (record {
          request_id = request_id;
          subtype = lit "can_use_tool";
          tool_name = some tool_name;
          tool_use_id = some tool_use_id;
          callback_id = none;
        })
          ∷ [];
  },
  pending_action request_id tool_name ∷ [],
)

unfoldable pub on_control_hook_callback :
    ControlState
    → (request_id callback_id : Str) → (tool_use_id : Option Str) → ControlState × List Effect
on_control_hook_callback s request_id callback_id tool_use_id = (
  record s {
    controls =
        s.controls
        ++ (record {
          request_id = request_id;
          subtype = lit "hook_callback";
          tool_name = none;
          tool_use_id = tool_use_id;
          callback_id = some callback_id;
        })
          ∷ [];
  },
  pending_action request_id (lit "Hook callback: " ++ callback_id) ∷ [],
)

unfoldable pub on_control_elicitation :
    ControlState
    → (request_id prompt : Str) → (input_type : Option Str) → (options : Option Json)
    → (url : Option Str) → ControlState
on_control_elicitation s request_id prompt input_type options url = record s {
  elicitation = some (record {
    request_id = request_id;
    prompt = prompt;
    input_type = or_default input_type (lit "text");
    options = options;
    url = url;
  });
}

unfoldable pub on_control_diff_review : ControlState → DiffReviewEvent → ControlState
on_control_diff_review s p = record s {
  diff_review = some (record {
    tool_id = p.tool_id;
    old_content = p.old_content;
    new_content = p.new_content;
    file_path = p.file_path;
  });
}

abbrev pub without : Str → List PendingControl → List PendingControl
without request_id cs = filter (λ c. not (c.request_id == request_id)) cs

unfoldable pub on_cancel_request : ControlState → (target_request_id : Str) → ControlState
on_cancel_request s target = record s { controls = without target s.controls }

unfoldable pub reset_controls_on_close : ControlState → ControlState
reset_controls_on_close s = record s { controls = [] }

unfoldable pub action_of : Response → Str
action_of (hook_response continue) = if continue then lit "Approved" else lit "Denied"
action_of (allow updated_permissions) =
    if updated_permissions then lit "Allowed Always" else lit "Approved"
action_of (deny interrupt) = if interrupt then lit "Denied & Stopped" else lit "Denied"

abbrev pub is_empty : Str → Bool
is_empty [] = true
is_empty (_ ∷ _) = false

-- `requestId ? find : first`
unfoldable pub target_of : ControlState → (request_id : Option Str) → Option PendingControl
target_of s none = head? s.controls
target_of s (some request_id) =
    if is_empty request_id
    then head? s.controls
    else find (λ c. c.request_id == request_id) s.controls

abbrev pub respond_to : ControlState → Response → Option PendingControl → ControlState × List Effect
unfolding action_of
respond_to s response none = (s, [])
respond_to s response (some target) = (
  record s { controls = without target.request_id s.controls },
  responds target.request_id response
      ∷ shows (action_of response ++ lit ": " ++ or_default target.tool_name target.subtype)
      ∷ [],
)

unfoldable pub respond_to_control :
    ControlState → Response → (request_id : Option Str) → ControlState × List Effect
unfolding respond_to target_of
respond_to_control s response request_id = respond_to s response (target_of s request_id)

abbrev pub has_tool_use_id : Str → PendingControl → Bool
has_tool_use_id tool_id c = elim c.tool_use_id [ none ↦ false | some i ↦ i == tool_id ]

unfoldable pub diff_respond : ControlState → (tool_id : Str) → (accepted : Bool) → List Effect
diff_respond s tool_id accepted = elim (find (has_tool_use_id tool_id) s.controls) [
  | none ↦ []
  | some ctrl ↦ responds_diff ctrl.request_id accepted ∷ []
]

-- the dialog's `onDiffRespond`, in ChannelOverlays
unfoldable pub on_diff_respond :
    ControlState → (tool_id : Str) → (accepted : Bool) → ControlState × List Effect
unfolding diff_respond
on_diff_respond s tool_id accepted =
    (record s { diff_review = none }, diff_respond s tool_id accepted)

unfoldable pub respond_to_elicitation :
    ControlState → (request_id answer : Str) → ControlState × List Effect
respond_to_elicitation s request_id answer =
    (record s { elicitation = none }, responds_elicitation request_id (some answer) ∷ [])

unfoldable pub cancel_elicitation : ControlState → (request_id : Str) → ControlState × List Effect
cancel_elicitation s request_id =
    (record s { elicitation = none }, responds_elicitation request_id none ∷ [])

-- an id that is neither a string nor a number is answered by `null`
abbrev pub message_id : Option Json → Json
message_id none = null
message_id (some null) = null
message_id (some (bool _)) = null
message_id (some (nat n)) = nat n
message_id (some (num n)) = num n
message_id (some (str s)) = str s
message_id (some (arr _)) = null
message_id (some (obj _)) = null

unfoldable pub on_control_mcp_effect : (request_id : Str) → (id : Option Json) → List Effect
on_control_mcp_effect request_id id = responds_mcp request_id (message_id id) ∷ []

unfoldable pub stop_task : (task_id : Str) → List Effect
stop_task task_id = stops_task task_id ∷ []
