-- ===== src/Hub/Channel/Defs/State.antt =====
-- The state of a channel and the settings that it announces, of channel.ts.
use code_quest.Common.{ℕ, Bool, false, List, [], ◌∷◌, Option, none, some, Str, str_eq}
use code_quest.Common.Text.{lit}
use code_quest.Common.Json.{Json, str, obj, end, field}
use code_quest.Common.Map.{Map, get, set}
use code_quest.Git.Worktree.{WorktreeInfo}
use code_quest.Hub.Tracker.Defs as Tracker
use code_quest.Hub.Tracker.Defs.{RequestMeta, ControlResponse}

-- Options that may be absent are a map from their names.
abbrev pub Config : Type 0
Config = Map Str Json

pub record Channel : Type 0 where
  pub channel_id : Str
  pub provider : Str
  pub launch_args : List Str
  pub session_config : Config
  pub meta_cache : Config
  pub session_id : Option Str
  pub cwd : Str
  pub project_root : Option Str
  pub worktree : Option WorktreeInfo
  pub last_error : Option Str
  pub exited : Bool
  pub title_generated : Bool
  pub pending_title_prompt : Option Str
  pub title : Option Str
  pub parent_id : Option Str
  pub is_processing : Bool
  pub control_requests : Tracker.Tracker
  pub mcp_timeouts : Map Str ℕ
  pub terminal_lines : List Str
  pub is_bound : Bool

-- what `sessionInitEventSchema` gives
pub record SessionInit : Type 0 where
  pub session_id : Option Str
  -- `none` if the config itself is refused
  pub config : Option (Option Str × Config)
  pub model : Option Json
  pub tools : Option Json
  pub permission_mode : Option Json
  pub fast_mode_state : Option Json
  pub mcp_servers : Option Json
  pub slash_commands : Option Json

-- A message of the runner, with what its schema makes of the payload.
pub data ClientMessage : Type 0 where
  error_message : Option Str → ClientMessage
  session_init : Option SessionInit → ClientMessage
  session_status : (permission_mode : Option (Option Json)) → ClientMessage
  other : Str → ClientMessage

pub data Effect : Type 0 where
  tracker : Tracker.Effect → Effect
  -- the hooks of the channel's owner
  on_client_message : ClientMessage → (args : Option (List Str)) → Effect
  on_exit : Option ℕ → Effect
  send_message respond write : Str → Effect
  kill : Effect
  clear_timeout : ℕ → Effect

unfoldable pub new : Str → Str → List Str → Str → Channel
new channel_id provider launch_args cwd = record {
  channel_id = channel_id;
  provider = provider;
  launch_args = launch_args;
  session_config = [];
  meta_cache = [];
  session_id = none;
  cwd = cwd;
  project_root = none;
  worktree = none;
  last_error = none;
  exited = false;
  title_generated = false;
  pending_title_prompt = none;
  title = none;
  parent_id = none;
  is_processing = false;
  control_requests = Tracker.new;
  mcp_timeouts = [];
  terminal_lines = [];
  is_bound = false;
}

-- the setter of `worktree`
unfoldable pub set_worktree : Channel → Option WorktreeInfo → Channel
set_worktree c none = record c { worktree = none }
set_worktree c (some w) = record c { worktree = some w; cwd = w.path }

-- `{ ...config, ...partial }`
unfoldable pub spread : Config → Config → Config
spread config [] = config
spread config ((k, v) ∷ partial) = spread (set k v config) partial

unfoldable pub update_session_config : Channel → Config → Channel
unfolding spread
update_session_config c partial = record c { session_config = spread c.session_config partial }

unfoldable pub reset_session_config : Channel → Channel
reset_session_config c = record c { session_config = [] }

unfoldable pub update_meta_cache : Channel → Config → Channel
unfolding spread
update_meta_cache c partial = record c { meta_cache = spread c.meta_cache partial }

unfoldable pub pick_defined : List (Str × Option Json) → Config
pick_defined [] = []
pick_defined ((k, none) ∷ entries) = pick_defined entries
pick_defined ((k, some v) ∷ entries) = (k, v) ∷ pick_defined entries

abbrev branch_field : Option Str → Json
branch_field none = obj end
branch_field (some b) = obj (field (lit "branch") (str b) end)

abbrev worktree_json : WorktreeInfo → Json
worktree_json w = elim w.branch [
  | none ↦ obj (field (lit "name") (str w.name) (field (lit "path") (str w.path) end))
  | some b ↦ obj (
      field (lit "name") (str w.name)
        (field (lit "path") (str w.path) (field (lit "branch") (str b) end)))
]

abbrev as_json : Option WorktreeInfo → Option Json
as_json none = none
as_json (some w) = some (worktree_json w)

abbrev unless_empty : Config → Option Config
unless_empty [] = none
unless_empty (e ∷ es) = some (e ∷ es)

unfoldable pub to_settings_update_payload : Channel → Option Config
unfolding pick_defined
to_settings_update_payload c =
    let ss = c.session_config in
    unless_empty (
      pick_defined (
        (lit "model", get (lit "model") ss)
        ∷ (lit "defaultCwd", some (str c.cwd))
        ∷ (lit "worktree", as_json c.worktree)
        ∷ (lit "permissionMode", get (lit "permissionMode") ss)
        ∷ (lit "thinkingLevel", get (lit "thinkingLevel") ss)
        ∷ (lit "mcpServers", get (lit "mcpServers") ss)
        ∷ (lit "tools", get (lit "tools") ss)
        ∷ (lit "effort", get (lit "effort") ss)
        ∷ []))
