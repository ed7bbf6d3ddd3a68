-- ===== src/Hub/Channel/Defs/Runner.antt =====
-- What channel.ts does with its requests and with the messages of its runner.
use code_quest.Common.{
  ℕ, Bool, true, false, List, [], ◌∷◌, ◌++◌, map, Option, none, some, Str, if◌then◌else◌, str_eq,
  or_default,
}
use code_quest.Common.Text.{lit}
use code_quest.Common.Json.{Json}
use code_quest.Common.Map.{get, set, delete, values}
use code_quest.Git.Worktree.{detect_worktree}
use code_quest.Hub.Tracker.Defs as Tracker
use code_quest.Hub.Tracker.Defs.{RequestMeta, ControlResponse}
use code_quest.Hub.Channel.Defs.State.{
  Config, Channel, SessionInit, ClientMessage, error_message, session_init, session_status, other,
  Effect, tracker, on_client_message, on_exit, clear_timeout, set_worktree, update_session_config,
  reset_session_config, update_meta_cache, pick_defined,
}

unfoldable pub start_processing : Channel → Channel
start_processing c = record c { is_processing = true }

unfoldable pub end_processing : Channel → Channel
end_processing c = record c { is_processing = false }

unfoldable pub track_control_request : Channel → Str → RequestMeta → Channel
track_control_request c id meta = record c {
  control_requests = Tracker.track_inbound c.control_requests id meta;
}

unfoldable pub remove_control_request : Channel → Str → Channel
remove_control_request c id = record c {
  control_requests = Tracker.remove_inbound c.control_requests id;
}

unfoldable pub has_control_request : Channel → Str → Bool
has_control_request c id = Tracker.has_inbound c.control_requests id

unfoldable pub get_control_request_meta : Channel → Str → Option RequestMeta
get_control_request_meta c id = Tracker.get_inbound_meta c.control_requests id

unfoldable pub set_mcp_timeout : Channel → Str → ℕ → Channel
set_mcp_timeout c id timer = record c { mcp_timeouts = set id timer c.mcp_timeouts }

abbrev cleared : Option ℕ → List Effect
cleared none = []
cleared (some timer) = clear_timeout timer ∷ []

unfoldable pub clear_mcp_timeout : Channel → Str → Channel × List Effect
clear_mcp_timeout c id =
    (record c { mcp_timeouts = delete id c.mcp_timeouts }, cleared (get id c.mcp_timeouts))

-- `formatRequest` of the runner has given the subtype and the input.
unfoldable pub send_request :
    Channel → (request_id : Str) → Str → Option Json → Channel × List Effect
send_request c request_id subtype input =
    let (t, effects) = Tracker.send_outbound c.control_requests request_id subtype input in
    (record c { control_requests = t }, map tracker effects)

abbrev pub apply_cwd : Option Str → Channel → Channel
apply_cwd none c = c
apply_cwd (some []) c = c
apply_cwd (some (x ∷ cwd)) c = elim (detect_worktree (x ∷ cwd)) [
  | none ↦ record c { cwd = x ∷ cwd }
  | some w ↦ set_worktree (record c { cwd = x ∷ cwd }) (some w)
]

unfoldable pub apply_session_init_config : Channel → Option (Option Str × Config) → Channel
unfolding update_session_config set_worktree
apply_session_init_config c none = c
apply_session_init_config c (some (cwd, config)) = update_session_config (apply_cwd cwd c) config

abbrev pub apply_session_id : Option Str → Channel → Channel
apply_session_id none c = c
apply_session_id (some []) c = c
apply_session_id (some (x ∷ id)) c = record c { session_id = some (x ∷ id) }

unfoldable pub apply_session_init : Channel → Option SessionInit → Channel
unfolding apply_session_init_config update_meta_cache pick_defined
apply_session_init c none = c
apply_session_init c (some init) =
    update_meta_cache (apply_session_init_config (apply_session_id init.session_id c) init.config) (
      pick_defined (
        (lit "model", init.model)
        ∷ (lit "tools", init.tools)
        ∷ (lit "permissionMode", init.permission_mode)
        ∷ (lit "fastModeState", init.fast_mode_state)
        ∷ (lit "mcpServers", init.mcp_servers)
        ∷ (lit "slashCommands", init.slash_commands)
        ∷ []))

unfoldable pub apply_error_message : Channel → Option Str → Channel
apply_error_message c none = c
apply_error_message c (some message) = record c { last_error = some message }

unfoldable pub apply_session_status : Channel → Option (Option Json) → Channel
unfolding update_session_config
apply_session_status c none = c
apply_session_status c (some none) = c
apply_session_status c (some (some mode)) =
    update_session_config c ((lit "permissionMode", mode) ∷ [])

unfoldable pub handle_internal_message : Channel → ClientMessage → Channel
unfolding apply_error_message apply_session_init apply_session_status
handle_internal_message c (error_message message) = apply_error_message c message
handle_internal_message c (session_init init) = apply_session_init c init
handle_internal_message c (session_status mode) = apply_session_status c mode
handle_internal_message c (other name) = c

-- `augmentSessionInit`: the arguments that are put into the payload of `session:init`
unfoldable pub augment_session_init : ClientMessage → List Str → Option (List Str)
augment_session_init (session_init _) launch_args = some launch_args
augment_session_init _ launch_args = none

unfoldable pub bind_runner : Channel → Channel
bind_runner c = record c { is_bound = true }

unfoldable pub unbind_runner : Channel → Channel
unbind_runner c = record c { is_bound = false }

-- The runner emits `client_message`; an unbound channel does not listen.
unfoldable pub on_message : Channel → ClientMessage → Channel × List Effect
unfolding handle_internal_message augment_session_init
on_message c message =
    if c.is_bound
    then (
      handle_internal_message c message,
      on_client_message message (augment_session_init message c.launch_args) ∷ [],
    )
    else (c, [])

unfoldable pub on_control_response : Channel → Str → ControlResponse → Channel × List Effect
on_control_response c id response =
    if c.is_bound
    then (let (t, effects) = Tracker.resolve_outbound c.control_requests id response in
        (record c { control_requests = t }, map tracker effects))
    else (c, [])

-- A line on the error stream of the process, to which the recorder of raw lines listens; that
-- listener stays when the channel is unbound.
unfoldable pub on_stderr : Channel → Str → Channel
on_stderr c line = record c { last_error = some line }

-- `printed` is the exit code as the message names it.
unfoldable pub on_process_exit : Channel → Option ℕ → (printed : Str) → Channel × List Effect
on_process_exit c code printed =
    if c.is_bound
    then (let (t, effects) =
          Tracker.reject_all_pending c.control_requests
            (or_default c.last_error (lit "Process exited with code " ++ printed)) in
        (
          record c { exited = true; control_requests = t },
          map tracker effects ++ on_exit code ∷ [],
        ))
    else (c, [])

unfoldable pub clear_timeouts : List ℕ → List Effect
clear_timeouts [] = []
clear_timeouts (timer ∷ timers) = clear_timeout timer ∷ clear_timeouts timers

unfoldable pub destroy : Channel → Channel × List Effect
unfolding unbind_runner reset_session_config clear_timeouts
destroy c =
    let (t, effects) = Tracker.clear c.control_requests in
    (
      reset_session_config
          (record (unbind_runner c) { control_requests = t; mcp_timeouts = []; exited = true }),
      map tracker effects ++ clear_timeouts (values c.mcp_timeouts),
    )
