-- ===== src/Hub/Manager/Defs/Sockets.antt =====
-- Channels that are looked up and destroyed, sockets that come and go, and the state that
-- channel-manager.ts broadcasts.
use code_quest.Common.{
  ℕ, Bool, false, not, ◌&&◌, List, [], ◌∷◌, ◌++◌, map, Option, none, some, Str, if◌then◌else◌, ◌==◌,
  nat_beq, str_eq, or_default, head?,
}
use code_quest.Common.Text.{lit}
use code_quest.Common.Json.{Json, Fields, str, obj, arr, end, field, cons, nil}
use code_quest.Common.Map.{Map, get, set, delete, keys}
use code_quest.Hub.Channel.Defs as Channel
use code_quest.Hub.Channel.Defs.{Channel, pick_defined, to_settings_update_payload, Config}
use code_quest.Hub.Emitter.Defs as Emitter
use code_quest.Hub.Emitter.Defs.{Emitter}
use code_quest.Hub.Manager.Defs.Registry.{Manager, Effect, channel, kills, socket}

unfoldable pub ensure_bound : Channel → Channel
unfolding Channel.bind_runner
ensure_bound c = if c.is_bound then c else Channel.bind_runner c

unfoldable pub find_by_request_id : Map Str Channel → (request_id : Str) → Option (Str × Channel)
unfolding Channel.has_control_request
find_by_request_id [] request_id = none
find_by_request_id ((id, c) ∷ m) request_id =
    if Channel.has_control_request c request_id
    then some (id, c)
    else find_by_request_id m request_id

-- An error that `kill` throws is swallowed.
unfoldable pub destroy : Manager → (channel_id : Str) → Manager × List Effect
unfolding Channel.destroy
destroy m channel_id = elim (get channel_id m.channels) [
  | none ↦ (m, [])
  | some c ↦ (
    record m { channels = delete channel_id m.channels },
    kills channel_id ∷ map (channel channel_id) (Channel.destroy c).1,
  )
]

unfoldable pub get_alive_channels : Map Str Channel → List (Str × Channel)
get_alive_channels [] = []
get_alive_channels ((id, c) ∷ m) =
    let rest = get_alive_channels m in if c.exited then rest else (id, c) ∷ rest

unfoldable pub destroy_each : Map Str Channel → List Effect
unfolding Channel.destroy
destroy_each [] = []
destroy_each ((id, c) ∷ m) = map (channel id) (Channel.destroy c).1 ++ destroy_each m

-- The loop goes over a copy and deletes each entry.
unfoldable pub delete_each : List Str → Map Str Channel → Map Str Channel
delete_each [] m = m
delete_each (id ∷ ids) m = delete_each ids (delete id m)

unfoldable pub destroy_all : Manager → Manager × List Effect
unfolding destroy_each delete_each
destroy_all m =
    (record m { channels = delete_each (keys m.channels) m.channels }, destroy_each m.channels)

abbrev pub second : Option (Str × Channel) → Option Channel
second none = none
second (some (id, c)) = some c

unfoldable pub get_first_alive : Manager → Option Channel
unfolding get_alive_channels
get_first_alive m = second (head? (get_alive_channels m.channels))

-- the ids that are not empty
abbrev pub named : List (Str × Channel) → List Str
named [] = []
named ((id, c) ∷ rest) = elim c.session_id [
  | none ↦ named rest
  | some s ↦ elim s [ [] ↦ named rest | x ∷ xs ↦ (x ∷ xs) ∷ named rest ]
]

unfoldable pub get_alive_session_ids : Manager → List Str
unfolding get_alive_channels
get_alive_session_ids m = named (get_alive_channels m.channels)

abbrev pub is_session : Str → Option Str → Bool
is_session id none = false
is_session id (some s) = s == id

unfoldable pub find_alive_by_session_id : Map Str Channel → (session_id : Str) → Option Channel
find_alive_by_session_id [] session_id = none
find_alive_by_session_id ((id, c) ∷ m) session_id =
    if not c.exited && is_session session_id c.session_id
    then some c
    else find_alive_by_session_id m session_id

unfoldable pub add_socket_to_channel : Manager → Channel → ℕ → (socket_id : Str) → Manager
unfolding Emitter.add_socket_to_channel
add_socket_to_channel m c s socket_id = record m {
  emitter = Emitter.add_socket_to_channel m.emitter c.channel_id s socket_id;
}

-- Each channel of the list that no socket follows lets go of its runner.
unfoldable pub unbind_unwatched : Emitter → List Str → Map Str Channel → Map Str Channel
unfolding Emitter.get_socket_count Channel.unbind_runner
unbind_unwatched e [] m = m
unbind_unwatched e (id ∷ ids) m = elim (get id m) [
  | none ↦ unbind_unwatched e ids m
  | some c ↦
      unbind_unwatched e ids (
        if nat_beq (Emitter.get_socket_count e id) 0 then set id (Channel.unbind_runner c) m else m)
]

unfoldable pub remove_socket_from_all : Manager → (socket_id : Str) → Manager
unfolding Emitter.remove_socket_from_all unbind_unwatched
remove_socket_from_all m socket_id =
    let (e, ids) = Emitter.remove_socket_from_all m.emitter socket_id in
    record m { emitter = e; channels = unbind_unwatched e (or_default ids []) m.channels }

abbrev pub to_fields : Config → Fields
to_fields [] = end
to_fields ((k, v) ∷ config) = field k v (to_fields config)

abbrev pub text : Option Str → Option Json
text none = none
text (some s) = some (str s)

abbrev pub cwd_of : Option Channel → Option Json
cwd_of none = none
cwd_of (some c) = some (str c.cwd)

abbrev pub project_root_of : Option Channel → Option Json
project_root_of none = none
project_root_of (some c) = text c.project_root

abbrev pub effort_of : Option Channel → Option Json
effort_of none = none
effort_of (some c) = get (lit "effort") c.session_config

unfoldable pub settings_of : Option Channel → Option Config
unfolding to_settings_update_payload
settings_of none = none
settings_of (some c) = to_settings_update_payload c

unfoldable pub settings_effects : Emitter → Str → Option Config → List Emitter.Effect
unfolding Emitter.emit
settings_effects e channel_id none = []
settings_effects e channel_id (some settings) =
    Emitter.emit e channel_id (lit "settings:update")
      (obj (field (lit "channelId") (str channel_id) (to_fields settings)) ∷ [])

unfoldable pub broadcast_session_state :
    Manager → (channel_id : Str) → (state : Str) → (title : Option Str) → List Effect
unfolding Emitter.broadcast_all pick_defined settings_of settings_effects
broadcast_session_state m channel_id state title =
    let c = get channel_id m.channels in
    map socket (
      Emitter.broadcast_all m.emitter (lit "session:states") (
        obj (
          field (lit "sessions")
            (arr (
              cons
                (obj (
                  field (lit "channelId") (str channel_id) (
                    field (lit "state") (str state) (
                      to_fields (
                        pick_defined (
                          (lit "cwd", cwd_of c)
                          ∷ (lit "projectRoot", project_root_of c)
                          ∷ (lit "title", text title)
                          ∷ (lit "effort", effort_of c)
                          ∷ []))))))
                nil))
            end)
        ∷ [])
      ++ settings_effects m.emitter channel_id (settings_of c))

-- The handler of `disconnect` and the emitter's own, in the order in which they were registered.
unfoldable pub on_disconnect : Manager → (socket_id : Str) → Manager
unfolding remove_socket_from_all Emitter.remove_socket_from_all
on_disconnect m socket_id =
    let n = remove_socket_from_all m socket_id in
    record n { emitter = (Emitter.remove_socket_from_all n.emitter socket_id).0 }

-- `onRebind` of the resumable middleware, as the server sets it
unfoldable pub on_rebind : Manager → ℕ → (socket_id previous_socket_id : Str) → Manager
unfolding Emitter.reattach_socket
on_rebind m s socket_id previous_socket_id = record m {
  emitter = Emitter.reattach_socket m.emitter s socket_id previous_socket_id;
}
