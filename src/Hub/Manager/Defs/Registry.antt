-- ===== src/Hub/Manager/Defs/Registry.antt =====
-- The channels of a manager: how channel-manager.ts creates, joins and launches them.
use code_quest.Common.{
  Bool, false, not, List, [], ◌∷◌, ◌++◌, map, Option, none, some, Str, if◌then◌else◌, ◌==◌, str_eq,
  or_default,
}
use code_quest.Common.Text.{lit}
use code_quest.Common.Json.{Json, obj, end}
use code_quest.Common.Map.{Map, get, set}
use code_quest.Git.Worktree.{WorktreeInfo}
use code_quest.Hub.Channel.Defs as Channel
use code_quest.Hub.Channel.Defs.{Channel, pick_defined, to_settings_update_payload, Config}
use code_quest.Hub.Emitter.Defs as Emitter
use code_quest.Hub.Emitter.Defs.{Emitter}

pub record Manager : Type 0 where
  pub channels : Map Str Channel
  pub emitter : Emitter

pub data Effect : Type 0 where
  -- a process of the provider is made for a working directory
  makes : (cwd : Str) → (resume_session_id : Option Str) → Effect
  -- the recorder of raw events and the owner's hooks listen to the channel
  wires : (channel_id : Str) → Effect
  before_spawn : (channel_id : Str) → Effect
  spawns : (channel_id : Str) → Effect
  channel : (channel_id : Str) → Channel.Effect → Effect
  kills : (channel_id : Str) → Effect
  socket : Emitter.Effect → Effect

pub data Result (A : Type 0) : Type 0 where
  ok : A → Result A
  thrown : Str → Result A

abbrev pub exists_error : Str → Str
exists_error channel_id = lit "Channel already exists: " ++ channel_id

abbrev pub lost_error : Str → Str
lost_error channel_id = lit "Session not found: " ++ channel_id

abbrev pub is_alive : Option Channel → Bool
is_alive none = false
is_alive (some c) = not c.exited

abbrev pub path_or : Option WorktreeInfo → Str → Str
path_or none cwd = cwd
path_or (some w) cwd = w.path

unfoldable pub with_worktree : Option WorktreeInfo → Channel → Channel
unfolding Channel.set_worktree
with_worktree none c = c
with_worktree (some w) c = Channel.set_worktree c (some w)

-- The request `session:initialize` goes out on the channel that was just made.
unfoldable pub initialize :
    Manager
    → (channel_id : Str) → Channel
    → (request_id : Str) → Option Json
    → Manager × List Channel.Effect
unfolding Channel.send_request
initialize m channel_id c request_id options =
    let (d, effects) = Channel.send_request c request_id (lit "session:initialize") options in
    (record m { channels = set channel_id d m.channels }, effects)

-- `launch_args` are those of the runner that the factory makes.
module _ (provider : Str) (launch_args : List Str) where
  unfoldable pub setup_channel : Manager → (channel_id : Str) → (cwd : Str) → Manager × Channel
  unfolding Channel.bind_runner Channel.new
  setup_channel m channel_id cwd =
      let c = Channel.bind_runner (Channel.new channel_id provider launch_args cwd) in
      (record m { channels = set channel_id c m.channels }, c)

  -- `prepare` is `onBeforeSpawn`: what the caller does to the channel, and to the emitter when it adds
  -- a socket; `spawn_error` is what `spawn` throws. The error comes with the state that is left.
  unfoldable pub create_eager :
      (resolve : Str → Str)
      → (prepare : Emitter → Channel → Emitter × Channel) → (spawn_error : Option Str) → Manager
      → (channel_id : Str) → (cwd : Str) → Option WorktreeInfo
      → Option Json
      → (request_id : Str) → (Manager × List Effect) × Option Str
  unfolding setup_channel with_worktree initialize
  create_eager resolve prepare spawn_error m channel_id cwd worktree init_options request_id =
      if is_alive (get channel_id m.channels)
      then ((m, []), some (exists_error channel_id))
      else (let dir = resolve (path_or worktree cwd) in
          let (n, c) = setup_channel m channel_id dir in
          let (e, d) = prepare n.emitter (with_worktree worktree c) in
          let ready : Manager = record { channels = set channel_id d n.channels; emitter = e } in
          let made =
            makes dir none ∷ wires channel_id ∷ before_spawn channel_id ∷ spawns channel_id ∷ [] in
          elim spawn_error [
            | some error ↦ ((ready, made), some error)
            | none ↦
                let (o, effects) =
                  initialize ready channel_id d request_id
                    (some (or_default init_options (obj end))) in
                ((o, made ++ map (channel channel_id) effects), none)
          ])

  -- The lookups of the session are awaited before the channel is made; `resolved` and `located` are
  -- what they give: the id of the session, and its
  -- directory and project root. A channel that is alive is joined as it is.
  unfoldable pub join :
      Manager
      → (channel_id : Str) → (resolved : Str) → (located : Str × Str) → (request_id : Str)
      → Result (Manager × List Effect)
  unfolding setup_channel initialize
  join m channel_id resolved (cwd, project_root) request_id =
      if is_alive (get channel_id m.channels)
      then ok (m, [])
      else if resolved == channel_id
      then thrown (lost_error channel_id)
      else (let (n, c) = setup_channel m channel_id cwd in
          let (o, effects) =
            initialize n channel_id (record c { project_root = some project_root }) request_id
              none in
          ok (
            o,
            makes cwd (some resolved)
                ∷ wires channel_id
                ∷ spawns channel_id
                ∷ map (channel channel_id) effects,
          ))
