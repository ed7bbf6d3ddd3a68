-- ===== src/Hub/Emitter/Defs/Sockets.antt =====
-- Which sockets follow a channel, and what channel-emitter.ts sends to them.
use code_quest.Common.{
  ℕ, not, List, [], ◌∷◌, ◌++◌, Option, none, some, Str, if◌then◌else◌, ◌==◌, nat_eq, str_eq,
  or_default, length,
}
use code_quest.Common.Text.{lit}
use code_quest.Common.Json.{Json, Fields, str, obj, end, field, prop}
use code_quest.Common.Map.{Map, get, set, delete, keys, values}
use code_quest.Common.Keys.{add, remove}
use code_quest.Hub.Emitter.Defs.Dispatch.{
  Arg, value, Call, Result, Effect, emitted, connected, listens, Emitter, extract_payload_and_cb,
  Dispatched, and_then, dispatch,
}

unfoldable pub emit_each : List ℕ → Str → List Json → List Effect
emit_each [] event args = []
emit_each (sock ∷ socks) event args = emitted sock event args ∷ emit_each socks event args

abbrev pub sockets : Emitter → Str → List ℕ
sockets e channel_id = or_default (get channel_id e.channel_sockets) []

abbrev pub channels : Emitter → Str → List Str
channels e socket_id = or_default (get socket_id e.socket_channels) []

unfoldable pub emit : Emitter → (channel_id : Str) → Str → List Json → List Effect
unfolding emit_each
emit e channel_id event args = emit_each (sockets e channel_id) event args

-- `id_of` gives the id of each socket.
module _ (id_of : ℕ → Str) where
  unfoldable pub emit_each_but : Str → List ℕ → Str → List Json → List Effect
  emit_each_but id [] event args = []
  emit_each_but id (sock ∷ socks) event args =
      let rest = emit_each_but id socks event args in
      if not (id_of sock == id) then emitted sock event args ∷ rest else rest

  unfoldable pub emit_to_others :
      Emitter → (channel_id : Str) → (exclude_socket_id : Str) → Str → List Json → List Effect
  unfolding emit_each_but
  emit_to_others e channel_id exclude_socket_id event args =
      emit_each_but exclude_socket_id (sockets e channel_id) event args

abbrev without : Str → Fields → Fields
without k end = end
without k (field j v fs) = let rest = without k fs in if j == k then rest else field j v rest

-- `{ channelId, ...data }`: a property of the payload that is called `channelId` wins
abbrev with_channel_id : Str → Json → Json
with_channel_id id (obj fields) = obj (
    field (lit "channelId") (or_default (prop (lit "channelId") fields) (str id))
      (without (lit "channelId") fields))
with_channel_id id _ = obj (field (lit "channelId") (str id) end)

-- A payload is a value here; an array has no properties but its numbers, which no sender uses.
unfoldable pub dispatch_runner_message :
    (ℕ → Call → Result) → Emitter → (channel_id : Str) → (event : Str) → Json → Dispatched
unfolding emit dispatch
dispatch_runner_message run e channel_id event payload =
    and_then
      (if event == lit "session:init"
        then []
        else emit e channel_id event (with_channel_id channel_id payload ∷ []))
      []
      (dispatch run e event
        (record { channel = some channel_id; payload = value payload; socket = none; cb = none }))

unfoldable pub add_socket_to_channel :
    Emitter → (channel_id : Str) → ℕ → (socket_id : Str) → Emitter
add_socket_to_channel e channel_id socket socket_id = record e {
  channel_sockets = set channel_id (add socket (sockets e channel_id)) e.channel_sockets;
  socket_refs = set socket_id socket e.socket_refs;
  socket_channels = set socket_id (add channel_id (channels e socket_id)) e.socket_channels;
}

-- `channelSockets.get(channelId)?.delete(socket)` for each of the channels
unfoldable pub take_out : List Str → ℕ → Map Str (List ℕ) → Map Str (List ℕ)
take_out [] socket m = m
take_out (id ∷ ids) socket m = elim (get id m) [
  | none ↦ take_out ids socket m
  | some socks ↦ take_out ids socket (set id (remove socket socks) m)
]

unfoldable pub remove_socket_from_all : Emitter → (socket_id : Str) → Emitter × Option (List Str)
unfolding take_out
remove_socket_from_all e socket_id = (
  record e {
    channel_sockets = elim (get socket_id e.socket_refs) [
      | none ↦ e.channel_sockets
      | some socket ↦ take_out (channels e socket_id) socket e.channel_sockets
    ];
    socket_refs = delete socket_id e.socket_refs;
  },
  get socket_id e.socket_channels,
)

unfoldable pub add_to_each : List Str → ℕ → Str → Emitter → Emitter
unfolding add_socket_to_channel
add_to_each [] socket socket_id e = e
add_to_each (id ∷ ids) socket socket_id e =
    add_to_each ids socket socket_id (add_socket_to_channel e id socket socket_id)

unfoldable pub reattach_socket : Emitter → ℕ → (socket_id previous_socket_id : Str) → Emitter
unfolding add_to_each
reattach_socket e new_socket socket_id previous_socket_id =
    elim (get previous_socket_id e.socket_channels) [
      | none ↦ e
      | some ids ↦
          add_to_each ids new_socket socket_id
            (record e { socket_channels = delete previous_socket_id e.socket_channels })
    ]

unfoldable pub expire_socket : Emitter → (socket_id : Str) → Emitter
expire_socket e socket_id = record e { socket_channels = delete socket_id e.socket_channels }

unfoldable pub get_socket_count : Emitter → (channel_id : Str) → ℕ
get_socket_count e channel_id = length (sockets e channel_id)

abbrev connected_each : List ℕ → ℕ → List Effect
connected_each [] socket = []
connected_each (cb ∷ cbs) socket = connected cb socket ∷ connected_each cbs socket

abbrev listens_each : List Str → ℕ → List Effect
listens_each [] socket = []
listens_each (event ∷ events) socket = listens socket event ∷ listens_each events socket

unfoldable pub handle_connection : Emitter → ℕ → (socket_id : Str) → Emitter × List Effect
handle_connection e socket socket_id = (
  record e { socket_refs = set socket_id socket e.socket_refs },
  connected_each e.connection_callbacks socket
      ++ (listens_each (keys e.event_map) socket ++ listens socket (lit "disconnect") ∷ []),
)

-- the string that a payload has as `channelId`, if it is not empty
abbrev named_channel : Option Json → Option Str
named_channel (some (str (x ∷ id))) = some (x ∷ id)
named_channel _ = none

abbrev channel_id_of : Arg → Option Str
channel_id_of (value (obj fields)) = named_channel (prop (lit "channelId") fields)
channel_id_of _ = none

-- The socket's `on(event)` handler; `resolve_channel` finds the channel by its id.
unfoldable pub on_socket_event :
    (ℕ → Call → Result)
    → (resolve_channel : Str → Option Str) → Emitter
    → ℕ
    → (event : Str) → List Arg
    → Dispatched
unfolding extract_payload_and_cb dispatch
on_socket_event run resolve_channel e socket event args =
    let (payload, cb) = extract_payload_and_cb args in
    dispatch run e event (record {
      channel = elim (channel_id_of payload) [ none ↦ none | some id ↦ resolve_channel id ];
      payload = payload;
      socket = some socket;
      cb = cb;
    })

unfoldable pub broadcast_all : Emitter → Str → List Json → List Effect
unfolding emit_each
broadcast_all e event args = emit_each (values e.socket_refs) event args
