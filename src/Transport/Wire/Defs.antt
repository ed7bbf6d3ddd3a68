-- ===== src/Transport/Wire/Defs.antt =====
-- The socket that a connection is given, and what it makes of the messages that arrive.
use code_quest.Common.{
  ℕ, ◌+◌, Bool, true, false, List, [], ◌∷◌, ◌++◌, map, Option, none, some, Str, if◌then◌else◌,
  str_eq, nat_eq, or_default,
}
use code_quest.Common.Text.{lit}
use code_quest.Common.Json.{Json, nat, obj, end, field}
use code_quest.Common.Map.{Map, get, set}
use code_quest.Common.Keys.{add}
use code_quest.Transport.Envelope.{Envelope, event, request, response, ping, pong, resume}

-- `is_open` is the test `readyState === OPEN` of the connection below.
pub record SocketMeta : Type 0 where
  pub is_open : Bool
  pub next_seq : ℕ
  pub listeners : Map Str (List ℕ)

pub data Effect : Type 0 where
  send : Envelope → Effect
  -- a listener is called with a payload and with the callback that answers request `reply_to`
  call : (listener : ℕ) → Option Json → (reply_to : Option Str) → Effect

unfoldable pub accept : SocketMeta
accept = record { is_open = true; next_seq = 0; listeners = [] }

unfoldable pub emit : SocketMeta → Str → Option Json → SocketMeta × List Effect
emit m name payload =
    if m.is_open
    then (record m { next_seq = m.next_seq + 1 }, send (event (m.next_seq + 1) name payload) ∷ [])
    else (m, [])

unfoldable pub on : SocketMeta → Str → ℕ → SocketMeta
on m name fn = record m {
  listeners = set name (add fn (or_default (get name m.listeners) [])) m.listeners;
}

unfoldable pub fire_local_event : SocketMeta → Str → Option Json → Option Str → List Effect
fire_local_event m name payload reply_to =
    map (λ fn. call fn payload reply_to) (or_default (get name m.listeners) [])

-- the callback that a listener of request `id` calls with its result
unfoldable pub reply : SocketMeta → Str → Option Json → List Effect
reply m id result = if m.is_open then send (response id true result none) ∷ [] else []

unfoldable pub handle_message : SocketMeta → Option Envelope → List Effect
unfolding fire_local_event
handle_message m none = []
handle_message m (some ping) = if m.is_open then send pong ∷ [] else []
handle_message m (some pong) = []
handle_message m (some (resume last)) =
    fire_local_event m (lit "__resume__") (some (obj (field (lit "lastSeq") (nat last) end))) none
handle_message m (some (event seq name payload)) = fire_local_event m name payload none
handle_message m (some (request id name payload)) = fire_local_event m name payload (some id)
handle_message m (some (response id success payload error)) = []

unfoldable pub handle_close : SocketMeta → SocketMeta × List Effect
unfolding fire_local_event
handle_close m = (record m { is_open = false }, fire_local_event m (lit "disconnect") none none)

-- the events of a list, emitted one after the other
unfoldable pub emit_all : SocketMeta → List (Str × Option Json) → SocketMeta × List Effect
unfolding emit
emit_all m [] = (m, [])
emit_all m ((name, payload) ∷ es) =
    let (n, effects) = emit m name payload in
    let (k, later) = emit_all n es in (k, effects ++ later)
