-- ===== src/Transport/Client/Defs/Receiving.antt =====
-- What ws-client.ts does when its socket opens, closes or receives a message.
use code_quest.Common.{
  ℕ, ◌+◌, ◌-◌, ◌/◌, ◌*◌, min, Bool, true, false, not, ◌&&◌, ◌||◌, List, [], ◌∷◌, ◌++◌, map, Option,
  none, some, Str, if◌then◌else◌, str_eq, nat_eq, nat_beq, or_default, ltb, is_some,
}
use code_quest.Common.Text.{lit}
use code_quest.Common.Json.{Json}
use code_quest.Common.Map.{get, set, delete}
use code_quest.Transport.Envelope.{Envelope, event, request, response, ping, pong, resume}
use code_quest.Transport.Client.Defs.State.{
  opened, closed, Queued, Outcome, resolved, rejected, Effect, send, settle, invoke, notify,
  on_open, on_close, Client, is_open, to_envelope, send_now, open_socket, connect, disconnect,
}
use code_quest.Transport.Client.Defs.Sending.{
  emit, start_request, listen, off, on_request, off_request,
}

unfoldable pub flush : Client → List Queued → List Effect
unfolding send_now to_envelope
flush c [] = []
flush c (q ∷ qs) = send_now c (to_envelope q) ∷ flush c qs

unfoldable pub handle_open : Client → Client × List Effect
unfolding flush send_now
handle_open c = (
  record c { backoff_ms = c.opts.initial_backoff_ms; outbox = []; ping_timer = true },
  send_now c (resume c.last_seq) ∷ (flush c c.outbox ++ on_open ∷ []),
)

-- `jitter` is the random factor of the backoff, in thousandths.
unfoldable pub schedule_reconnect : Client → (jitter : ℕ) → Client
schedule_reconnect c jitter = record c {
  overwritten_timers =
      if is_some c.reconnect_timer then c.overwritten_timers + 1 else c.overwritten_timers;
  reconnect_timer = some (min (c.backoff_ms * jitter / 1000) c.opts.max_backoff_ms);
  backoff_ms = min (c.backoff_ms * 2) c.opts.max_backoff_ms;
}

unfoldable pub handle_close : Client → (jitter : ℕ) → Client × List Effect
unfolding schedule_reconnect
handle_close c jitter =
    let d : Client = record c { ping_timer = false } in
    (if c.explicitly_closed then d else schedule_reconnect d jitter, on_close ∷ [])

-- the callback of the reconnect timer
unfoldable pub reconnect : Client → Client
unfolding open_socket
reconnect c = if is_some c.reconnect_timer then open_socket c else c

-- the callback of a reconnect timer whose handle was overwritten
unfoldable pub late_reconnect : Client → Client
unfolding open_socket
late_reconnect c =
    if nat_beq c.overwritten_timers 0
    then c
    else open_socket (record c { overwritten_timers = c.overwritten_timers - 1 })

unfoldable pub visibility_change : Client → (visible : Bool) → Client
unfolding is_open open_socket
visibility_change c visible =
    if not c.watches_visibility
      || not visible
      || is_open c
      || c.explicitly_closed
      || not (is_some c.reconnect_timer)
    then c
    else open_socket (record c { reconnect_timer = none; backoff_ms = c.opts.initial_backoff_ms })

unfoldable pub ping_tick : Client → List Effect
unfolding is_open send_now
ping_tick c = if c.ping_timer && is_open c then send_now c ping ∷ [] else []

unfoldable pub fire_listener : Client → Str → Option Json → List Effect
fire_listener c name payload = map (λ fn. notify fn payload) (or_default (get name c.listeners) [])

abbrev call_handler : Client → Option ℕ → Str → Str → Option Json → List Effect
call_handler c none id name payload =
    send c.ws (response id false none (some (lit "Unknown method: " ++ name))) ∷ []
call_handler c (some handler) id name payload = invoke handler c.ws id payload ∷ []

unfoldable pub handle_incoming_request : Client → Str → Str → Option Json → List Effect
unfolding is_open
handle_incoming_request c id name payload =
    if is_open c then call_handler c (get name c.request_handlers) id name payload else []

abbrev same_socket : Option ℕ → Option ℕ → Bool
same_socket none none = true
same_socket (some m) (some n) = nat_beq m n
same_socket _ _ = false

abbrev answer : Str → Outcome → Envelope
answer id (resolved result) = response id true result none
answer id (rejected message) = response id false none (some message)

-- The handler that was invoked on `socket` returns, or throws with a message.
unfoldable pub complete : Client → (socket : Option ℕ) → Str → Outcome → List Effect
unfolding is_open send_now
complete c socket id o =
    if same_socket c.ws socket && is_open c then send_now c (answer id o) ∷ [] else []

unfoldable pub outcome_of : Bool → Option Json → Option Str → Outcome
outcome_of true payload error = resolved payload
outcome_of false payload error = rejected (or_default error (lit "request failed"))

unfoldable pub handle_response :
    Client → Str → Bool → Option Json → Option Str → Client × List Effect
unfolding outcome_of
handle_response c id success payload error =
    if is_some (get id c.pending)
    then (
      record c { pending = delete id c.pending },
      settle id (outcome_of success payload error) ∷ [],
    )
    else (c, [])

-- The argument is what the message parses to, `none` if it is no envelope.
unfoldable pub handle_message : Client → Option Envelope → Client × List Effect
unfolding fire_listener handle_incoming_request handle_response
handle_message c none = (c, [])
handle_message c (some (event seq name payload)) = (
  record c { last_seq = if ltb c.last_seq seq then seq else c.last_seq },
  fire_listener c name payload,
)
handle_message c (some (response id success payload error)) =
    handle_response c id success payload error
handle_message c (some (request id name payload)) = (c, handle_incoming_request c id name payload)
handle_message c (some ping) = (c, [])
handle_message c (some pong) = (c, [])
handle_message c (some (resume last)) = (c, [])

-- What happens to a client: a call, a timer, or an event of a WebSocket object.
pub data Happening : Type 0 where
  connects disconnects reconnects reconnects_late pings : Happening
  emits : Str → Option Json → Happening
  requests : (id : Str) → Str → Option Json → Happening
  listens offs : Str → ℕ → Happening
  serves : Str → ℕ → Happening
  unserves : Str → Happening
  opens : (socket : ℕ) → Happening
  closes : (socket : ℕ) → (jitter : ℕ) → Happening
  arrives : Option Envelope → Happening
  completes : (socket : Option ℕ) → Str → Outcome → Happening
  looks : (visible : Bool) → Happening

unfoldable pub step : Client → Happening → Client × List Effect
step c connects = (connect c, [])
step c disconnects = disconnect c
step c reconnects = (reconnect c, [])
step c reconnects_late = (late_reconnect c, [])
step c pings = (c, ping_tick c)
step c (emits name payload) = emit c name payload
step c (requests id name payload) = start_request c id name payload
step c (listens name fn) = (listen c name fn, [])
step c (offs name fn) = (off c name fn, [])
step c (serves name handler) = (on_request c name handler, [])
step c (unserves name) = (off_request c name, [])
step c (opens n) = handle_open (record c { sockets = set n opened c.sockets })
step c (closes n jitter) = handle_close (record c { sockets = set n closed c.sockets }) jitter
step c (arrives message) = handle_message c message
step c (completes socket id o) = (c, complete c socket id o)
step c (looks visible) = (visibility_change c visible, [])

unfoldable pub run : Client → List Happening → Client × List Effect
unfolding step
run c [] = (c, [])
run c (h ∷ hs) = let (d, effects) = step c h in let (e, later) = run d hs in (e, effects ++ later)
