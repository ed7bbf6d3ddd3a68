-- ===== src/Transport/Client/Defs/State.antt =====
-- The state of a client and its connection: connect and disconnect of ws-client.ts.
use code_quest.Common.{
  ℕ, ◌+◌, Bool, true, false, not, List, [], ◌∷◌, ◌++◌, Option, none, some, Str, if◌then◌else◌,
  str_eq, nat_eq, or_default,
}
use code_quest.Common.Text.{lit}
use code_quest.Common.Json.{Json}
use code_quest.Common.Map.{Map, get, set, keys}
use code_quest.Transport.Envelope.{Envelope, event, request}

pub data ReadyState : Type 0 where
  connecting opened closing closed : ReadyState

pub data Queued : Type 0 where
  queued_event : Str → Option Json → Queued
  queued_request : Str → Str → Option Json → Queued

pub data Outcome : Type 0 where
  resolved : Option Json → Outcome
  rejected : Str → Outcome

-- A message sent on socket `none` goes nowhere: `this.ws?.send`.
pub data Effect : Type 0 where
  send : (socket : Option ℕ) → Envelope → Effect
  settle : (id : Str) → Outcome → Effect
  invoke : (handler : ℕ) → (socket : Option ℕ) → (id : Str) → Option Json → Effect
  notify : (listener : ℕ) → Option Json → Effect
  -- the `close` method of a socket
  shut : (socket : ℕ) → Effect
  on_open on_close : Effect

pub record Options : Type 0 where
  pub initial_backoff_ms : ℕ
  pub max_backoff_ms : ℕ
  pub outbox_limit : ℕ

-- `sockets` are the WebSocket objects that were made, with their state; the timers are `none` or
-- false when they are not set. A reconnect timer whose handle was overwritten by another one still
-- runs.
pub record Client : Type 0 where
  pub opts : Options
  pub ws : Option ℕ
  pub sockets : Map ℕ ReadyState
  pub made : ℕ
  pub outbox : List Queued
  pub pending : Map Str (Unit {0})
  pub listeners : Map Str (List ℕ)
  pub request_handlers : Map Str ℕ
  pub last_seq : ℕ
  pub backoff_ms : ℕ
  pub reconnect_timer : Option ℕ
  pub overwritten_timers : ℕ
  pub ping_timer : Bool
  pub explicitly_closed : Bool
  pub watches_visibility : Bool

unfoldable pub new : Options → Bool → Client
new opts has_document = record {
  opts = opts;
  ws = none;
  sockets = [];
  made = 0;
  outbox = [];
  pending = [];
  listeners = [];
  request_handlers = [];
  last_seq = 0;
  backoff_ms = opts.initial_backoff_ms;
  reconnect_timer = none;
  overwritten_timers = 0;
  ping_timer = false;
  explicitly_closed = false;
  watches_visibility = has_document;
}

abbrev is_closed : ReadyState → Bool
is_closed closed = true
is_closed _ = false

abbrev is_open_state : ReadyState → Bool
is_open_state opened = true
is_open_state _ = false

-- the state of `this.ws`; `closed` where there is none
abbrev pub state_of : Option ℕ → Map ℕ ReadyState → ReadyState
state_of none sockets = closed
state_of (some n) sockets = or_default (get n sockets) closed

unfoldable pub is_open : Client → Bool
is_open c = is_open_state (state_of c.ws c.sockets)

unfoldable pub to_envelope : Queued → Envelope
to_envelope (queued_event name payload) = event 0 name payload
to_envelope (queued_request id name payload) = request id name payload

unfoldable pub send_now : Client → Envelope → Effect
send_now c env = send c.ws env

unfoldable pub open_socket : Client → Client
open_socket c = record c {
  reconnect_timer = none;
  ws = some c.made;
  sockets = set c.made connecting c.sockets;
  made = c.made + 1;
}

unfoldable pub connect : Client → Client
unfolding open_socket
connect c =
    if not (is_closed (state_of c.ws c.sockets))
    then c
    else open_socket (record c { explicitly_closed = false })

unfoldable pub reject_all : Str → List Str → List Effect
reject_all reason [] = []
reject_all reason (id ∷ ids) = settle id (rejected reason) ∷ reject_all reason ids

abbrev pub shut_alive : Option ℕ → Map ℕ ReadyState → List Effect
shut_alive none sockets = []
shut_alive (some n) sockets =
    if not (is_closed (state_of (some n) sockets)) then shut n ∷ [] else []

abbrev closing_of : Option ℕ → Map ℕ ReadyState → Map ℕ ReadyState
closing_of none sockets = sockets
closing_of (some n) sockets =
    if not (is_closed (state_of (some n) sockets)) then set n closing sockets else sockets

unfoldable pub disconnect : Client → Client × List Effect
unfolding reject_all
disconnect c = (
  record c {
    explicitly_closed = true;
    reconnect_timer = none;
    ping_timer = false;
    watches_visibility = false;
    sockets = closing_of c.ws c.sockets;
    ws = none;
    pending = [];
  },
  shut_alive c.ws c.sockets ++ reject_all (lit "disconnected") (keys c.pending),
)
