-- ===== src/Transport/Rpc/Defs.antt =====
-- The channel's state and its operations.
use code_quest.Common.{
  ℕ, ◌+◌, Bool, true, false, List, [], ◌∷◌, ◌++◌, map, Option, none, some, Str, if◌then◌else◌,
  str_eq, nat_eq, or_default,
}
use code_quest.Common.Text.{lit, decimal}
use code_quest.Common.Json.{Json, nat, obj, end, field}
use code_quest.Common.Map.{Map, get, set, delete, values}
use code_quest.Common.Keys.{add, remove}
use code_quest.Transport.Envelope.{Envelope, event, request, response, ping, pong, resume}

pub data Outcome : Type 0 where
  resolved : Option Json → Outcome
  rejected : Str → Outcome

pub data Effect : Type 0 where
  send : Envelope → Effect
  settle : (call : ℕ) → Outcome → Effect
  -- the promise that `request` returns is rejected at once on a closed channel
  refuse : Str → Effect
  invoke : (handler : ℕ) → (id : Str) → Option Json → Effect
  notify : (listener : ℕ) → Option Json → Effect

-- `timers` are the timers of the event loop that this channel has set and that are still to fire,
-- each with the name of its request.
pub record Channel : Type 0 where
  pub handlers : Map Str ℕ
  pub listeners : Map Str (List ℕ)
  pub pending : Map Str ℕ
  pub timers : Map ℕ Str
  pub next_id : ℕ
  pub closed : Bool

unfoldable pub new : Channel
new = record {
  handlers = [];
  listeners = [];
  pending = [];
  timers = [];
  next_id = 1;
  closed = false;
}

abbrev pub closed_error : Str
closed_error = lit "RpcChannel closed"

unfoldable pub start_request : Channel → Str → Option Json → Channel × List Effect
start_request c name payload = if c.closed then (c, refuse closed_error ∷ []) else (
  record c {
    next_id = c.next_id + 1;
    timers = set c.next_id name c.timers;
    pending = set (decimal c.next_id) c.next_id c.pending;
  },
  send (request (decimal c.next_id) name payload) ∷ [],
)

abbrev pub timeout_error : Str → ℕ → Str
timeout_error name n = lit "RPC timeout: " ++ (name ++ (lit " (id=" ++ (decimal n ++ lit ")")))

-- The timer of call `n` fires, if it is still set.
unfoldable pub expire : Channel → ℕ → Channel × List Effect
expire c n = elim (get n c.timers) [
  | none ↦ (c, [])
  | some name ↦ (
    record c { timers = delete n c.timers; pending = delete (decimal n) c.pending },
    settle n (rejected (timeout_error name n)) ∷ [],
  )
]

unfoldable pub on_request : Channel → Str → ℕ → Channel
on_request c name handler = record c { handlers = set name handler c.handlers }

unfoldable pub off_request : Channel → Str → Channel
off_request c name = record c { handlers = delete name c.handlers }

unfoldable pub emit : Channel → Str → Option Json → Channel × List Effect
emit c name payload = (c, if c.closed then [] else send (event 0 name payload) ∷ [])

unfoldable pub listen : Channel → Str → ℕ → Channel
listen c name fn = record c {
  listeners = set name (add fn (or_default (get name c.listeners) [])) c.listeners;
}

abbrev pub drop_if_empty : Str → List ℕ → Map Str (List ℕ) → Map Str (List ℕ)
drop_if_empty name [] m = delete name m
drop_if_empty name (x ∷ xs) m = set name (x ∷ xs) m

abbrev pub without : ℕ → Str → Option (List ℕ) → Map Str (List ℕ) → Map Str (List ℕ)
without fn name none m = m
without fn name (some fns) m = drop_if_empty name (remove fn fns) m

-- the function that `on` returns, while the set that it closes over is the one of the event
unfoldable pub unlisten : Channel → Str → ℕ → Channel
unlisten c name fn = record c { listeners = without fn name (get name c.listeners) c.listeners }

unfoldable pub fire_event : Channel → Str → Option Json → List Effect
fire_event c name payload = map (λ fn. notify fn payload) (or_default (get name c.listeners) [])

unfoldable pub handle_request : Channel → Str → Str → Option Json → List Effect
handle_request c id name payload = elim (get name c.handlers) [
  | none ↦ send (response id false none (some (lit "Unknown method: " ++ name))) ∷ []
  | some handler ↦ invoke handler id payload ∷ []
]

-- The handler of request `id` has returned, or thrown with a message.
unfoldable pub complete : Str → Outcome → List Effect
complete id (resolved result) = send (response id true result none) ∷ []
complete id (rejected message) = send (response id false none (some message)) ∷ []

unfoldable pub outcome_of : Bool → Option Json → Option Str → Outcome
outcome_of true payload error = resolved payload
outcome_of false payload error = rejected (or_default error (lit "Unknown error"))

unfoldable pub handle_response :
    Channel → Str → Bool → Option Json → Option Str → Channel × List Effect
unfolding outcome_of
handle_response c id success payload error = elim (get id c.pending) [
  | none ↦ (c, [])
  | some n ↦ (
    record c { timers = delete n c.timers; pending = delete id c.pending },
    settle n (outcome_of success payload error) ∷ [],
  )
]

unfoldable pub reject_all : Map Str ℕ → List Effect
reject_all [] = []
reject_all ((_, n) ∷ m) = settle n (rejected closed_error) ∷ reject_all m

unfoldable pub clear_all : List ℕ → Map ℕ Str → Map ℕ Str
clear_all [] timers = timers
clear_all (n ∷ ns) timers = clear_all ns (delete n timers)

unfoldable pub close : Channel → Channel × List Effect
unfolding reject_all fire_event clear_all
close c = if c.closed then (c, []) else (
  record c {
    closed = true;
    timers = clear_all (values c.pending) c.timers;
    pending = [];
    listeners = [];
    handlers = [];
  },
  reject_all c.pending ++ fire_event c (lit "disconnect") none,
)

abbrev pub last_seq_data : ℕ → Option Json
last_seq_data n = some (obj (field (lit "lastSeq") (nat n) end))

unfoldable pub handle_message : Channel → Option Envelope → Channel × List Effect
unfolding fire_event handle_request handle_response
handle_message c none = (c, [])
handle_message c (some ping) = (c, send pong ∷ [])
handle_message c (some pong) = (c, [])
handle_message c (some (resume last)) = (c, fire_event c (lit "__resume__") (last_seq_data last))
handle_message c (some (event seq name payload)) = (c, fire_event c name payload)
handle_message c (some (request id name payload)) = (c, handle_request c id name payload)
handle_message c (some (response id success payload error)) =
    handle_response c id success payload error

-- What happens to a channel: a call of a method, a message, a timer, a handler that returns.
pub data Happening : Type 0 where
  requests : Str → Option Json → Happening
  emits : Str → Option Json → Happening
  arrives : Option Envelope → Happening
  expires : ℕ → Happening
  completes : Str → Outcome → Happening
  serves : Str → ℕ → Happening
  unserves : Str → Happening
  listens : Str → ℕ → Happening
  unlistens : Str → ℕ → Happening
  closes : Happening

unfoldable pub step : Channel → Happening → Channel × List Effect
step c (requests name payload) = start_request c name payload
step c (emits name payload) = emit c name payload
step c (arrives message) = handle_message c message
step c (expires n) = expire c n
step c (completes id outcome) = (c, complete id outcome)
step c (serves name handler) = (on_request c name handler, [])
step c (unserves name) = (off_request c name, [])
step c (listens name fn) = (listen c name fn, [])
step c (unlistens name fn) = (unlisten c name fn, [])
step c closes = close c

unfoldable pub run : Channel → List Happening → Channel × List Effect
unfolding step
run c [] = (c, [])
run c (h ∷ hs) = let (d, effects) = step c h in let (e, later) = run d hs in (e, effects ++ later)
