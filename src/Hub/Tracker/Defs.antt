-- ===== src/Hub/Tracker/Defs.antt =====
-- The tracker's state and operations.
use code_quest.Common.{Bool, List, [], ◌∷◌, ◌++◌, Option, none, some, Str, str_eq}
use code_quest.Common.Text.{lit}
use code_quest.Common.Json.{Json}
use code_quest.Common.Map.{Map, get, has, set, delete, keys}

pub record RequestMeta : Type 0 where
  pub subtype : Str
  pub tool_name : Option Str
  pub tool_use_id : Option Str

pub record ControlResponse : Type 0 where
  pub success : Bool
  pub response : Option Json
  pub error : Option Str

pub data Outcome : Type 0 where
  resolved : ControlResponse → Outcome
  rejected : Str → Outcome

pub data Effect : Type 0 where
  -- the sender is called with subtype, parameters and request id
  send : Str → Option Json → Str → Effect
  settle : (request_id : Str) → Outcome → Effect

-- `pending` has the subtype of each request, which its timer's message names.
pub record Tracker : Type 0 where
  pub meta : Map Str RequestMeta
  pub pending : Map Str Str
  pub timers : Map Str Str

unfoldable pub new : Tracker
new = record { meta = []; pending = []; timers = [] }

unfoldable pub track_inbound : Tracker → Str → RequestMeta → Tracker
track_inbound t request_id meta = record t { meta = set request_id meta t.meta }

unfoldable pub remove_inbound : Tracker → Str → Tracker
remove_inbound t request_id = record t { meta = delete request_id t.meta }

unfoldable pub has_inbound : Tracker → Str → Bool
has_inbound t request_id = has request_id t.meta

unfoldable pub get_inbound_meta : Tracker → Str → Option RequestMeta
get_inbound_meta t request_id = get request_id t.meta

unfoldable pub send_outbound :
    Tracker → (request_id : Str) → Str → Option Json → Tracker × List Effect
send_outbound t request_id subtype params = (
  record t { pending = set request_id subtype t.pending; timers = set request_id subtype t.timers },
  send subtype params request_id ∷ [],
)

abbrev pub timeout_error : Str → Str
timeout_error subtype = lit "Control request '" ++ (subtype ++ lit "' timed out")

-- The timer of a request fires, if it is still set.
unfoldable pub expire : Tracker → Str → Tracker × List Effect
expire t request_id = elim (get request_id t.timers) [
  | none ↦ (t, [])
  | some subtype ↦ (
    record t { pending = delete request_id t.pending; timers = delete request_id t.timers },
    settle request_id (rejected (timeout_error subtype)) ∷ [],
  )
]

unfoldable pub resolve_outbound : Tracker → Str → ControlResponse → Tracker × List Effect
resolve_outbound t request_id response = elim (get request_id t.pending) [
  | none ↦ (t, [])
  | some _ ↦ (
    record t { pending = delete request_id t.pending; timers = delete request_id t.timers },
    settle request_id (resolved response) ∷ [],
  )
]

unfoldable pub clear_timers : List Str → Map Str Str → Map Str Str
clear_timers [] timers = timers
clear_timers (id ∷ ids) timers = clear_timers ids (delete id timers)

unfoldable pub reject_each : List Str → Str → List Effect
reject_each [] reason = []
reject_each (id ∷ ids) reason = settle id (rejected reason) ∷ reject_each ids reason

-- The loop deletes each entry of the map that it goes over.
unfoldable pub reject_all_pending : Tracker → Str → Tracker × List Effect
unfolding clear_timers reject_each
reject_all_pending t reason = (
  record t { pending = []; timers = clear_timers (keys t.pending) t.timers },
  reject_each (keys t.pending) reason,
)

unfoldable pub clear : Tracker → Tracker × List Effect
unfolding reject_all_pending
clear t = reject_all_pending (record t { meta = [] }) (lit "Channel destroyed")

-- What happens to a tracker.
pub data Happening : Type 0 where
  tracks : Str → RequestMeta → Happening
  removes : Str → Happening
  sends : (request_id : Str) → Str → Option Json → Happening
  expires : Str → Happening
  resolves : Str → ControlResponse → Happening
  rejects : Str → Happening
  clears : Happening

unfoldable pub step : Tracker → Happening → Tracker × List Effect
step t (tracks id meta) = (track_inbound t id meta, [])
step t (removes id) = (remove_inbound t id, [])
step t (sends id subtype params) = send_outbound t id subtype params
step t (expires id) = expire t id
step t (resolves id response) = resolve_outbound t id response
step t (rejects reason) = reject_all_pending t reason
step t clears = clear t

unfoldable pub run : Tracker → List Happening → Tracker × List Effect
unfolding step
run t [] = (t, [])
run t (h ∷ hs) = let (u, effects) = step t h in let (v, later) = run u hs in (v, effects ++ later)
