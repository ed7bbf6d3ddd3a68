-- ===== src/Transport/Wire/Server.antt =====
-- The routes of WsTransport, whom it tells of a connection, and its connect. A handler of a route and
-- a listener of connections are numbers; `throws` tells which of them throw.
use code_quest.Common.{
  ℕ, Bool, true, false, List, [], ◌∷◌, ◌++◌, Option, none, some, Str, if◌then◌else◌, str_eq, nat_eq,
  ◌==◌, nat_beq,
}
use code_quest.Common.Map.{Map}
use code_quest.Common.Keys.{add, remove}
use code_quest.Transport.Pipeline.Defs.{
  Request, Middleware, bearer_auth, bearer_token, Connection, dispatch, unwind, Progress, finished,
  awaiting_socket, awaiting_close, opened, run_middleware, accept_called, safe_compare, enter,
  expected,
}
use code_quest.Transport.Pipeline.Defs

pub record Route : Type 0 where
  pub path : Str
  pub middleware : List Middleware
  pub handler : ℕ

pub record WsTransport : Type 0 where
  pub routes : List Route
  pub connection_listeners : List ℕ

unfoldable pub route : WsTransport → Str → List Middleware → ℕ → WsTransport
route t path middleware handler = record t {
  routes = t.routes ++ (record { path = path; middleware = middleware; handler = handler }) ∷ [];
}

unfoldable pub on_connection : WsTransport → ℕ → WsTransport
on_connection t cb = record t { connection_listeners = add cb t.connection_listeners }

unfoldable pub off_connection : WsTransport → ℕ → WsTransport
off_connection t cb = record t { connection_listeners = remove cb t.connection_listeners }

-- `split('?')[0]`; 63 is the question mark
unfoldable pub path_of : (url : Str) → Str
path_of [] = []
path_of (c ∷ cs) = let rest = path_of cs in if nat_beq c 63 then [] else c ∷ rest

unfoldable pub find_route : (path : Str) → List Route → Option Route
find_route path [] = none
find_route path (r ∷ rs) = let rest = find_route path rs in if r.path == path then some r else rest

abbrev pub route_for : List Route → (url : Option Str) → Option Route
unfolding find_route path_of
route_for routes none = none
route_for routes (some url) = find_route (path_of url) routes

-- What `attach` makes of a request: none for one that no route is for.
unfoldable pub upgrade :
    (utf8 : Str → List ℕ)
    → WsTransport
    → (url : Option Str) → Request
    → Option (Route × (Connection × List Defs.Effect))
unfolding run_middleware find_route path_of
upgrade utf8 t url req = elim (route_for t.routes url) [
  | none ↦ none
  | some r ↦ some (r, run_middleware utf8 r.middleware req)
]

pub data Told : Type 0 where
  handler_called : ℕ → Told
  listener_called : ℕ → Told
  warned : Told

abbrev pub warns : Bool → List Told
warns true = warned ∷ []
warns false = []

unfoldable pub tell_each : (throws : ℕ → Bool) → List ℕ → List Told
tell_each throws [] = []
tell_each throws (cb ∷ cbs) = listener_called cb ∷ warns (throws cb) ++ tell_each throws cbs

-- Whom `acceptConnection` calls with the socket.
unfoldable pub accept_connection :
    (handler_throws : Bool) → (throws : ℕ → Bool) → WsTransport → Route → List Told
unfolding tell_each
accept_connection handler_throws throws t r =
    handler_called r.handler ∷ warns handler_throws ++ tell_each throws t.connection_listeners

-- `waits`: a middleware waits for the socket to close before `connect` returns.
pub data Connected : Type 0 where
  linked : (headers : Map Str Str) → Connected
  waits : Connected
  rejected : Connected
  failed : Connected

abbrev pub link : Map Str Str → Progress → Connected
link headers finished = linked headers
link headers (awaiting_socket _) = waits
link headers (awaiting_close _ _ _) = waits

-- `created` tells whether the adapter makes a socket, and does not throw.
unfoldable pub connect : (utf8 : Str → List ℕ) → List Middleware → (created : Bool) → Connected
unfolding dispatch unwind
connect utf8 ms created =
    let d =
      dispatch utf8 ms (record { req = none; auth = none; peer_type = none; headers = [] }) [] in
    if d.threw
    then failed
    else if d.reaches_core
    then if created
      then link d.context.headers (unwind true opened none false d.frames).0
      else failed
    else rejected
