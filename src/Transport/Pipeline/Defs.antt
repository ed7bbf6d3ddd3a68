-- ===== src/Transport/Pipeline/Defs.antt =====
-- A request goes down through the middleware to the core; each call of `next` leaves a frame, which
-- goes on when the call returns. `terminate` ends when the socket that is open closes.
use code_quest.Common.{
  ℕ, Bool, true, false, not, List, [], ◌∷◌, ◌++◌, Option, none, some, Str, if◌then◌else◌, str_eq,
  nat_eq, ◌==◌, length, str_beq,
}
use code_quest.Common.Text.{lit}
use code_quest.Common.Map.{Map, set}

-- what the code reads of a request
pub record Request : Type 0 where
  pub authorization : Option Str
  pub session_key : Option Str

-- `Authenticator.authenticate`
pub data Verdict : Type 0 where
  accepts : (user_id : Str) → Verdict
  refuses : Verdict
  throws : Verdict

-- `req` is missing on the side of a client.
pub record Context : Type 0 where
  pub req : Option Request
  pub auth : Option Str
  pub peer_type : Option Str
  pub headers : Map Str Str

pub data Middleware : Type 0 where
  auth : (authenticate : Request → Verdict) → Middleware
  bearer_auth : (expected_token : Str) → Middleware
  bearer_token : (token : Str) → Middleware
  heartbeat : Middleware
  resumable : Middleware

-- how a middleware begins: it calls `next`, or returns or throws without
pub data Entry : Type 0 where
  next : Context → Entry
  returns : Entry
  fails : Entry

abbrev pub same_bytes : List ℕ → List ℕ → Bool
same_bytes s t = str_beq s t

-- `timingSafeEqual` throws where the lengths differ.
pub data Comparison : Type 0 where
  equal different length_error : Comparison

abbrev pub is_empty : Str → Bool
is_empty [] = true
is_empty (_ ∷ _) = false

abbrev pub authorization_of : Option Request → Option Str
authorization_of none = none
authorization_of (some r) = r.authorization

abbrev pub session_key_of : Option Request → Option Str
session_key_of none = none
session_key_of (some r) = r.session_key

abbrev pub expected : Str → Str
expected token = lit "Bearer " ++ token

unfoldable pub auth_verdict : Verdict → Context → Entry
auth_verdict (accepts user_id) c = next (record c { auth = some user_id })
auth_verdict refuses c = returns
auth_verdict throws c = returns

-- `utf8` is `Buffer.from`.
module _ (utf8 : Str → List ℕ) where
  unfoldable pub safe_compare : Str → Str → Comparison
  safe_compare a b =
      if not (length a == length b)
      then different
      else if not (length (utf8 a) == length (utf8 b))
      then length_error
      else if same_bytes (utf8 a) (utf8 b)
      then equal
      else different

  abbrev pub compared : Comparison → Context → Entry
  compared equal c = next (record c { peer_type = some (lit "summoner") })
  compared different c = returns
  compared length_error c = fails

  abbrev pub bearer_entry : Str → Option Str → Context → Entry
  bearer_entry token none c = returns
  bearer_entry token (some header) c =
      if is_empty header then returns else compared (safe_compare header (expected token)) c

  abbrev pub auth_entry : (Request → Verdict) → Option Request → Context → Entry
  auth_entry authenticate none c = returns
  auth_entry authenticate (some r) c = auth_verdict (authenticate r) c

  unfoldable pub enter : Middleware → Context → Entry
  unfolding safe_compare
  enter (auth authenticate) c = auth_entry authenticate c.req c
  enter (bearer_auth token) c = bearer_entry token (authorization_of c.req) c
  enter (bearer_token token) c =
      next (record c { headers = set (lit "Authorization") (expected token) c.headers })
  enter heartbeat c = next c
  enter resumable c = next c

  -- the call of the core, or of none, and the frames of the calls that wait, the last one first
  pub record Descent : Type 0 where
    pub reaches_core : Bool
    pub threw : Bool
    pub context : Context
    pub frames : List Middleware

  -- `dispatch`
  unfoldable pub dispatch : List Middleware → Context → List Middleware → Descent
  unfolding enter
  dispatch [] c frames = record { reaches_core = true; threw = false; context = c; frames = frames }
  dispatch (m ∷ ms) c frames = elim (enter m c) [
    | next d ↦ dispatch ms d (m ∷ frames)
    | returns ↦ record { reaches_core = false; threw = false; context = c; frames = m ∷ frames }
    | fails ↦ record { reaches_core = false; threw = true; context = c; frames = m ∷ frames }
  ]

-- the socket of the connection
pub data Status : Type 0 where
  absent opened closed : Status

-- `heard` tells whether the `onClose` listener of the frame that waits was there before the socket
-- closed.
pub data Progress : Type 0 where
  awaiting_socket : List Middleware → Progress
  awaiting_close : (heard : Bool) → (waits : Middleware) → List Middleware → Progress
  finished : Progress

pub data Effect : Type 0 where
  -- 401 and `destroy`
  unauthorized : Effect
  destroyed : Effect
  accept_called : Effect
  heartbeat_started : Effect
  heartbeat_cleared : Effect
  -- the timer of a session key that nobody is connected with
  ttl_started : Str → Effect

abbrev pub ttl : Option Str → List Effect
ttl none = []
ttl (some key) = ttl_started key ∷ []

abbrev pub is_opened : Status → Bool
is_opened opened = true
is_opened _ = false

abbrev pub is_absent : Status → Bool
is_absent absent = true
is_absent _ = false

-- The frames go on, one after the other, after a call returned or threw.
unfoldable pub unwind :
    (accepted : Bool)
    → Status
    → (key : Option Str) → (threw : Bool) → List Middleware
    → Progress × List Effect
unwind accepted s key false [] = (finished, if accepted then [] else unauthorized ∷ [])
unwind accepted s key true [] = (finished, destroyed ∷ [])
unwind accepted s key threw (auth _ ∷ fs) = unwind accepted s key false fs
unwind accepted s key threw (bearer_auth _ ∷ fs) = unwind accepted s key threw fs
unwind accepted s key threw (bearer_token _ ∷ fs) = unwind accepted s key threw fs
unwind accepted s key true (heartbeat ∷ fs) = unwind accepted s key true fs
unwind accepted s key true (resumable ∷ fs) = unwind accepted s key true fs
unwind accepted s key false (heartbeat ∷ fs) =
    let rest = unwind accepted s key false fs in
    if is_absent s
    then rest
    else (awaiting_close (is_opened s) heartbeat fs, heartbeat_started ∷ [])
unwind accepted s key false (resumable ∷ fs) =
    let (progress, effects) = unwind accepted s key false fs in
    if is_absent s
    then (progress, ttl key ++ effects)
    else (awaiting_close (is_opened s) resumable fs, [])

pub record Connection : Type 0 where
  pub key : Option Str
  pub status : Status
  pub progress : Progress

-- `WsTransport.runMiddleware`
unfoldable pub run_middleware :
    (utf8 : Str → List ℕ) → List Middleware → Request → Connection × List Effect
unfolding dispatch unwind
run_middleware utf8 ms r =
    let d =
      dispatch utf8 ms (record { req = some r; auth = none; peer_type = none; headers = [] }) [] in
    let (progress, effects) = unwind false absent r.session_key d.threw d.frames in
    if d.reaches_core
    then (
      record { key = r.session_key; status = absent; progress = awaiting_socket d.frames },
      accept_called ∷ [],
    )
    else (record { key = r.session_key; status = absent; progress = progress }, effects)

-- the call that `accept` makes with the socket of the connection
unfoldable pub accepted : Connection → Connection × List Effect
unfolding unwind
accepted c = elim c.progress [
  | awaiting_socket fs ↦
      let (progress, effects) = unwind true opened c.key false fs in
      (record c { status = opened; progress = progress }, effects)
  | awaiting_close heard m fs ↦ (c, [])
  | finished ↦ (c, [])
]

-- what a frame does when the socket that it waits for has closed
abbrev pub terminated : Option Str → Middleware → List Effect
terminated key heartbeat = heartbeat_cleared ∷ []
terminated key resumable = ttl key
terminated key _ = []

-- the listeners of `onClose` of an open socket
unfoldable pub close : Connection → Connection × List Effect
unfolding unwind
close c = elim c.progress [
  | awaiting_socket fs ↦ (record c { status = closed }, [])
  | awaiting_close heard m fs ↦
      let (progress, effects) = unwind true closed c.key false fs in
      if heard
      then (record c { status = closed; progress = progress }, terminated c.key m ++ effects)
      else (record c { status = closed }, [])
  | finished ↦ (record c { status = closed }, [])
]
