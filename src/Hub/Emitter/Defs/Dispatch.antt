-- ===== src/Hub/Emitter/Defs/Dispatch.antt =====
-- The state of an emitter, and how channel-emitter.ts calls the handlers of an event.
use code_quest.Common.{
  ℕ, List, [], ◌∷◌, ◌++◌, Option, none, some, Str, nat_eq, str_eq, or_default, last?,
}
use code_quest.Common.Text.{lit}
use code_quest.Common.Json.{Json, null, obj, end}
use code_quest.Common.Map.{Map, get, set}

-- What a client sends with an event: values, and at the end perhaps a function that takes the answer.
pub data Arg : Type 0 where
  value : Json → Arg
  callback : ℕ → Arg

pub record Call : Type 0 where
  pub channel : Option Str
  pub payload : Arg
  pub socket : Option ℕ
  pub cb : Option ℕ

-- An event handler: a function, or one behind the guards of this file.
pub data Handler : Type 0 where
  plain : ℕ → Handler
  with_channel : ℕ → Handler
  with_error : Handler → Handler
  with_socket : ℕ → Handler

-- What a function does when it is called: it returns, its promise rejects later, or it throws.
pub data Result : Type 0 where
  returns : Result
  rejects : Str → Result
  throws : Str → Result

pub data Effect : Type 0 where
  emitted : ℕ → Str → List Json → Effect
  called : ℕ → Call → Effect
  -- the callback takes an error and its code
  failed : ℕ → Str → Option Str → Effect
  connected : ℕ → ℕ → Effect
  listens : ℕ → Str → Effect

pub record Emitter : Type 0 where
  pub event_map : Map Str (List Handler)
  pub channel_sockets : Map Str (List ℕ)
  pub socket_channels : Map Str (List Str)
  pub socket_refs : Map Str ℕ
  pub connection_callbacks : List ℕ

unfoldable pub new : Emitter
new = record {
  event_map = [];
  channel_sockets = [];
  socket_channels = [];
  socket_refs = [];
  connection_callbacks = [];
}

abbrev nonnull : Option Arg → Arg
nonnull none = value (obj end)
nonnull (some (value null)) = value (obj end)
nonnull (some a) = a

unfoldable pub extract_payload_and_cb : List Arg → Arg × Option ℕ
extract_payload_and_cb [] = (value (obj end), none)
extract_payload_and_cb (a ∷ []) = elim a [
  | value v ↦ (nonnull (some (value v)), none)
  | callback k ↦ (value (obj end), some k)
]
extract_payload_and_cb (a ∷ b ∷ args) = elim (last? (b ∷ args)) [
  | none ↦ (a, none)
  | some c ↦ elim c [ value v ↦ (nonnull (some a), none) | callback k ↦ (a, some k) ]
]

unfoldable pub on : Emitter → Str → Handler → Emitter
on e name handler = record e {
  event_map = set name (or_default (get name e.event_map) [] ++ handler ∷ []) e.event_map;
}

unfoldable pub on_connect : Emitter → ℕ → Emitter
on_connect e cb = record e { connection_callbacks = e.connection_callbacks ++ cb ∷ [] }

-- What a handler leads to: a call of its function, an answer, or nothing.
pub data Target : Type 0 where
  function : ℕ → Target
  answer : ℕ → Target
  nothing : Target

abbrev when_channel : Option Str → Target → Target
when_channel none t = nothing
when_channel (some _) t = t

abbrev when_socket : Option ℕ → Target → Target
when_socket none t = nothing
when_socket (some _) t = t

abbrev answered : Option ℕ → Target
answered none = nothing
answered (some cb) = answer cb

unfoldable pub target : Handler → Call → Target
target (plain n) call = function n
target (with_channel n) call = when_channel call.channel (function n)
target (with_error h) call =
    let t = target h call in elim call.channel [ none ↦ answered call.cb | some _ ↦ t ]
target (with_socket n) call = when_channel call.channel (when_socket call.socket (function n))

-- What the calls do at once, what their promises do later, and the error that ends the dispatch.
pub record Dispatched : Type 0 where
  pub now : List Effect
  pub later : List Effect
  pub thrown : Option Str

abbrev reported : Option ℕ → Str → List Effect
reported none error = []
reported (some cb) error = failed cb error none ∷ []

abbrev pub not_found : Str
not_found = lit "Session not found"

abbrev pub not_found_code : Str
not_found_code = lit "session_not_found"

abbrev pub and_then : List Effect → List Effect → Dispatched → Dispatched
and_then now later d = record { now = now ++ d.now; later = later ++ d.later; thrown = d.thrown }

module _ (run : ℕ → Call → Result) where
  unfoldable pub dispatch_each : List Handler → Call → Dispatched
  unfolding target
  dispatch_each [] call = record { now = []; later = []; thrown = none }
  dispatch_each (h ∷ hs) call =
      let rest = dispatch_each hs call in
      elim (target h call) [
        | function n ↦ elim (run n call) [
          | returns ↦ and_then (called n call ∷ []) [] rest
          | rejects error ↦ and_then (called n call ∷ []) (reported call.cb error) rest
          | throws error ↦ record { now = called n call ∷ []; later = []; thrown = some error }
        ]
        | answer cb ↦ and_then (failed cb not_found (some not_found_code) ∷ []) [] rest
        | nothing ↦ rest
      ]

  unfoldable pub dispatch : Emitter → (event : Str) → Call → Dispatched
  dispatch e event call = dispatch_each (or_default (get event e.event_map) []) call
