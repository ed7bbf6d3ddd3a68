-- ===== src/Transport/Wire/Entrance.antt =====
-- Who is served by a transport, and that both ends agree on a token.
use code_quest.Common.{
  ℕ, ◌≡◌, refl, Bool, true, false, List, [], ◌∷◌, ◌++◌, Option, none, Str, str_eq, nat_eq,
  nat_beq_iff, str_beq_iff, length, arith,
}
use code_quest.Common.Text.{lit}
use code_quest.Common.Map.{get, set}
use code_quest.Transport.Pipeline.Defs.{
  bearer_auth, bearer_token, dispatch, unwind, run_middleware, accept_called, safe_compare, enter,
  expected,
}
use code_quest.Transport.Wire.Server.{
  Told, handler_called, listener_called, warned, warns, tell_each, accept_connection, WsTransport,
  Route, Connected, linked, waits, rejected, failed, connect,
}

abbrev pub told_of : List Told → List ℕ
told_of [] = []
told_of (listener_called cb ∷ ts) = cb ∷ told_of ts
told_of (handler_called _ ∷ ts) = told_of ts
told_of (warned ∷ ts) = told_of ts

told_of-warns : (b : Bool) (ts : List Told) → told_of (warns b ++ ts) ≡ told_of ts
told_of-warns true ts = refl
told_of-warns false ts = refl

told_of-tell_each : (throws : ℕ → Bool) (cbs : List ℕ) → told_of (tell_each throws cbs) ≡ cbs
unfolding tell_each
told_of-tell_each throws [] = refl
told_of-tell_each throws (cb ∷ cbs) =
    ground (arith, told_of-warns (throws cb) (tell_each throws cbs), told_of-tell_each throws cbs)

-- Every listener of connections is told of a connection, in the order in which they came, whether or
-- not the handler of the route or another listener throws.
pub told_of-accept_connection :
    (handler_throws : Bool) (throws : ℕ → Bool) (t : WsTransport) (r : Route)
    → told_of (accept_connection handler_throws throws t r) ≡ t.connection_listeners
unfolding accept_connection
told_of-accept_connection handler_throws throws t r = ground (
  arith,
  told_of-warns handler_throws (tell_each throws t.connection_listeners),
  told_of-tell_each throws t.connection_listeners,
)

abbrev pub authorization : Connected → Option Str
authorization (linked headers) = get (lit "Authorization") headers
authorization waits = none
authorization rejected = none
authorization failed = none

-- What a client with a token sends when it connects is accepted by a route that asks for that token.
pub connect-run_middleware :
    (utf8 : Str → List ℕ) (token : Str) (key : Option Str)
    → (run_middleware utf8 (bearer_auth token ∷ []) (record {
      authorization = authorization (connect utf8 (bearer_token token ∷ []) true);
      session_key = key;
    })).1
      ≡ accept_called ∷ []
unfolding connect run_middleware dispatch unwind enter safe_compare set get
connect-run_middleware utf8 token key = ground (
  arith,
  nat_beq_iff (length token) (length token),
  nat_beq_iff (length (expected token)) (length (expected token)),
  nat_beq_iff (length (utf8 (expected token))) (length (utf8 (expected token))),
  str_beq_iff (utf8 (expected token)) (utf8 (expected token)),
)
