-- ===== src/Transport/Client/Stale.antt =====
-- The close event of a connection that the client has given up.
use code_quest.Common.{ℕ, ◌+◌, ◌≡◌, refl, List, [], ◌∷◌, some, arith, nat_eq}
use code_quest.Common.Map.{get, get-set}
use code_quest.Transport.Client.Defs.{
  Client, opened, step, run, Happening, connects, disconnects, reconnects, opens, closes,
  disconnect, connect, open_socket, handle_close, schedule_reconnect, handle_open, reconnect,
}

-- `disconnect()`, `connect()`, then the close event of the old socket `m`, the open event of the new
-- socket, and the reconnect timer.
abbrev pub reconnection : Client → ℕ → ℕ → List Happening
reconnection c m jitter = disconnects ∷ connects ∷ closes m jitter ∷ opens c.made ∷ reconnects ∷ []

-- Where the close event of an old socket `m` arrives after `disconnect()` and `connect()`, the client
-- schedules a reconnect although its new socket is being opened, and when the timer fires it
-- replaces the new socket, which is open and stays open, by a further one.
pub reconnection-orphans :
    (c : Client) (m jitter : ℕ)
    → ((run c (reconnection c m jitter)).0.ws ≡ some (c.made + 1))
      × (get c.made (run c (reconnection c m jitter)).0.sockets ≡ some opened)
unfolding run step disconnect connect open_socket handle_close schedule_reconnect handle_open
    reconnect
reconnection-orphans c m jitter = (refl, rw (get-set, get-set) (ground arith))
