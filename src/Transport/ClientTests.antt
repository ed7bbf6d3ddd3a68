-- ===== src/Transport/ClientTests.antt =====
-- Runs of the client, of a session and of the connection loop at concrete inputs.
use code_quest.Common.{
  ◌+◌, ◌*◌, ◌/◌, ◌≤◌, ◌<◌, ◌≡◌, refl, min, max, true, false, List, [], ◌∷◌, ◌++◌, map, none, some,
  arith, All, length, drop, nat_eq,
}
use Prim.Native.Nat.{◌^◌}
use code_quest.Common.Text.{lit}
use code_quest.Common.Json.{nat}
use code_quest.Common.Map.{get, set}
use code_quest.Common.Distinct.{waiting}
use code_quest.Transport.Envelope.{event, resume}
use code_quest.Transport.Client.Defs.{
  Client, listen, Options, Queued, queued_event, queued_request, Happening, connects, emits,
  requests, arrives, opens, closes, opened, new, is_open, connect, emit, open_socket, enqueue, run,
  step, send, on_open,
}
use code_quest.Transport.Client.Outbox.{opens-flushes, as_happening, sent}
use code_quest.Transport.Client.Pending.{run-settles, asked_in, AreFresh}
use code_quest.Transport.Client.Settling.{settlements}
use code_quest.Transport.Client.Backoff.{backoff-failures, failures}
use code_quest.Transport.Client.Stale.{reconnection-orphans, reconnection}
use code_quest.Transport.Wire.Session.{Message, reconnect, drop_connection}
use code_quest.Transport.Wire.Delivery.{heard}
use code_quest.Transport.Wire.Repetition.{inbox-reconnect_again, second}
use code_quest.Transport.Loop as Loop
use code_quest.Transport.Loop.{
  loop, sleeps, sleeps-loop-le, sleeps-loop_failing, delays_from, refused,
}

abbrev options : Options
options = record { initial_backoff_ms = 1000; max_backoff_ms = 30000; outbox_limit = 2 }

abbrev history : List Happening
history =
    connects
    ∷ emits (lit "a") none
    ∷ requests (lit "r1") (lit "git") none
    ∷ opens 0
    ∷ arrives (some (event 4 (lit "x") none))
    ∷ []

abbrev queued : List Queued
queued = queued_event (lit "a") none ∷ queued_request (lit "r1") (lit "git") (some (nat 1)) ∷ []

-- a client whose socket has been made and has not opened yet
abbrev joining : Client
unfolding connect new
joining = connect (new options true)

opens-flushes_example :
    ((run joining (map as_happening queued)).1 ≡ [])
    × ((step (run joining (map as_happening queued)).0 (opens 0)).1
        ≡ send (some 0) (resume 0) ∷ (sent (some 0) queued ++ on_open ∷ []))
    × ((step (run joining (map as_happening queued)).0 (opens 0)).0.outbox ≡ [])
unfolding new is_open connect open_socket joining get set
opens-flushes_example = opens-flushes joining queued 0 refl (omega arith)

history-AreFresh : AreFresh (new options true) history
unfolding new step connect emit open_socket is_open enqueue get set
history-AreFresh = (tt, (tt, (refl, (tt, (tt, tt)))))

run-settles_example :
    settlements (lit "r1") (run (new options true) history).1
      + waiting (lit "r1") (run (new options true) history).0.pending
    ≡ asked_in (lit "r1") history
run-settles_example = run-settles options true history (lit "r1") history-AreFresh

backoff-failures_example :
    let d = (run (new options false) (failures ((0, 900) ∷ (1, 2100) ∷ []))).0 in
    (d.backoff_ms ≡ min (1000 * 2 ^ 2) 30000)
    × ((step d (closes 2 1100)).0.reconnect_timer
        ≡ some (min (min (1000 * 2 ^ 2) 30000 * 1100 / 1000) 30000))
unfolding new
backoff-failures_example =
    backoff-failures (new options false) ((0, 900) ∷ (1, 2100) ∷ []) 2 1100 refl (omega arith)

reconnection-orphans_example :
    ((run (new options true) (reconnection (new options true) 7 900)).0.ws ≡ some 1)
    × (get 0 (run (new options true) (reconnection (new options true) 7 900)).0.sockets
        ≡ some opened)
unfolding new
reconnection-orphans_example = reconnection-orphans (new options true) 7 900

abbrev first : List Message
first = (lit "a", some (nat 1)) ∷ (lit "b", none) ∷ []

abbrev meanwhile : List Message
meanwhile = (lit "c", none) ∷ []

-- a client with a listener of `a` and one of `c`
abbrev watching : Client
unfolding new listen set get
watching = listen (listen (new options true) (lit "a") 7) (lit "c") 8

nothing_seen : watching.last_seq ≡ 0
unfolding new listen watching
nothing_seen = refl

has_room : 0 < 500
has_room = omega arith

abbrev greeting : List Message
greeting = (lit "a", none) ∷ []

abbrev attempts : List Loop.Attempt
attempts =
    (record { connection = refused; closed = false; closed_asleep = false })
    ∷ (record { connection = refused; closed = false; closed_asleep = false })
    ∷ []

abbrev settings : Loop.Options
settings = record { initial_delay = 1000; max_delay = 1500; reset_after = 5000 }

attempts-fail : All (Loop.IsFailing settings) attempts
unfolding Loop.delay_after
attempts-fail = ((refl, refl, λ d. refl), ((refl, refl, λ d. refl), tt))

abbrev afterwards : List Message
afterwards = (lit "d", none) ∷ []

four_fit : length first + length meanwhile + length afterwards ≤ 500
four_fit = omega arith

three_fit : length first + length meanwhile ≤ 500
three_fit = omega arith

inbox-reconnect_again_example :
    (reconnect
      (drop_connection (
        second
          (lit "s1")
          500
          watching
          first
          meanwhile
          nothing_seen
          three_fit
          has_room
          (lit "s2")
          afterwards
          four_fit))
      (lit "s3")).inbox
    ≡ heard watching.listeners (
        ((first ++ meanwhile) ++ afterwards)
        ++ drop (max 2 (1 + 1)) ((first ++ meanwhile) ++ afterwards))
inbox-reconnect_again_example =
    inbox-reconnect_again (lit "s1") 500 watching first meanwhile nothing_seen three_fit has_room
      (lit "s2") afterwards four_fit (lit "s3")
