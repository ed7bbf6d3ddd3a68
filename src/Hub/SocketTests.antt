-- ===== src/Hub/SocketTests.antt =====
-- Sockets and channels at concrete inputs.
use code_quest.Common.{
  ℕ, ◌≡◌, ◌≢◌, refl, true, false, ◌&&◌, List, [], ◌∷◌, Option, none, some, Str, if◌then◌else◌,
  str_eq, nat_eq, nat_beq, nat_beq_iff, str_beq, arith,
}
use code_quest.Common.Text.{lit}
use code_quest.Common.Map.{get, set, delete, keys}
use code_quest.Common.Keys.{member, add, remove}
use code_quest.Hub.Channel.Defs as Channel
use code_quest.Hub.Channel.Defs.{Channel, ClientMessage, on_message, has_control_request}
use code_quest.Hub.Tracker.Defs as Tracker
use code_quest.Hub.Emitter.Defs as Emitter
use code_quest.Hub.Emitter.Defs.{
  Emitter, new, emit, emit_to_others, broadcast_all, get_socket_count,
}
use code_quest.Hub.Emitter.Membership.{follows, listed}
use code_quest.Hub.Emitter.Tracking as Tracking
use code_quest.Hub.Emitter.Tracking.{
  World, start, Step, connects, joins, leaves, reconnects, AreAllowed, connected, follows-run,
  follows-leaves_reattaches,
}
use code_quest.Hub.Emitter.Delivery.{deliveries, deliveries-sent}
use code_quest.Hub.Manager.Defs.{
  Manager, Effect, with_worktree, ok, exists_error, is_alive, create_eager, join,
  remove_socket_from_all, on_disconnect, on_rebind,
}
use code_quest.Hub.Manager.Creation.{
  after, error_of, created, prepared, IsUntouched, create_eager-registers,
}
use code_quest.Hub.Manager.Unwatched.{unbind_if, remove_socket-unbinds, rebind-deaf}

-- Socket 1 connects, joins a channel, is lost and reconnects with another id.
abbrev steps : List Step
steps = connects 1 (lit "s1") ∷ joins (lit "c") 1 ∷ leaves (lit "s1") ∷ reconnects 1 (lit "s3") ∷ []

abbrev ended : World
ended = Tracking.run start steps

steps-AreAllowed : AreAllowed start steps
unfolding start new get set delete add remove Tracking.step Emitter.handle_connection
    Emitter.add_socket_to_channel Emitter.remove_socket_from_all Emitter.take_out
steps-AreAllowed = (((refl, refl), refl), (refl, (tt, (((refl, refl), refl), tt))))

follows-run_example :
    follows ended.emitter (lit "c") 1
    ≡ (connected ended 1 && listed ended.emitter (ended.ids 1) (lit "c"))
follows-run_example = follows-run steps (lit "c") 1 steps-AreAllowed

is_connected : connected ended 1 ≡ true
unfolding start new get set delete add remove Tracking.run Tracking.step Emitter.handle_connection
    Emitter.add_socket_to_channel Emitter.remove_socket_from_all Emitter.take_out
    Emitter.reattach_socket Emitter.add_to_each
is_connected = refl

two_is_out : follows ended.emitter (lit "c") 2 ≡ false
unfolding start new get set delete add remove member Tracking.run Tracking.step
    Emitter.handle_connection Emitter.add_socket_to_channel Emitter.remove_socket_from_all
    Emitter.take_out Emitter.reattach_socket Emitter.add_to_each
two_is_out = refl

two_differs : ◌≢◌ {A = ℕ} 2 1
two_differs h = absurd (omega (arith, h))

ids_differ : ended.ids 2 ≢ ended.ids 1
unfolding start Tracking.run Tracking.step
ids_differ h = absurd (ground (arith, h))

follows-leaves_reattaches_example :
    let left = Tracking.step ended (leaves (ended.ids 1)) in
    (follows left.emitter (lit "c") 1 ≡ false)
    × (follows left.emitter (lit "c") 2 ≡ follows ended.emitter (lit "c") 2)
    × (follows (Emitter.reattach_socket left.emitter 2 (lit "s2") (ended.ids 1)) (lit "c") 2
        ≡ follows ended.emitter (lit "c") 1)
    × (follows (Tracking.step left (reconnects 1 (lit "s2"))).emitter (lit "c") 1
        ≡ follows ended.emitter (lit "c") 1)
follows-leaves_reattaches_example =
    follows-leaves_reattaches steps (lit "c") (lit "s2") 1 2 2 steps-AreAllowed is_connected
      ids_differ two_differs two_is_out

deliveries-sent_example :
    (deliveries 1 (emit ended.emitter (lit "c") (lit "x") [])
      ≡ (if follows ended.emitter (lit "c") 1 then 1 else 0))
    × (deliveries 1 (emit_to_others ended.ids ended.emitter (lit "c") (lit "s2") (lit "x") []) ≡ (
        if str_beq (ended.ids 1) (lit "s2")
        then 0
        else if follows ended.emitter (lit "c") 1
        then 1
        else 0))
    × (deliveries 1 (broadcast_all ended.emitter (lit "x") [])
        ≡ (if connected ended 1 then 1 else 0))
deliveries-sent_example = deliveries-sent steps (lit "c") (lit "s2") (lit "x") [] 1 steps-AreAllowed

abbrev empty : Manager
unfolding new
empty = record { channels = []; emitter = new }

abbrev same : Str → Str
same s = s

-- The session that is resumed is known before the process starts.
abbrev name_session : Emitter → Channel → Emitter × Channel
name_session e c = (e, record c { session_id = some (lit "s"); project_root = some (lit "/app") })

nothing_alive : is_alive (get (lit "c") empty.channels) ≡ false
unfolding get empty
nothing_alive = refl

d_differs : lit "d" ≢ lit "c"
d_differs h = absurd (ground (arith, h))

abbrev made : (Manager × List Effect) × Option Str
made =
    created (lit "claude") (lit "--x" ∷ []) same name_session none empty (lit "c") (lit "/app") none
      none (lit "q")

abbrev named : Channel
named =
    prepared (lit "claude") (lit "--x" ∷ []) same name_session none empty (lit "c") (lit "/app")
      none none (lit "q")

named-IsUntouched : IsUntouched named
unfolding Channel.bind_runner Channel.new with_worktree Tracker.new
named-IsUntouched = record { running = refl; bound = refl; idle = refl }

create_eager-registers_example :
    (error_of made ≡ none)
    × ((c : Channel) × (get (lit "c") (after made).channels ≡ some c)
        × (c.exited ≡ false)
        × (c.is_bound ≡ true)
        × (c.session_id ≡ named.session_id)
        × (c.project_root ≡ named.project_root)
        × (keys c.control_requests.pending ≡ lit "q" ∷ []))
    × (get (lit "d") (after made).channels ≡ get (lit "d") empty.channels)
    × (create_eager
          (lit "claude")
          (lit "--x" ∷ [])
          same
          name_session
          none
          (after made)
          (lit "c")
          (lit "/app")
          none
          none
          (lit "q")
        ≡ ((after made, []), some (exists_error (lit "c"))))
    × (join
          (lit "claude")
          (lit "--x" ∷ [])
          (after made)
          (lit "c")
          (lit "u")
          (lit "/", lit "/")
          (lit "q")
        ≡ ok (after made, []))
create_eager-registers_example =
    create_eager-registers (lit "claude") (lit "--x" ∷ []) same name_session none empty (lit "c")
      (lit "/app") none none (lit "q") (lit "d") (lit "u") (lit "/", lit "/") nothing_alive
      d_differs named-IsUntouched

abbrev running : Channel
unfolding Channel.new Channel.bind_runner
running = Channel.bind_runner (Channel.new (lit "c") (lit "claude") [] (lit "/app"))

abbrev watched : Manager
unfolding new Emitter.add_socket_to_channel
watched = record {
  channels = (lit "c", running) ∷ [];
  emitter = Emitter.add_socket_to_channel new (lit "c") 1 (lit "s1");
}

watched_c : get (lit "c") watched.channels ≡ some running
unfolding watched get
watched_c = refl

remove_socket-unbinds_example :
    get (lit "c") (remove_socket_from_all watched (lit "s1")).channels
    ≡ unbind_if
        (listed watched.emitter (lit "s1") (lit "c")
          && nat_beq
              (get_socket_count (remove_socket_from_all watched (lit "s1")).emitter (lit "c"))
              0)
        (get (lit "c") watched.channels)
remove_socket-unbinds_example = remove_socket-unbinds watched (lit "s1") (lit "c")

only_one : (s : ℕ) → s ≢ 1 → follows watched.emitter (lit "c") s ≡ false
unfolding watched new get set add member Emitter.add_socket_to_channel
only_one s h = ground (arith, h, nat_beq_iff 1 s)

rebind-deaf_example :
    (follows
        (on_rebind (on_disconnect watched (lit "s1")) 2 (lit "s2") (lit "s1")).emitter
        (lit "c")
        2
      ≡ true)
    × ((d : Channel) × (get
            (lit "c")
            (on_rebind (on_disconnect watched (lit "s1")) 2 (lit "s2") (lit "s1")).channels
          ≡ some d)
        × (on_message d (ClientMessage.other (lit "x")) ≡ (d, [])))
unfolding watched new get set add member Emitter.add_socket_to_channel
rebind-deaf_example =
    rebind-deaf watched (lit "s1") (lit "s2") (lit "c") 1 2 running (ClientMessage.other (lit "x"))
      refl refl only_one refl
