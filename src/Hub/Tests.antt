-- ===== src/Hub/Tests.antt =====
-- Requests, runner events and raw lines at concrete inputs.
use code_quest.Common.{
  ℕ, ◌+◌, ◌≡◌, refl, true, false, List, [], ◌∷◌, ◌++◌, map, Option, none, some, Str, str_eq,
}
use code_quest.Common.Text.{lit}
use code_quest.Common.Json.{Json, str}
use code_quest.Common.Map.{get, set, keys, values}
use code_quest.Common.Distinct.{waiting}
use code_quest.Hub.Tracker.Defs as Tracker
use code_quest.Hub.Tracker.Defs.{
  Happening, sends, resolves, ControlResponse, reject_all_pending, send_outbound, reject_each,
}
use code_quest.Hub.Tracker.Ledger.{
  settlements, asked_in, AreFresh, run-settles_asked, reject_all_pending-settles,
}
use code_quest.Hub.Channel.Defs as Channel
use code_quest.Hub.Channel.Defs.{
  Channel, ClientMessage, error_message, tracker, on_exit, SessionInit, pick_defined, destroy,
  apply_session_init, set_mcp_timeout, clear_timeouts,
}
use code_quest.Hub.Channel.Lifecycle as Lifecycle
use code_quest.Hub.Channel.Lifecycle.{
  RunnerEvent, says, complains, responds, exits, with_error, run-destroy, exit-last_error,
}
use code_quest.Hub.Recorder.Defs as Recorder
use code_quest.Hub.Recorder.Defs.{Event, stdout, record_for, is_delta}
use code_quest.Hub.Recorder.Order.{line, kept, settle, record_for-settles, record_for-repeats}

abbrev answer : ControlResponse
answer = record { success = true; response = none; error = none }

abbrev requests : List Happening
requests =
    sends (lit "q1") (lit "initialize") none
    ∷ sends (lit "q2") (lit "interrupt") none
    ∷ resolves (lit "q1") answer
    ∷ []

requests-AreFresh : AreFresh Tracker.new requests
unfolding Tracker.new Tracker.step send_outbound get set
requests-AreFresh = (refl, (refl, (tt, tt)))

run-settles_asked_example :
    (settlements (lit "q2") (Tracker.run Tracker.new requests).1
        + waiting (lit "q2") (Tracker.run Tracker.new requests).0.pending
      ≡ asked_in (lit "q2") requests)
    × (get (lit "q2") (Tracker.run Tracker.new requests).0.timers
        ≡ get (lit "q2") (Tracker.run Tracker.new requests).0.pending)
run-settles_asked_example = run-settles_asked requests (lit "q2") requests-AreFresh

reject_all_pending-settles_example :
    (settlements (lit "q2") (Tracker.run Tracker.new requests).1
        + settlements
            (lit "q2")
            (reject_all_pending (Tracker.run Tracker.new requests).0 (lit "gone")).1
      ≡ asked_in (lit "q2") requests)
    × (get
          (lit "q2")
          (reject_all_pending (Tracker.run Tracker.new requests).0 (lit "gone")).0.timers
        ≡ none)
reject_all_pending-settles_example =
    reject_all_pending-settles requests (lit "gone") (lit "q2") requests-AreFresh

abbrev running : Channel
unfolding Channel.new Channel.bind_runner Channel.set_mcp_timeout
running =
    set_mcp_timeout (Channel.bind_runner (Channel.new (lit "c") (lit "claude") [] (lit "/app")))
      (lit "m") 5

run-destroy_example :
    let d = (destroy running).0 in
    ((destroy running).1 ≡ (
      map tracker (reject_each (keys running.control_requests.pending) (lit "Channel destroyed"))
      ++ clear_timeouts (values running.mcp_timeouts)))
    × ((Lifecycle.run d (complains (lit "x") ∷ exits (some 0) (lit "0") ∷ [])).1 ≡ [])
    × ((Lifecycle.run d (complains (lit "x") ∷ exits (some 0) (lit "0") ∷ [])).0
        ≡ with_error d
            (Lifecycle.run d (complains (lit "x") ∷ exits (some 0) (lit "0") ∷ [])).0.last_error)
    × (d.exited ≡ true)
    × (d.control_requests.pending ≡ [])
    × (d.control_requests.meta ≡ [])
    × (d.mcp_timeouts ≡ [])
    × (d.session_config ≡ [])
run-destroy_example = run-destroy running (complains (lit "x") ∷ exits (some 0) (lit "0") ∷ [])

running_bound : running.is_bound ≡ true
unfolding running Channel.new Channel.bind_runner Channel.set_mcp_timeout
running_bound = refl

abbrev chosen : List (Str × Option Json)
chosen = (lit "effort", some (str (lit "high"))) ∷ (lit "tools", none) ∷ []

abbrev first : SessionInit
unfolding pick_defined
first = record {
  session_id = some (lit "u");
  config = some (some (lit "/app"), pick_defined chosen);
  model = some (str (lit "opus"));
  tools = none;
  permission_mode = none;
  fast_mode_state = none;
  mcp_servers = none;
  slash_commands = none;
}

first-config : first.config ≡ some (some (lit "/app"), pick_defined chosen)
unfolding first pick_defined
first-config = refl

abbrev said : ℕ → Event
said n = record { raw = lit "x"; parsed = none; direction = stdout; timestamp = n }

abbrev early : Recorder.Recorder
early = record {
  session_id = some (lit "u");
  current_turn_root = none;
  pending_drop_warned = false;
  pending_events = said 1 ∷ said 2 ∷ [];
  tasks = [];
  store = [];
}

record_for-settles_example :
    ((settle false 3 (record_for false early (said 3) (lit "u"))).tasks ≡ [])
    × ((settle false 3 (record_for false early (said 3) (lit "u"))).pending_events ≡ [])
    × (map line (settle false 3 (record_for false early (said 3) (lit "u"))).store
        ≡ (map line early.store ++ kept false ((said 1 ∷ said 2 ∷ []) ++ said 3 ∷ [])))
record_for-settles_example = record_for-settles false early (said 3) (lit "u") refl

record_for-repeats_example :
    map line (record_for false (record_for false early (said 3) (lit "u")) (said 4) (lit "u")).store
    ≡ said 1 ∷ said 1 ∷ []
unfolding is_delta
record_for-repeats_example =
    record_for-repeats false early (said 1) (said 3) (said 4) (said 2 ∷ []) (lit "u") refl refl
