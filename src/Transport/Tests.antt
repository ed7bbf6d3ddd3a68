-- ===== src/Transport/Tests.antt =====
-- Runs of the transport at concrete inputs.
use code_quest.Common.{ℕ, ◌+◌, ◌≡◌, refl, List, [], ◌∷◌, ◌++◌, none, some, true, arith}
use code_quest.Common.Text.{lit, decimal}
use code_quest.Common.Json.{nat}
use code_quest.Common.Map
use code_quest.Common.Map.{keys, values}
use code_quest.Transport.Envelope.{response, event, parse_envelope, to_json, parse_envelope-to_json}
use code_quest.Transport.Resumable
use code_quest.Transport.Resumable.{Call, emits, rebinds, ResumeResult, Emission}
use code_quest.Transport.Resumable.Replay.{resume-run}
use code_quest.Transport.Rpc.Defs
use code_quest.Transport.Rpc.Defs.{Happening, requests, expires, arrives, closes, settle, resolved}
use code_quest.Transport.Rpc.Ledger.{settlements, count}
use code_quest.Transport.Rpc.Settlement.{run-settles_once, run-closes}
use code_quest.Transport.Rpc.Keeping.{issued}

abbrev calls : List (Call ℕ)
calls = emits (lit "a") 1 ∷ emits (lit "b") 2 ∷ rebinds (lit "s2") ∷ emits (lit "c") 3 ∷ []

resume-run_example : Resumable.resume (Resumable.run (Resumable.new (lit "s1") 2) calls) 1 ≡ (
  ResumeResult.ok 2,
  record { target = lit "s2"; event = lit "b"; args = 2 }
      ∷ record { target = lit "s2"; event = lit "c"; args = 3 }
      ∷ [],
)
resume-run_example = resume-run (lit "s1") 2 1 calls (omega arith)

-- The first of three events is gone from a buffer of two.
too_late :
    Resumable.resume (Resumable.run (Resumable.new (lit "s1") 2) calls) 0 ≡ (ResumeResult.gap, [])
unfolding Resumable.resume Resumable.run Resumable.new
too_late = refl

parse_envelope-to_json_example :
    parse_envelope (some (to_json (event 3 (lit "x") none))) ≡ some (event 3 (lit "x") none)
parse_envelope-to_json_example = parse_envelope-to_json (event 3 (lit "x") none)

-- Two requests: the first is answered, and the second waits until its time is over.
abbrev traffic : List Happening
traffic =
    requests (lit "git") none
    ∷ requests (lit "fs") none
    ∷ arrives (some (response (lit "1") true (some (nat 7)) none))
    ∷ []

run-settles_once_example :
    (settlements 2 (Defs.run Defs.new traffic).1
        + count 2 (values (Defs.run Defs.new traffic).0.pending)
      ≡ issued (Defs.run Defs.new traffic).0 2)
    × (count 2 (keys (Defs.run Defs.new traffic).0.timers)
        ≡ count 2 (values (Defs.run Defs.new traffic).0.pending))
run-settles_once_example = run-settles_once traffic 2

traffic_settles : settlements 1 (Defs.run Defs.new traffic).1 ≡ 1
unfolding Defs.run Defs.new Defs.step Defs.start_request Defs.handle_message Defs.handle_response
    decimal Map.get Map.set
traffic_settles = refl

run-closes_example :
    (settlements 2 (Defs.run Defs.new (traffic ++ closes ∷ expires 2 ∷ [])).1
      ≡ issued (Defs.run Defs.new (traffic ++ closes ∷ expires 2 ∷ [])).0 2)
    × (count 2 (keys (Defs.run Defs.new (traffic ++ closes ∷ expires 2 ∷ [])).0.timers) ≡ 0)
run-closes_example = run-closes traffic (expires 2 ∷ []) 2
